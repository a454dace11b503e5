-- ===== src/Session/Run/Idle.antt =====
-- src/core/session.c: how long `session_run` waits for events on a backend that is not interactive.
use filly.Prelude.{
  ◌+◌, ◌≤◌, ◌<◌, ◌≡◌, false, List, [], ◌∷◌, All, length, arith, ltb, if◌then◌else◌, refl, ◌∙◌, sym,
  subst, Bool-cases, ◌⊎◌, inl, inr,
}
use filly.Prelude.Int.{ℤ}
use filly.Undo.{UndoStack}
use filly.Widgets.Events.{EventType, event_none}
use filly.Session.Run.{
  WidgetVtable, Backend, Round, Loop, Next, continues, returns, and_then, timeout, session_resize,
  session_draw, session_idle, session_event, session_ready, session_round, session_loop,
  session_start, session_run,
}

abbrev pub IsQuiet : Round → Type 0
IsQuiet r = r.event.type ≡ event_none

module _ {W F D : Type 0} (vtable : WidgetVtable W F) (backend : Backend)
    (quiet : backend.is_interactive ≡ false) where
  session_ready-idle_count :
      (l : Loop W F D) (r : Round) → (session_ready vtable backend l r).idle_count ≡ l.idle_count
  unfolding session_ready session_resize session_draw
  session_ready-idle_count l r = ground arith

  session_idle_waits :
      (l : Loop W F D)
      → session_idle vtable backend l ≡ (
          if ltb 5000 (l.idle_count + 1)
          then returns timeout
          else continues (record l { idle_count = l.idle_count + 1 }))
  unfolding session_idle
  session_idle_waits l = rw quiet

  session_event_quiet :
      (l : Loop W F D) (r : Round)
      → IsQuiet r
      → session_event vtable backend l r ≡ session_idle vtable backend l
  unfolding session_event
  session_event_quiet l r h =
      subst
        (λ (t : EventType).
          session_event vtable backend l (record r { event = record r.event { type = t } })
          ≡ session_idle vtable backend l)
        (sym h) refl

  session_round_quiet :
      (l : Loop W F D) (r : Round)
      → IsQuiet r
      → session_round vtable backend l r
        ≡ session_idle vtable backend (session_ready vtable backend l r)
  unfolding session_round
  session_round_quiet l r h = session_event_quiet (session_ready vtable backend l r) r h

  -- A quiet round, of which only the count matters.
  quiet_step :
      (l : Loop W F D) (r : Round) (k : Loop W F D → Next W F D)
      → IsQuiet r
      → l.idle_count ≤ 5000
      → ((l.idle_count ≡ 5000) × (and_then (session_round vtable backend l r) k ≡ returns timeout))
        ⊎ ((l' : Loop W F D) × (l'.idle_count ≡ l.idle_count + 1)
            × (l'.idle_count ≤ 5000)
            × (and_then (session_round vtable backend l r) k ≡ k l'))
  quiet_step l r k h below =
      let e = session_round_quiet l r h ∙ session_idle_waits (session_ready vtable backend l r) in
      on_count (session_ready vtable backend l r) (session_round vtable backend l r) e
        (session_ready-idle_count l r)
    where
      on_count :
          (l₁ : Loop W F D) (n : Next W F D)
          → n ≡ (
              if ltb 5000 (l₁.idle_count + 1)
              then returns timeout
              else continues (record l₁ { idle_count = l₁.idle_count + 1 }))
          → l₁.idle_count ≡ l.idle_count
          → ((l.idle_count ≡ 5000) × (and_then n k ≡ returns timeout))
            ⊎ ((l' : Loop W F D) × (l'.idle_count ≡ l.idle_count + 1)
                × (l'.idle_count ≤ 5000)
                × (and_then n k ≡ k l'))
      on_count l₁ n e same = elim (Bool-cases (ltb 5000 (l₁.idle_count + 1))) [
        | inl over ↦ inl (ground arith, rw (e, over))
        | inr more ↦
            inr (
              record l₁ { idle_count = l₁.idle_count + 1 },
              ground arith,
              ground arith,
              rw (e, more),
            )
      ]

  waits :
      (rs : List Round) (l : Loop W F D)
      → All IsQuiet rs
      → 5000 < l.idle_count + length rs
      → l.idle_count ≤ 5000
      → session_loop vtable backend l rs ≡ returns timeout
  unfolding session_loop
  waits [] l all h below = absurd (omega arith)
  waits (r ∷ rs) l all h below =
      elim (quiet_step l r (λ l'. session_loop vtable backend l' rs) all.0 below) [
        | inl (e, done) ↦ done
        | inr (l', e, below', next) ↦ next ∙ waits rs l' all.1 (omega arith) below'
      ]

  goes_on :
      (rs : List Round) (l : Loop W F D)
      → All IsQuiet rs
      → l.idle_count + length rs ≤ 5000
      → (l' : Loop W F D) × (session_loop vtable backend l rs ≡ continues l')
  unfolding session_loop
  goes_on [] l all h = (l, refl)
  goes_on (r ∷ rs) l all h =
      elim (quiet_step l r (λ l'. session_loop vtable backend l' rs) all.0 (omega arith)) [
        | inl (e, done) ↦ absurd (omega arith)
        | inr (l', e, below', next) ↦
            let (l'', rest) = goes_on rs l' all.1 (omega arith) in (l'', next ∙ rest)
      ]

-- On a backend that is not interactive and has no events, the session goes on for 5000 rounds, and
-- returns its timeout after any more.
pub session_run-timeout :
    {W F D : Type 0} (vtable : WidgetVtable W F) (backend : Backend) (w : W) (undo : UndoStack D)
    (document : D) (term_w term_h : ℤ) (rs : List Round)
    → backend.is_interactive ≡ false
    → All IsQuiet rs
    → ((5000 < length rs)
        × (session_run vtable backend w undo document term_w term_h rs ≡ returns timeout))
      ⊎ ((length rs ≤ 5000)
          × ((l : Loop W F D) × (session_run vtable backend w undo document term_w term_h rs
                ≡ continues l)))
unfolding session_run session_start
session_run-timeout vtable backend w undo document term_w term_h rs quiet all =
    elim (Bool-cases (ltb 5000 (length rs))) [
      | inl over ↦
          inl (ground arith, waits vtable backend quiet rs _ all (ground arith) (omega arith))
      | inr more ↦ inr (ground arith, goes_on vtable backend quiet rs _ all (ground arith))
    ]
