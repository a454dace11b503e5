-- ===== src/Widgets/Tabs/Stale.antt =====
-- src/core/widgets/tabs.c: what an event changes, and what of it is seen.
use filly.Prelude.{
  ℕ, zero, suc, ◌+◌, ◌<◌, ◌≡◌, ◌≢◌, ◌⊎◌, inl, inr, refl, ap, ◌∙◌, false, ◌&&◌, Option, some, List,
  [], ◌∷◌, ltb, length, get_elem?, set, arith, Option-cases, Bool-cases,
}
use filly.Widgets.Events.{Event, EventResult}
use filly.Session.Run.{
  WidgetVtable, Backend, Loop, Round, session_ready, session_resize, session_draw,
}
use filly.Widgets.Tabs.{
  TabsData, is_left, is_right, is_key, pass_on, tabs_handle_event, tabs_vtable,
}

get_elem?-set :
    {A : Type 0} (xs : List A) (i : ℕ) (y : A) → i < length xs → get_elem? (set xs i y) i ≡ some y
get_elem?-set [] i y h = absurd (omega arith)
get_elem?-set (x ∷ xs) zero y h = refl
get_elem?-set (x ∷ xs) (suc i) y h = get_elem?-set xs i y (omega arith)

get_elem?-set_other :
    {A : Type 0} (xs : List A) (i j : ℕ) (y : A) → i ≢ j → get_elem? (set xs i y) j ≡ get_elem? xs j
get_elem?-set_other [] i j y h = refl
get_elem?-set_other (x ∷ xs) zero zero y h = absurd (h refl)
get_elem?-set_other (x ∷ xs) zero (suc j) y h = refl
get_elem?-set_other (x ∷ xs) (suc i) zero y h = refl
get_elem?-set_other (x ∷ xs) (suc i) (suc j) y h = get_elem?-set_other xs i j y (λ e. h (ap suc e))

-- A clean widget is not drawn again at the same size.
session_ready_clean :
    {W F D : Type 0} (vtable : WidgetVtable W F) (backend : Backend) (l : Loop W F D) (r : Round)
    → vtable.is_dirty l.widget ≡ false
    → (r.term_w ≡ l.last_w) × (r.term_h ≡ l.last_h)
    → session_ready vtable backend l r ≡ l
unfolding session_ready
session_ready_clean {W} {F} {D} vtable backend l r clean (w, h) =
    ap (session_draw vtable backend) (resized l r w h) ∙ drawn l clean
  where
    resized :
        (l : Loop W F D) (r : Round)
        → r.term_w ≡ l.last_w
        → r.term_h ≡ l.last_h
        → session_resize vtable backend l r.term_w r.term_h ≡ l
    resized l r w h = unfold session_resize in ground arith

    drawn : (l : Loop W F D) → vtable.is_dirty l.widget ≡ false → session_draw vtable backend l ≡ l
    drawn l clean = unfold session_draw in rw clean refl

module _ {W F : Type 0} (vtable : WidgetVtable W F) where
  -- What an event comes to: the next tab on one side, or the active child's own.
  abbrev pub Moves : TabsData W → TabsData W → Type 0
  Moves d d' =
      (d'.children ≡ d.children) × ((d.active ≡ d'.active + 1) ⊎ (d'.active ≡ d.active + 1))

  abbrev pub Passes : TabsData W → Event → TabsData W × EventResult → Type 0
  Passes d ev (d', o) =
      (d'.active ≡ d.active)
      × ((child : W)
          → get_elem? d.children d.active ≡ some child
          → (get_elem? d'.children d.active ≡ some (vtable.handle_event child ev).0)
            × (o ≡ (vtable.handle_event child ev).1)
            × ((i : ℕ) → d.active ≢ i → get_elem? d'.children i ≡ get_elem? d.children i))

  some-lt : (xs : List W) (i : ℕ) (x : W) → get_elem? xs i ≡ some x → i < length xs
  some-lt [] i x e = cc
  some-lt (y ∷ xs) zero x e = omega arith
  some-lt (y ∷ xs) (suc i) x e = omega (arith, some-lt xs i x e)

  pass_on-Passes : (d : TabsData W) (ev : Event) → Passes d ev (pass_on vtable d ev)
  unfolding pass_on
  pass_on-Passes d ev = elim (Option-cases (get_elem? d.children d.active)) [
    | inl e ↦ (ground arith, λ child f. cc)
    | inr (c, e) ↦ (
      ground arith,
      λ child f.
          let same : c ≡ child = cc in
          rw (e, pass_on)
            (
              get_elem?-set d.children d.active _ (some-lt d.children d.active c e)
                  ∙ ap (λ x. some (vtable.handle_event x ev).0) same,
              ap (λ x. (vtable.handle_event x ev).1) same,
              λ i h. get_elem?-set_other d.children d.active i _ h,
            ),
    )
  ]

  -- Left and Right go to the next tab on their side, if there is one, and change no child; any other
  -- event is handled by the active child alone, whose answer it gets. The active tab is one of the tabs.
  pub tabs_handle_event_lem :
      (d : TabsData W) (ev : Event)
      → d.active < d.tab_count
      → ((tabs_handle_event vtable d ev).0.active < d.tab_count)
        × (Moves d (tabs_handle_event vtable d ev).0 ⊎ Passes d ev (tabs_handle_event vtable d ev))
  unfolding tabs_handle_event
  tabs_handle_event_lem d ev h =
      elim (Bool-cases (is_key ev.type && (is_left ev.code && ltb 0 d.active))) [
        | inl e ↦ rw (e, tabs_handle_event) (omega (arith, h), inl (refl, inl (ground (arith, e))))
        | inr e ↦
            elim (Bool-cases
              (is_key ev.type && (is_right ev.code && ltb (d.active + 1) d.tab_count))) [
                | inl f ↦ rw (e, f, tabs_handle_event) (ground (arith, f), inl (refl, inr refl))
                | inr f ↦
                    rw (e, f, tabs_handle_event)
                      (omega (arith, (pass_on-Passes d ev).0), inr (pass_on-Passes d ev))
              ]
      ]

  pass_on-dirty : (d : TabsData W) (ev : Event) → (pass_on vtable d ev).0.dirty ≡ d.dirty
  unfolding pass_on
  pass_on-dirty d ev = ground arith

  tabs_handle_event-dirty :
      (d : TabsData W) (ev : Event)
      → (is_left ev.code ≡ false) × (is_right ev.code ≡ false)
      → (tabs_handle_event vtable d ev).0.dirty ≡ d.dirty
  unfolding tabs_handle_event
  tabs_handle_event-dirty d ev (no_left, no_right) = ground (arith, pass_on-dirty d ev)

  -- A child's change is not seen: while the event is one for the child, and the session does not resize, the
  -- next rendering leaves what was drawn before, whatever the child does.
  pub tabs_stale :
      {D : Type 0} (backend : Backend) (l : Loop (TabsData W) (ℕ × Option F) D) (ev : Event)
      (r : Round)
      → l.widget.dirty ≡ false
      → (is_left ev.code ≡ false) × (is_right ev.code ≡ false)
      → (r.term_w ≡ l.last_w) × (r.term_h ≡ l.last_h)
      → (session_ready
          (tabs_vtable vtable)
          backend
          (record l { widget = (tabs_handle_event vtable l.widget ev).0 })
          r).drawn
        ≡ l.drawn
  tabs_stale backend l ev r clean others same =
      ap (λ l'. l'.drawn)
        (session_ready_clean (tabs_vtable vtable) backend
          (record l { widget = (tabs_handle_event vtable l.widget ev).0 }) r
          (tabs_handle_event-dirty l.widget ev others ∙ clean) same)
