-- ===== src/Recorder/Replay.antt =====
-- src/core/recorder.c: what a recording holds, and what a replay gives back.
use filly.Prelude.{
  ℕ, zero, suc, ◌+◌, ◌-◌, ◌≤◌, ◌<◌, ◌≡◌, refl, ◌∙◌, sym, ap, true, some, List, [], ◌∷◌, ◌++◌, map,
  ltb, length, take, get_elem?, length-append, take_all, append_assoc, append-nil, arith, inl, inr,
  Bool-cases,
}
use filly.Recorder.{
  Recorder, NextEvent, event_none, event, max_events, recorder_reset, recorder_record_event,
  recorder_load, recorder_next_event,
}

get_elem?-middle :
    {E : Type 0} (xs ys : List E) (y : E) → get_elem? (xs ++ (y ∷ ys)) (length xs) ≡ some y
get_elem?-middle [] ys y = refl
get_elem?-middle (x ∷ xs) ys y = get_elem?-middle xs ys y

module _ {E F : Type 0} where
  pub record_events : Recorder E F → List E → Recorder E F
  record_events r [] = r
  record_events r (e ∷ es) = record_events (recorder_record_event r e) es

  full : (r : Recorder E F) (es : List E) → max_events ≤ r.event_count → record_events r es ≡ r
  unfolding record_events recorder_record_event
  full r [] h = refl
  full r (e ∷ es) h = ground (arith, full r es h)

  record_one :
      (r : Recorder E F) (e : E)
      → r.recording ≡ true
      → r.event_count < max_events
      → recorder_record_event r e
        ≡ record r { events = r.events ++ (e ∷ []); event_count = r.event_count + 1 }
  unfolding recorder_record_event
  record_one r e h lt = ground arith

  record_cons :
      (r : Recorder E F) (e : E) (es : List E)
      → record_events r (e ∷ es) ≡ record_events (recorder_record_event r e) es
  unfolding record_events
  record_cons r e es = refl

  -- While it records and holds no more than 65536 events, a recorder keeps of the events that
  -- follow the first ones, in their order, as many as there is room for, and drops the later
  -- ones.
  pub record_events_kept :
      (r : Recorder E F) (es : List E)
      → r.recording ≡ true
      → r.event_count ≤ max_events
      → (record_events r es).events ≡ r.events ++ take (max_events - r.event_count) es
  record_events_kept r [] h le = unfold record_events in rw (no_more r) (sym (append-nil r.events))
    where
      no_more : (r : Recorder E F) → take {A = E} (max_events - r.event_count) [] ≡ []
      no_more r = take_all _ [] (omega arith)
  record_events_kept r (e ∷ es) h le = elim (Bool-cases (ltb r.event_count max_events)) [
    | inl lt ↦
        rw (record_cons r e es, record_one r e h (ground arith), room r e (ground arith))
          (record_events_kept
              (record r { events = r.events ++ (e ∷ []); event_count = r.event_count + 1 }) es h
              (ground arith)
            ∙ append_assoc r.events (e ∷ []) _)
    | inr ge ↦
        rw (full r (e ∷ es) (ground arith), none_left r (ground arith)) (sym (append-nil r.events))
  ]
    where
      room :
          (r : Recorder E F) (e : E)
          → r.event_count < max_events
          → max_events - r.event_count ≡ suc (max_events - (r.event_count + 1))
      room r e h = omega arith

      none_left : (r : Recorder E F) → max_events ≤ r.event_count → max_events - r.event_count ≡ 0
      none_left r h = omega arith

  -- The events that a replay gives in `n` calls.
  pub replay : ℕ → Recorder E F → List (NextEvent E)
  replay zero r = []
  replay (suc n) r = (recorder_next_event r).0 ∷ replay n (recorder_next_event r).1

  replay_one :
      (r : Recorder E F) (y : E)
      → r.replaying ≡ true
      → r.replay_pos < r.event_count
      → get_elem? r.events r.replay_pos ≡ some y
      → recorder_next_event r ≡ (event y, record r { replay_pos = r.replay_pos + 1 })
  unfolding recorder_next_event
  replay_one r y a lt e = ground arith

  replay_end :
      (r : Recorder E F) → r.event_count ≤ r.replay_pos → (recorder_next_event r).0 ≡ event_none
  unfolding recorder_next_event
  replay_end r le = ground arith

  replay_from :
      (xs ys : List E) (r : Recorder E F)
      → r.replaying ≡ true
      → r.events ≡ xs ++ ys
      → r.event_count ≡ length xs + length ys
      → r.replay_pos ≡ length xs
      → replay (suc (length ys)) r ≡ map event ys ++ (event_none ∷ [])
  unfolding replay
  replay_from xs [] r a b c d = rw (replay_end r (omega arith)) refl
  replay_from xs (y ∷ ys) r a b c d =
      rw (replay_one r y a (omega arith) (rw (b, d) (get_elem?-middle xs ys y))) (
        ap (event y ∷◌) (
          replay_from (xs ++ (y ∷ [])) ys (record r { replay_pos = r.replay_pos + 1 }) a
            (b ∙ sym (append_assoc xs (y ∷ []) ys)) (omega (arith, length-append xs (y ∷ [])))
            (omega (arith, length-append xs (y ∷ [])))))

  -- From a file with at most 65536 events, `recorder_next_event` gives the events in their order, each
  -- once, and after the last EVENT_NONE; none of these calls reads past the events.
  pub replay-recorder_load :
      (frames : List F) (es : List E)
      → length es ≤ max_events
      → replay (suc (length es)) (recorder_load frames es) ≡ map event es ++ (event_none ∷ [])
  unfolding recorder_load recorder_reset
  replay-recorder_load frames es le =
      replay_from [] es (recorder_load frames es) refl (take_all max_events es le) (omega arith)
        refl
