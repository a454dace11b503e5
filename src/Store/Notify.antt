-- ===== src/Store/Notify.antt =====
-- Who is written to, and when: `store_set`, `store_subscribe` and `store_unsubscribe`.
use filly.Prelude.{
  ℕ, ◌+◌, ◌≤◌, ◌≡◌, ◌≢◌, ◌⊎◌, inl, inr, refl, ◌∙◌, List, [], ◌∷◌, Text, text_eq, text_eq_refl,
  text_eq_iff, Bool-cases, arith, length, All, snprintf, snprintf_bound,
}
use filly.Store.{
  Store, Write, store_set, store_subscribe, store_unsubscribe, subscribers, unlink, notifications,
  state_line,
}
use filly.Store.Unique.{Operation, set_value, subscribe, unsubscribe, perform, run}
use filly.Store.Lookup.{
  subscribers-store_subscribe, subscribers-store_unsubscribe, subscribers-store_set,
}

-- The writes of `store_set`, by the subscribers of the key.
store_set_writes :
    (s : Store) (key value : Text)
    → (store_set s key value).1 ≡ notifications key value (subscribers s key)
unfolding store_set subscribers
store_set_writes s key value = ground arith

-- Every step of the version is one `store_set`: no other operation counts.
pub store_set_version :
    (s : Store) (key value : Text) (fd : ℕ)
    → ((store_set s key value).0.version ≡ s.version + 1)
      × ((store_subscribe s key fd).version ≡ s.version)
      × ((store_unsubscribe s key fd).version ≡ s.version)
unfolding store_set store_subscribe store_unsubscribe
store_set_version s key value fd = ground arith

-- After a subscription the new subscriber is written to first, and those before it as before.
pub store_set-store_subscribe :
    (s : Store) (key value : Text) (fd : ℕ)
    → (store_set (store_subscribe s key fd) key value).1
      ≡ record { fd = fd; buf = snprintf 512 (state_line key value) } ∷ (store_set s key value).1
store_set-store_subscribe s key value fd =
    rw (store_set_writes, store_set_writes, subscribers-store_subscribe, text_eq_refl key) refl

unlink-All : (fd : ℕ) (xs : List ℕ) → All (λ x. x ≢ fd) (unlink fd xs)
unfolding unlink
unlink-All fd [] = tt
unlink-All fd (x ∷ xs) = ground (arith, unlink-All fd xs)

unlink_keeps : (fd : ℕ) (xs : List ℕ) → All (λ x. x ≢ fd) xs → unlink fd xs ≡ xs
unfolding unlink
unlink_keeps fd [] h = refl
unlink_keeps fd (x ∷ xs) h = ground (arith, unlink_keeps fd xs)

notifications_fds :
    (key value : Text) (fd : ℕ) (xs : List ℕ)
    → All (λ x. x ≢ fd) xs
    → All (λ (w : Write). w.fd ≢ fd) (notifications key value xs)
notifications_fds key value fd [] h = tt
notifications_fds key value fd (x ∷ xs) h = (h.0, notifications_fds key value fd xs h.1)

-- The descriptor does not subscribe to the key again.
abbrev StaysAway : Text → ℕ → Operation → Type 0
StaysAway key fd (subscribe k d) = (d ≢ fd) ⊎ (k ≢ key)
StaysAway key fd _ = Unit

abbrev IsUntold : Text → ℕ → Store → Type 0
IsUntold key fd s = All (λ x. x ≢ fd) (subscribers s key)

unlink_keeps-All : (fd d : ℕ) (xs : List ℕ) → All (λ x. x ≢ fd) xs → All (λ x. x ≢ fd) (unlink d xs)
unfolding unlink
unlink_keeps-All fd d [] h = tt
unlink_keeps-All fd d (x ∷ xs) h = ground (arith, unlink_keeps-All fd d xs h.1)

perform-IsUntold :
    (s : Store) (key : Text) (fd : ℕ) (o : Operation)
    → StaysAway key fd o
    → IsUntold key fd s
    → IsUntold key fd (perform s o)
unfolding perform
perform-IsUntold s key fd (set_value k v) away h = rw (subscribers-store_set s k key v) h
perform-IsUntold s key fd (subscribe k d) away h =
    rw (subscribers-store_subscribe s k key d) (elim (Bool-cases (text_eq k key)) [
      | inl e ↦
          let same : k ≡ key = (text_eq_iff k key).0 e in
          rw e (elim away [ inl other ↦ (other, rw same h) | inr differs ↦ absurd (differs same) ])
      | inr e ↦ rw e h
    ])
perform-IsUntold s key fd (unsubscribe k d) away h =
    rw (subscribers-store_unsubscribe s k key d) (elim (Bool-cases (text_eq k key)) [
      | inl e ↦
          let same : k ≡ key = (text_eq_iff k key).0 e in
          rw (e, same) (unlink_keeps-All fd d (subscribers s key) h)
      | inr e ↦ rw e h
    ])

run-IsUntold :
    (os : List Operation) (s : Store) (key : Text) (fd : ℕ)
    → All (StaysAway key fd) os
    → IsUntold key fd s
    → IsUntold key fd (run s os)
unfolding run
run-IsUntold [] s key fd away h = h
run-IsUntold (o ∷ os) s key fd away h =
    run-IsUntold os (perform s o) key fd away.1 (perform-IsUntold s key fd o away.0 h)

-- After `store_unsubscribe`, and whatever sets, subscriptions and unsubscriptions follow, as long as
-- the descriptor does not subscribe to that key again, a `store_set` of the key writes nothing to it,
-- however often it had subscribed.
pub store_set-store_unsubscribe :
    (s : Store) (key value : Text) (fd : ℕ) (os : List Operation)
    → All (StaysAway key fd) os
    → All (λ (w : Write). w.fd ≢ fd) (store_set (run (store_unsubscribe s key fd) os) key value).1
store_set-store_unsubscribe s key value fd os away =
    let untold : IsUntold key fd (store_unsubscribe s key fd) =
      rw (subscribers-store_unsubscribe s key key fd, text_eq_refl key)
        (unlink-All fd (subscribers s key)) in
    rw (store_set_writes (run (store_unsubscribe s key fd) os) key value) (
      notifications_fds key value fd _
        (run-IsUntold os (store_unsubscribe s key fd) key fd away untold))

-- Unsubscribing undoes a subscription of a descriptor that had none.
pub store_unsubscribe-store_subscribe :
    (s : Store) (key j : Text) (fd : ℕ)
    → All (λ x. x ≢ fd) (subscribers s key)
    → subscribers (store_unsubscribe (store_subscribe s key fd) key fd) j ≡ subscribers s j
store_unsubscribe-store_subscribe s key j fd h =
    subscribers-store_unsubscribe (store_subscribe s key fd) key j fd
    ∙ rw (subscribers-store_subscribe, subscribers-store_subscribe, text_eq_refl key)
        (unfold unlink in ground (arith, unlink_keeps fd (subscribers s key), text_eq_iff key j))

notifications_bound :
    (key value : Text) (fds : List ℕ)
    → All (λ (w : Write). length w.buf ≤ 511) (notifications key value fds)
notifications_bound key value [] = tt
notifications_bound key value (x ∷ xs) =
    (snprintf_bound 512 (state_line key value), notifications_bound key value xs)

-- No write of `store_set` is longer than the buffer holds.
pub store_set_bound :
    (s : Store) (key value : Text)
    → All (λ (w : Write). length w.buf ≤ 511) (store_set s key value).1
store_set_bound s key value =
    rw store_set_writes (notifications_bound key value (subscribers s key))
