-- ===== src/Store/Lookup.antt =====
-- What `store_get` answers after each operation of src/core/store.c.
use filly.Prelude.{
  ℕ, ◌≡◌, refl, none, some, List, [], ◌∷◌, Text, codes, text_eq, text_eq_iff, if◌then◌else◌, arith,
}
use filly.Store.{
  Entry, Store, find_entry, update_entry, store_get, store_set, store_subscribe, store_unsubscribe,
  subscribers, unlink,
}

-- An update that keeps the key: the scan finds the updated entry, and other keys are untouched.
pub find_entry-update_entry :
    (key j : Text) (f : Entry → Entry) (es : List Entry)
    → ((e : Entry) → (f e).key ≡ e.key)
    → find_entry j (update_entry key f es) ≡ (
        if text_eq key j
        then elim (find_entry key es) [ some e ↦ some (f e) | none ↦ none ]
        else find_entry j es)
unfolding find_entry update_entry
find_entry-update_entry key j f [] keep = ground arith
find_entry-update_entry key j f (e ∷ es) keep = ground (
  arith,
  keep e,
  text_eq_iff e.key key,
  text_eq_iff e.key j,
  text_eq_iff key j,
  find_entry-update_entry key j f es keep,
)

find_entry-cons :
    (j : Text) (e : Entry) (es : List Entry)
    → find_entry j (e ∷ es) ≡ (if text_eq e.key j then some e else find_entry j es)
unfolding find_entry
find_entry-cons j e es = refl

module _ (s : Store) (key j : Text) where
  -- `store_set` then `store_get`: the new value at that key, and the old answer at every other.
  pub store_get-store_set :
      (value : Text)
      → store_get (store_set s key value).0 j
        ≡ (if text_eq key j then some value else store_get s j)
  unfolding store_get store_set
  store_get-store_set value = ground (
    arith,
    find_entry-cons j (record { key = key; value = value; subs = [] }) s.entries,
    find_entry-update_entry key j (λ e. record e { value = value }) s.entries (λ _. refl),
  )

  -- A subscription keeps every value, but a key that was missing now has the empty value.
  pub store_get-store_subscribe :
      (fd : ℕ)
      → store_get (store_subscribe s key fd) j ≡ (
          if text_eq key j
          then elim (store_get s key) [ some v ↦ some v | none ↦ some (codes "") ]
          else store_get s j)
  unfolding store_get store_subscribe
  store_get-store_subscribe fd = ground (
    arith,
    find_entry-cons j (record { key = key; value = codes ""; subs = fd ∷ [] }) s.entries,
    find_entry-update_entry key j (λ e. record e { subs = fd ∷ e.subs }) s.entries (λ _. refl),
  )

  -- Unsubscribing changes no value.
  pub store_get-store_unsubscribe :
      (fd : ℕ) → store_get (store_unsubscribe s key fd) j ≡ store_get s j
  unfolding store_get store_unsubscribe
  store_get-store_unsubscribe fd = ground (
    arith,
    text_eq_iff key j,
    find_entry-update_entry key j (λ e. record e { subs = unlink fd e.subs }) s.entries (λ _. refl),
  )

  -- Who is told of a change, after each operation.
  pub subscribers-store_set :
      (value : Text) → subscribers (store_set s key value).0 j ≡ subscribers s j
  unfolding subscribers store_set
  subscribers-store_set value = ground (
    arith,
    text_eq_iff key j,
    find_entry-cons j (record { key = key; value = value; subs = [] }) s.entries,
    find_entry-update_entry key j (λ e. record e { value = value }) s.entries (λ _. refl),
  )

  pub subscribers-store_subscribe :
      (fd : ℕ)
      → subscribers (store_subscribe s key fd) j
        ≡ (if text_eq key j then fd ∷ subscribers s key else subscribers s j)
  unfolding subscribers store_subscribe
  subscribers-store_subscribe fd = ground (
    arith,
    find_entry-cons j (record { key = key; value = codes ""; subs = fd ∷ [] }) s.entries,
    find_entry-update_entry key j (λ e. record e { subs = fd ∷ e.subs }) s.entries (λ _. refl),
  )

  pub subscribers-store_unsubscribe :
      (fd : ℕ)
      → subscribers (store_unsubscribe s key fd) j
        ≡ (if text_eq key j then unlink fd (subscribers s key) else subscribers s j)
  unfolding subscribers store_unsubscribe unlink
  subscribers-store_unsubscribe fd = ground (
    arith,
    text_eq_iff key j,
    find_entry-update_entry key j (λ e. record e { subs = unlink fd e.subs }) s.entries (λ _. refl),
  )
