-- ===== src/Store/Unique.antt =====
-- A key has one entry, in every store that the operations can build.
use filly.Prelude.{ℕ, ◌≡◌, refl, false, none, List, [], ◌∷◌, Text, text_eq, arith, All}
use filly.Store.{
  Entry, Store, find_entry, update_entry, store_new, store_set, store_subscribe, store_unsubscribe,
}

abbrev Fresh : Text → List Entry → Type 0
Fresh key = All (λ (e : Entry). text_eq e.key key ≡ false)

-- No two entries have one key.
abbrev pub HasUniqueKeys : List Entry → Type 0
HasUniqueKeys [] = Unit
HasUniqueKeys (e ∷ es) = Fresh e.key es × HasUniqueKeys es

find_entry-Fresh : (key : Text) (es : List Entry) → find_entry key es ≡ none → Fresh key es
unfolding find_entry
find_entry-Fresh key [] h = tt
find_entry-Fresh key (e ∷ es) h = ground (arith, find_entry-Fresh key es)

update_entry-Fresh :
    (key j : Text) (f : Entry → Entry) (es : List Entry)
    → ((e : Entry) → (f e).key ≡ e.key)
    → Fresh j es
    → Fresh j (update_entry key f es)
unfolding update_entry
update_entry-Fresh key j f [] keep h = tt
update_entry-Fresh key j f (e ∷ es) keep h =
    ground (arith, keep e, update_entry-Fresh key j f es keep)

pub update_entry-HasUniqueKeys :
    (key : Text) (f : Entry → Entry) (es : List Entry)
    → ((e : Entry) → (f e).key ≡ e.key)
    → HasUniqueKeys es
    → HasUniqueKeys (update_entry key f es)
unfolding update_entry
update_entry-HasUniqueKeys key f [] keep h = tt
update_entry-HasUniqueKeys key f (e ∷ es) keep h = ground (
  arith,
  keep e,
  update_entry-Fresh key e.key f es keep,
  update_entry-HasUniqueKeys key f es keep,
)

pub data Operation : Type 0 where
  set_value : Text → Text → Operation
  subscribe : Text → ℕ → Operation
  unsubscribe : Text → ℕ → Operation

unfoldable pub perform : Store → Operation → Store
perform s (set_value key value) = (store_set s key value).0
perform s (subscribe key fd) = store_subscribe s key fd
perform s (unsubscribe key fd) = store_unsubscribe s key fd

unfoldable pub run : Store → List Operation → Store
run s [] = s
run s (o ∷ os) = run (perform s o) os

perform-HasUniqueKeys :
    (s : Store) (o : Operation) → HasUniqueKeys s.entries → HasUniqueKeys (perform s o).entries
unfolding perform store_set store_subscribe store_unsubscribe
perform-HasUniqueKeys s (set_value key value) h = ground (
  arith,
  find_entry-Fresh key s.entries,
  update_entry-HasUniqueKeys key (λ e'. record e' { value = value }) s.entries (λ _. refl),
)
perform-HasUniqueKeys s (subscribe key fd) h = ground (
  arith,
  find_entry-Fresh key s.entries,
  update_entry-HasUniqueKeys key (λ e'. record e' { subs = fd ∷ e'.subs }) s.entries (λ _. refl),
)
perform-HasUniqueKeys s (unsubscribe key fd) h =
    update_entry-HasUniqueKeys key _ s.entries (λ _. refl) h

run-HasUniqueKeys :
    (s : Store) (os : List Operation) → HasUniqueKeys s.entries → HasUniqueKeys (run s os).entries
unfolding run
run-HasUniqueKeys s [] h = h
run-HasUniqueKeys s (o ∷ os) h = run-HasUniqueKeys (perform s o) os (perform-HasUniqueKeys s o h)

-- From `store_new` no run of operations stores a key twice.
pub run_unique : (os : List Operation) → HasUniqueKeys (run store_new os).entries
run_unique os = run-HasUniqueKeys store_new os tt
