-- ===== src/Store.antt =====
-- src/core/store.c: the key-value store of a session, with its subscribers.
pub mod Lookup
pub mod Notify
pub mod Unique
pub mod Enumerate
use filly.Prelude.{
  ℕ, suc, ◌+◌, ◌-◌, Bool, true, false, Option, none, some, List, [], ◌∷◌, ◌++◌, map, Text, codes,
  text_eq, snprintf, ◌==◌, if◌then◌else◌, get_elem?,
}
use mathlib.Core.Option

-- `struct Entry_s`; `subs` are the `client_fd`s of its list of subscribers.
pub record Entry : Type 0 where
  pub key : Text
  pub value : Text
  pub subs : List ℕ

-- `struct Store_s`; the list runs from `head`.
pub record Store : Type 0 where
  pub entries : List Entry
  pub version : ℕ

-- One `write(fd, buf, strlen(buf))`.
pub record Write : Type 0 where
  pub fd : ℕ
  pub buf : Text

abbrev pub store_new : Store
store_new = record { entries = []; version = 0 }

-- The scan that each operation begins with.
pub find_entry : Text → List Entry → Option Entry
find_entry key [] = none
find_entry key (e ∷ es) = if text_eq e.key key then some e else find_entry key es

unfoldable pub store_get : Store → Text → Option Text
store_get s key = Option.map (λ e. e.value) (find_entry key s.entries)

-- `none` is a null `Store *`.
unfoldable pub store_get_safe : Option Store → Text → Option Text
store_get_safe none key = none
store_get_safe (some s) key = store_get s key

-- The `Entry *` of the scan lets an operation overwrite the first entry of its key.
pub update_entry : Text → (Entry → Entry) → List Entry → List Entry
update_entry key f [] = []
update_entry key f (e ∷ es) = if text_eq e.key key then f e ∷ es else e ∷ update_entry key f es

-- The line that a subscriber gets, before it is cut to the buffer.
abbrev pub state_line : Text → Text → Text
state_line key value =
    codes "{\"type\":\"state\",\"key\":\""
    ++ (key ++ (codes "\",\"value\":\"" ++ (value ++ codes "\"}\n")))

abbrev pub notifications : Text → Text → List ℕ → List Write
notifications key value = map (λ fd. record { fd = fd; buf = snprintf 512 (state_line key value) })

pub store_set : Store → Text → Text → Store × List Write
store_set s key value = elim (find_entry key s.entries) [
  | some e ↦ (
    record {
      entries = update_entry key (λ e'. record e' { value = value }) s.entries;
      version = s.version + 1;
    },
    notifications key value e.subs,
  )
  | none ↦ (
    record {
      entries = record { key = key; value = value; subs = [] } ∷ s.entries;
      version = s.version + 1;
    },
    [],
  )
]

pub store_subscribe : Store → Text → ℕ → Store
store_subscribe s key client_fd = elim (find_entry key s.entries) [
  | some e ↦ record s {
    entries = update_entry key (λ e'. record e' { subs = client_fd ∷ e'.subs }) s.entries;
  }
  | none ↦ record s {
    entries = record { key = key; value = codes ""; subs = client_fd ∷ [] } ∷ s.entries;
  }
]

-- The loop over `prev` unlinks every subscriber with that descriptor.
pub unlink : ℕ → List ℕ → List ℕ
unlink fd [] = []
unlink fd (x ∷ xs) = if x == fd then unlink fd xs else x ∷ unlink fd xs

pub store_unsubscribe : Store → Text → ℕ → Store
store_unsubscribe s key client_fd = record s {
  entries = update_entry key (λ e. record e { subs = unlink client_fd e.subs }) s.entries;
}

pub store_get_bool : Store → Text → Bool
store_get_bool s key = elim (store_get s key) [ some v ↦ text_eq v (codes "yes") | none ↦ false ]

-- The answer and the new `*idx`; `i == *idx` picks the entry, and a null store has none.
pub store_enum : Option Store → ℕ → Option (Text × Text) × ℕ
store_enum none idx = (none, idx)
store_enum (some s) idx = elim (get_elem? s.entries idx) [
  | some e ↦ (some (e.key, e.value), idx + 1)
  | none ↦ (none, idx)
]

pub store_get_version : Option Store → ℕ
store_get_version none = 0
store_get_version (some s) = s.version

-- Who is told of a change of a key.
unfoldable pub subscribers : Store → Text → List ℕ
subscribers s key = elim (find_entry key s.entries) [ some e ↦ e.subs | none ↦ [] ]
