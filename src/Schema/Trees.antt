-- ===== src/Schema/Trees.antt =====
-- src/protocol/schema.c: the values of the validator as trees, which are finite.
use filly.Prelude.{
  ℕ, zero, suc, ◌+◌, ◌<◌, ◌≡◌, true, false, Option, none, some, List, [], ◌∷◌, Text, get_elem?,
  arith, Bool-cases, inl, inr, ap,
}
use filly.CJson.{same_name, find_member}
use filly.CJson.Tree.{
  Json, Items, Members, number, string, bool, array, object, nil, cons, none_left, member,
}
use filly.Schema.{
  Kind, Values, IsFinite, number_kind, string_kind, true_kind, false_kind, array_kind, object_kind,
}

unfoldable pub kind : Json → Kind
kind (number n) = number_kind
kind (string s) = string_kind
kind (bool true) = true_kind
kind (bool false) = false_kind
kind (array vs) = array_kind
kind (object ms) = object_kind

unfoldable pub valuestring : Json → Option Text
valuestring (string s) = some s
valuestring _ = none

unfoldable pub members_of : Members → List (Text × Json)
members_of none_left = []
members_of (member n v ms) = (n, v) ∷ members_of ms

unfoldable pub item_children : Items → List (Option Text × Json)
item_children nil = []
item_children (cons v vs) = (none, v) ∷ item_children vs

unfoldable pub member_children : Members → List (Option Text × Json)
member_children none_left = []
member_children (member n v ms) = (some n, v) ∷ member_children ms

unfoldable pub children : Json → List (Option Text × Json)
unfolding item_children member_children
children (array vs) = item_children vs
children (object ms) = member_children ms
children _ = []

unfoldable pub get_object_item : Json → Text → Option Json
unfolding members_of
get_object_item (object ms) name = find_member name (members_of ms)
get_object_item _ name = none

unfoldable mutual
  pub size : Json → ℕ
  size (number n) = 1
  size (string s) = 1
  size (bool b) = 1
  size (array vs) = suc (size_items vs)
  size (object ms) = suc (size_members ms)

  pub size_items : Items → ℕ
  size_items nil = 0
  size_items (cons v vs) = size v + size_items vs + 1

  pub size_members : Members → ℕ
  size_members none_left = 0
  size_members (member n v ms) = size v + size_members ms + 1

abbrev pub tree_values : Values Json
tree_values = record {
  kind = kind;
  valuestring = valuestring;
  children = children;
  get_object_item = get_object_item;
  size = size;
}

items_smaller :
    (vs : Items) (i : ℕ) (name : Option Text) (c : Json)
    → get_elem? (item_children vs) i ≡ some (name, c)
    → size c < size_items vs
unfolding item_children size
items_smaller nil i name c e = cc
items_smaller (cons v vs) zero name c e = let same : v ≡ c = cc in omega (arith, ap size same)
items_smaller (cons v vs) (suc i) name c e = omega (arith, items_smaller vs i name c e)

members_smaller :
    (ms : Members) (i : ℕ) (name : Option Text) (c : Json)
    → get_elem? (member_children ms) i ≡ some (name, c)
    → size c < size_members ms
unfolding member_children size
members_smaller none_left i name c e = cc
members_smaller (member n v ms) zero name c e = let same : v ≡ c = cc in omega (arith, ap size same)
members_smaller (member n v ms) (suc i) name c e = omega (arith, members_smaller ms i name c e)

found_smaller :
    (ms : Members) (name : Text) (c : Json)
    → find_member name (members_of ms) ≡ some c
    → size c < size_members ms
unfolding members_of size find_member
found_smaller none_left name c e = cc
found_smaller (member n v ms) name c e = elim (Bool-cases (same_name name n)) [
  | inl f ↦ let same : v ≡ c = ground (arith, e) in omega (arith, ap size same)
  | inr f ↦ ground (arith, found_smaller ms name c)
]

child_smaller :
    (v : Json) (i : ℕ) (name : Option Text) (c : Json)
    → get_elem? (children v) i ≡ some (name, c)
    → size c < size v
unfolding children size
child_smaller (number n) i name c e = cc
child_smaller (string s) i name c e = cc
child_smaller (bool b) i name c e = cc
child_smaller (array vs) i name c e = omega (arith, items_smaller vs i name c e)
child_smaller (object ms) i name c e = omega (arith, members_smaller ms i name c e)

item_smaller :
    (v : Json) (name : Text) (c : Json) → get_object_item v name ≡ some c → size c < size v
unfolding get_object_item size
item_smaller (number n) name c e = cc
item_smaller (string s) name c e = cc
item_smaller (bool b) name c e = cc
item_smaller (array vs) name c e = cc
item_smaller (object ms) name c e = omega (arith, found_smaller ms name c e)

pub tree_values-IsFinite : IsFinite tree_values
tree_values-IsFinite = record { child_smaller = child_smaller; item_smaller = item_smaller }
