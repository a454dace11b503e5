-- ===== src/CJson/Tree.antt =====
-- JSON values as trees: an instance of the interface to cJSON, without a parser.
use filly.Prelude.{
  ◌≡◌, refl, Bool, true, false, Option, none, some, List, [], ◌∷◌, Text, if◌then◌else◌, ap,
}
use filly.Prelude.Int.{ℤ, pos}
use filly.CJson.{CJson, IsLawful, find_member, saturate}

mutual
  pub data Json : Type 0 where
    number : ℤ → Json
    string : Text → Json
    bool : Bool → Json
    array : Items → Json
    object : Members → Json

  pub data Items : Type 0 where
    nil : Items
    cons : Json → Items → Items

  pub data Members : Type 0 where
    none_left : Members
    member : Text → Json → Members → Members

to_items : List Json → Items
to_items [] = nil
to_items (v ∷ vs) = cons v (to_items vs)

of_items : Items → List Json
of_items nil = []
of_items (cons v vs) = v ∷ of_items vs

to_members : List (Text × Json) → Members
to_members [] = none_left
to_members ((n, v) ∷ ms) = member n v (to_members ms)

of_members : Members → List (Text × Json)
of_members none_left = []
of_members (member n v ms) = (n, v) ∷ of_members ms

get_object_item : Json → Text → Option Json
get_object_item (object ms) name = find_member name (of_members ms)
get_object_item _ name = none

valueint : Json → ℤ
valueint (number n) = saturate n
valueint (bool true) = pos 1
valueint _ = pos 0

valuestring : Json → Option Text
valuestring (string s) = some s
valuestring _ = none

array_items : Json → Option (List Json)
array_items (array vs) = some (of_items vs)
array_items _ = none

-- The values as an implementation, given the text that it reads and writes.
unfoldable pub trees : (Json → Text) → (Text → Option Json) → CJson Json
unfolding to_items of_items to_members of_members get_object_item valueint valuestring array_items
trees print parse = record {
  create_object = λ ms. object (to_members ms);
  create_array = λ vs. array (to_items vs);
  create_number = number;
  create_string = string;
  create_bool = bool;
  get_object_item = get_object_item;
  valueint = valueint;
  valuestring = valuestring;
  array_items = array_items;
  print_unformatted = print;
  parse = parse;
}

of_members-to_members : (ms : List (Text × Json)) → of_members (to_members ms) ≡ ms
unfolding of_members to_members
of_members-to_members [] = refl
of_members-to_members ((n, v) ∷ ms) = ap ((n, v) ∷◌) (of_members-to_members ms)

of_items-to_items : (vs : List Json) → of_items (to_items vs) ≡ vs
unfolding of_items to_items
of_items-to_items [] = refl
of_items-to_items (v ∷ vs) = ap (v ∷◌) (of_items-to_items vs)

valueint-bool : (b : Bool) → valueint (bool b) ≡ (if b then pos 1 else pos 0)
unfolding valueint
valueint-bool true = refl
valueint-bool false = refl

pub trees-IsLawful :
    (print : Json → Text) (parse : Text → Option Json) → IsLawful (trees print parse)
unfolding trees
trees-IsLawful print parse = record {
  get_object_item-create = λ ms name. ap (find_member name) (of_members-to_members ms);
  valueint-number = λ n. refl;
  valueint-bool = valueint-bool;
  valuestring-string = λ s. refl;
  array_items-create = λ vs. ap some (of_items-to_items vs);
}
