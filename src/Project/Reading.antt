-- ===== src/Project/Reading.antt =====
-- src/builder/project.c: what `project_load` reads of a member that `project_save` has written.
use filly.Prelude.{
  ◌≤◌, ◌≡◌, refl, ◌∙◌, Bool, true, false, Option, none, some, List, Text, codes, String, arith,
  if◌then◌else◌,
}
use filly.Prelude.Int.{ℤ, pos, negsuc, pos_part, neg_part}
use filly.CJson.{CJson, IsLawful, saturate, find_member, same_name}
use filly.Project.Save.{string_if}
use filly.Project.Load.{int_at, int_or, text_at, items_at, truth}

-- A number of 32 bits, signed.
abbrev pub IsInt : ℤ → Type 0
IsInt n = (pos_part n ≤ 2147483647) × (neg_part n ≤ 2147483648)

saturate-IsInt : (n : ℤ) → IsInt n → saturate n ≡ n
unfolding saturate
saturate-IsInt (pos n) h = ground arith
saturate-IsInt (negsuc n) h = ground arith

pub truth-bool : (b : Bool) → truth (if b then pos 1 else pos 0) ≡ b
unfolding truth
truth-bool true = refl
truth-bool false = refl

module _ {J : Type 0} (C : CJson J) (law : IsLawful C) where
  -- The readings of a member that was added as such.
  pub int_at_lem :
      (ms : List (Text × J)) (name : String) (n : ℤ)
      → find_member (codes name) ms ≡ some (C.create_number n)
      → IsInt n
      → int_at C (C.create_object ms) name ≡ some n
  unfolding int_at
  int_at_lem ms name n e h =
      ground (
        arith,
        law.get_object_item-create ms (codes name),
        saturate-IsInt n h,
        law.valueint-number n,
      )

  pub bool_at_lem :
      (ms : List (Text × J)) (name : String) (b : Bool)
      → find_member (codes name) ms ≡ some (C.create_bool b)
      → int_at C (C.create_object ms) name ≡ some (if b then pos 1 else pos 0)
  unfolding int_at
  bool_at_lem ms name b e =
      ground (arith, law.get_object_item-create ms (codes name), law.valueint-bool b)

  pub int_or_lem :
      (ms : List (Text × J)) (name : String) (otherwise n : ℤ)
      → int_at C (C.create_object ms) name ≡ some n
      → int_or C (C.create_object ms) name otherwise ≡ n
  unfolding int_at int_or
  int_or_lem ms name otherwise n e = ground arith

  pub text_at_lem :
      (ms : List (Text × J)) (name : String) (s : Text)
      → find_member (codes name) ms ≡ some (C.create_string s)
      → text_at C (C.create_object ms) name ≡ some s
  unfolding text_at
  text_at_lem ms name s e =
      ground (arith, law.get_object_item-create ms (codes name), law.valuestring-string s)

  pub text_at-none :
      (ms : List (Text × J)) (name : String)
      → find_member (codes name) ms ≡ none
      → text_at C (C.create_object ms) name ≡ none
  unfolding text_at
  text_at-none ms name e = ground (arith, law.get_object_item-create ms (codes name))

  pub items_at_lem :
      (ms : List (Text × J)) (name : String) (vs : List J)
      → find_member (codes name) ms ≡ some (C.create_array vs)
      → items_at C (C.create_object ms) name ≡ vs
  unfolding items_at
  items_at_lem ms name vs e =
      ground (arith, law.get_object_item-create ms (codes name), law.array_items-create vs)

  -- A member that is written only if the string is not null, and those after it.
  pub find_member-string_if :
      (wanted name : String) (s : Option Text) (ms : List (Text × J))
      → same_name (codes wanted) (codes name) ≡ false
      → find_member (codes wanted) (string_if C name s ms) ≡ find_member (codes wanted) ms
  unfolding find_member
  find_member-string_if wanted name none ms e = refl
  find_member-string_if wanted name (some t) ms e = rw e

  pub text_at_if :
      (ms : List (Text × J)) (name : String) (s : Option Text) (rest : List (Text × J))
      → find_member (codes name) ms ≡ find_member (codes name) (string_if C name s rest)
      → same_name (codes name) (codes name) ≡ true
      → find_member (codes name) rest ≡ none
      → text_at C (C.create_object ms) name ≡ s
  unfolding find_member
  text_at_if ms name none rest e same after = text_at-none ms name (e ∙ after)
  text_at_if ms name (some t) rest e same after = text_at_lem ms name t (e ∙ rw same)
