-- ===== src/Session/Keymap.antt =====
-- src/core/session.c and src/script/fil.c: the bindings of a script, from one file to the other.
use filly.Prelude.{
  ◌≡◌, ◌≢◌, refl, ◌∙◌, Bool, true, false, some, List, [], ◌∷◌, ◌++◌, Text, ◌==◌, length, All, arith,
  ◌⊎◌, inl, inr, Option-cases, Bool-cases, ◌&&◌, ◌||◌,
}
use filly.Widgets.Events.{Event}
use filly.Session.{
  KeyBinding, session_load_keymap, session_load_keymap_from_fil, load_entry, load_action, split_bar,
  keymap_entry, remap, is_char, first_char, is_null, key_code,
}

abbrev pub HasNoBar : Text → Type 0
HasNoBar = All (λ c. c ≢ b'|')

split_bar-append : (xs ys : Text) → HasNoBar xs → split_bar (xs ++ (b'|' ∷ ys)) ≡ some (xs, ys)
unfolding split_bar
split_bar-append [] ys h = refl
split_bar-append (x ∷ xs) ys h = ground (arith, split_bar-append xs ys)

-- The entry that a script writes for a scope, a key and an action without a bar in scope and key is
-- read as that key and that action, whatever the action holds.
pub load_entry-keymap_entry :
    (keymap : List KeyBinding) (scope key action : Text)
    → HasNoBar scope
    → HasNoBar key
    → load_entry keymap (keymap_entry scope key action) ≡ load_action keymap key action
unfolding load_entry keymap_entry
load_entry-keymap_entry keymap scope key action hs hk =
    ground
      (arith, split_bar-append scope (key ++ (b'|' ∷ action)) hs, split_bar-append key action hk)

-- Some binding is for that key.
abbrev pub is_bound : List KeyBinding → Event → Bool
is_bound [] ev = false
is_bound (b ∷ bs) ev =
    (length b.key == 1 && (is_char ev.code && ev.ch == first_char b.key)) || is_bound bs ev

keeps_bound :
    (keymap : List KeyBinding) (b : KeyBinding) (ev : Event)
    → is_bound keymap ev ≡ true
    → (is_bound (keymap ++ (b ∷ [])) ev ≡ true) × (remap (keymap ++ (b ∷ [])) ev ≡ remap keymap ev)
unfolding remap
keeps_bound [] b ev h = cc
keeps_bound (x ∷ xs) b ev h = ground (arith, keeps_bound xs b ev)

load_action_keeps :
    (keymap : List KeyBinding) (key action : Text) (ev : Event)
    → is_bound keymap ev ≡ true
    → (is_bound (load_action keymap key action) ev ≡ true)
      × (remap (load_action keymap key action) ev ≡ remap keymap ev)
unfolding load_action session_load_keymap
load_action_keeps keymap key action ev h = elim (Bool-cases (is_null (key_code key))) [
  | inl e ↦ rw e (h, refl)
  | inr e ↦ rw e (keeps_bound keymap _ ev h)
]

load_entry-cases :
    (keymap : List KeyBinding) (entry : Text)
    → (load_entry keymap entry ≡ keymap)
      ⊎ ((key : Text) × (action : Text) × (load_entry keymap entry ≡ load_action keymap key action))
unfolding load_entry
load_entry-cases keymap entry = elim (Option-cases (split_bar entry)) [
  | inl e ↦ inl (ground arith)
  | inr (r, e) ↦ elim (Option-cases (split_bar r.1)) [
    | inl f ↦ inl (ground arith)
    | inr (q, f) ↦ inr (q.0, q.1, ground arith)
  ]
]

load_entry_keeps :
    (keymap : List KeyBinding) (entry : Text) (ev : Event)
    → is_bound keymap ev ≡ true
    → (is_bound (load_entry keymap entry) ev ≡ true)
      × (remap (load_entry keymap entry) ev ≡ remap keymap ev)
load_entry_keeps keymap entry ev h = elim (load_entry-cases keymap entry) [
  | inl e ↦ rw e (h, refl)
  | inr (key, action, e) ↦ rw e (load_action_keeps keymap key action ev h)
]

-- No script can rebind a key that the keymap has: whatever entries are loaded, that key does what it
-- did before.
pub session_load_keymap_from_fil_keeps :
    (entries : List Text) (keymap : List KeyBinding) (ev : Event)
    → is_bound keymap ev ≡ true
    → remap (session_load_keymap_from_fil keymap entries) ev ≡ remap keymap ev
unfolding session_load_keymap_from_fil
session_load_keymap_from_fil_keeps [] keymap ev h = refl
session_load_keymap_from_fil_keeps (e ∷ es) keymap ev h =
    let (b, r) = load_entry_keeps keymap e ev h in
    session_load_keymap_from_fil_keeps es (load_entry keymap e) ev b ∙ r
