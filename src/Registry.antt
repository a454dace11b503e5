-- ===== src/Registry.antt =====
-- src/core/widget.c: the registry of widget factories. `F` stands for `WidgetFactory`, a pointer to a
-- function; a null pointer is `none`.
pub mod Laws
use filly.Prelude.{
  ℕ, suc, ◌+◌, Bool, true, false, Option, none, some, List, [], ◌∷◌, Text, text_eq, if◌then◌else◌,
  length, get_elem?,
}

-- `RegistryEntry`; the list runs from `registry`.
pub record RegistryEntry (F : Type 0) : Type 0 where
  pub name : Text
  pub factory : Option F
  pub is_plugin : Bool

module _ {F : Type 0} where
  pub widget_registry_register : List (RegistryEntry F) → Text → Option F → List (RegistryEntry F)
  widget_registry_register registry name factory =
      record { name = name; factory = factory; is_plugin = false } ∷ registry

  pub widget_registry_register_plugin :
      List (RegistryEntry F) → Text → Option F → List (RegistryEntry F)
  widget_registry_register_plugin registry name factory =
      record { name = name; factory = factory; is_plugin = true } ∷ registry

  -- The loop over `prev` unlinks every entry of a plugin.
  pub widget_registry_clear_plugins : List (RegistryEntry F) → List (RegistryEntry F)
  widget_registry_clear_plugins [] = []
  widget_registry_clear_plugins (e ∷ es) =
      if e.is_plugin then widget_registry_clear_plugins es else e ∷ widget_registry_clear_plugins es

  -- The factory that is called for the widget of a request, if there is one.
  pub widget_registry_create : List (RegistryEntry F) → Text → Option F
  widget_registry_create [] widget = none
  widget_registry_create (e ∷ es) widget =
      if text_eq e.name widget then e.factory else widget_registry_create es widget

  -- The entry at `*idx`, if there is one, and the new `*idx`.
  pub widget_registry_enum : List (RegistryEntry F) → ℕ → Option (Text × Option F) × ℕ
  widget_registry_enum registry idx = elim (get_elem? registry idx) [
    | some e ↦ (some (e.name, e.factory), idx + 1)
    | none ↦ (none, idx)
  ]

  pub widget_registry_count : List (RegistryEntry F) → ℕ
  widget_registry_count [] = 0
  widget_registry_count (e ∷ es) = widget_registry_count es + 1
