-- ===== src/Registry/Laws.antt =====
-- src/core/widget.c: plugins over the widgets that are built in.
use filly.Prelude.{
  ℕ, suc, zero, ◌+◌, ◌≡◌, refl, Option, none, some, List, [], ◌∷◌, Text, text_eq, if◌then◌else◌,
  arith,
}
use filly.Registry.{
  RegistryEntry, widget_registry_register, widget_registry_register_plugin,
  widget_registry_clear_plugins, widget_registry_create, widget_registry_enum,
  widget_registry_count,
}

module _ {F : Type 0} where
  -- One registration: the name, the factory and whether it is a plugin's.
  pub register_all : List (RegistryEntry F) → List (RegistryEntry F) → List (RegistryEntry F)
  register_all registry [] = registry
  register_all registry (r ∷ rs) =
      register_all
        (if r.is_plugin
          then widget_registry_register_plugin registry r.name r.factory
          else widget_registry_register registry r.name r.factory)
        rs

  -- The registrations that no plugin made.
  abbrev pub built_in : List (RegistryEntry F) → List (RegistryEntry F)
  built_in [] = []
  built_in (r ∷ rs) = if r.is_plugin then built_in rs else r ∷ built_in rs

  clear-register :
      (rs registry : List (RegistryEntry F))
      → widget_registry_clear_plugins (register_all registry rs)
        ≡ register_all (widget_registry_clear_plugins registry) (built_in rs)
  unfolding register_all widget_registry_clear_plugins widget_registry_register
      widget_registry_register_plugin
  clear-register [] registry = refl
  clear-register (r ∷ rs) registry = ground (
    arith,
    clear-register rs (widget_registry_register_plugin registry r.name r.factory),
    clear-register rs (widget_registry_register registry r.name r.factory),
  )

  -- Clearing the plugins leaves what the registrations of the built-in widgets alone would have left,
  -- in whatever order plugins and widgets were registered.
  pub widget_registry_clear_plugins_restores :
      (rs : List (RegistryEntry F))
      → widget_registry_clear_plugins (register_all [] rs) ≡ register_all [] (built_in rs)
  widget_registry_clear_plugins_restores rs =
      rw (clear-register rs []) (unfold widget_registry_clear_plugins in refl)

  -- The registration of a name hides the earlier ones of it, by a plugin as by a widget, and no other
  -- name's; a plugin that hides one gives it back when the plugins are cleared.
  pub widget_registry_create-register :
      (registry : List (RegistryEntry F)) (name widget : Text) (factory : Option F)
      → (widget_registry_create (widget_registry_register registry name factory) widget
          ≡ (if text_eq name widget then factory else widget_registry_create registry widget))
        × (widget_registry_create (widget_registry_register_plugin registry name factory) widget
            ≡ (if text_eq name widget then factory else widget_registry_create registry widget))
        × (widget_registry_create
              (widget_registry_clear_plugins
                (widget_registry_register_plugin registry name factory))
              widget
            ≡ widget_registry_create (widget_registry_clear_plugins registry) widget)
  unfolding widget_registry_register widget_registry_register_plugin
  widget_registry_create-register registry name widget factory = (
    unfold widget_registry_create in refl,
    unfold widget_registry_create in refl,
    unfold widget_registry_clear_plugins in refl,
  )

  -- The loop that a caller makes of `widget_registry_enum`, on fuel.
  pub enumerate : ℕ → List (RegistryEntry F) → ℕ → List (Text × Option F)
  enumerate zero registry idx = []
  enumerate (suc fuel) registry idx =
      let rest = enumerate fuel registry (widget_registry_enum registry idx).1 in
      elim (widget_registry_enum registry idx).0 [ some x ↦ x ∷ rest | none ↦ [] ]

  abbrev pub listed : List (RegistryEntry F) → List (Text × Option F)
  listed [] = []
  listed (e ∷ es) = (e.name, e.factory) ∷ listed es

  enumerate_cons :
      (n : ℕ) (e : RegistryEntry F) (es : List (RegistryEntry F)) (i : ℕ)
      → enumerate n (e ∷ es) (suc i) ≡ enumerate n es i
  unfolding enumerate widget_registry_enum
  enumerate_cons zero e es i = refl
  enumerate_cons (suc n) e es i = ground (arith, enumerate_cons n e es (i + 1))

  enumerate_first :
      (n : ℕ) (e : RegistryEntry F) (es : List (RegistryEntry F))
      → enumerate (suc n) (e ∷ es) 0 ≡ (e.name, e.factory) ∷ enumerate n es 0
  unfolding enumerate widget_registry_enum
  enumerate_first n e es = ground (arith, enumerate_cons n e es 0)

  -- A caller that asks once more than `widget_registry_count` says, from index 0, gets every entry
  -- with its name and factory, each once and in the order of the list.
  pub widget_registry_enum_all :
      (registry : List (RegistryEntry F))
      → enumerate (suc (widget_registry_count registry)) registry 0 ≡ listed registry
  unfolding widget_registry_count
  widget_registry_enum_all [] = unfold enumerate in (unfold widget_registry_enum in refl)
  widget_registry_enum_all (e ∷ es) =
      rw add-one (
        rw (enumerate_first (suc (widget_registry_count es)) e es, widget_registry_enum_all es)
          refl)
    where
      add-one : widget_registry_count es + 1 ≡ suc (widget_registry_count es)
      add-one = omega arith
