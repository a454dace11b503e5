-- ===== src/Validator/Errors.antt =====
-- src/builder/validator.c: what a report without an error says of the project.
use filly.Prelude.{◌≡◌, ◌≢◌, Bool, true, false, ◌||◌, List, [], ◌∷◌, All}
use filly.Prelude.Int.{pos, ◌≤ℤ◌}
use filly.Project.{CanvasItem, ConnectionEdge}
use filly.Validator.{ValidationIssue, ValidationSeverity, v_error}

abbrev is_error : ValidationSeverity → Bool
is_error v_error = true
is_error _ = false

abbrev pub has_error : List ValidationIssue → Bool
has_error [] = false
has_error (i ∷ is) = is_error i.severity || has_error is

-- An item that is not its own parent and has an area.
abbrev pub IsSoundItem : {J : Type 0} → CanvasItem J → Type 0
IsSoundItem i = (i.parent_id ≢ pos i.id) × (pos 1 ≤ℤ i.rect.w) × (pos 1 ≤ℤ i.rect.h)

abbrev pub IsReverse : ConnectionEdge → ConnectionEdge → Type 0
IsReverse e f = (f.from_node ≡ e.to_node) × (f.to_node ≡ e.from_node)

-- No edge goes from a node to itself, and no two edges run between two nodes both ways.
abbrev pub HasNoShortCycle : List ConnectionEdge → Type 0
HasNoShortCycle [] = Unit
HasNoShortCycle (e ∷ es) =
    (e.from_node ≢ e.to_node) × All (λ f. ¬ IsReverse e f) es × HasNoShortCycle es
