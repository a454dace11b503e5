-- ===== src/Validator.antt =====
-- src/builder/validator.h and validator.c: the checks of a project. Sums of coordinates are taken
-- without a bound. `fil_error` is what the interface of src/script/fil.h gives here: the `error_msg`
-- of `fil_eval(script, NULL, NULL)`, if there is one.
pub mod Errors
pub mod Overlap
use filly.Prelude.{
  ℕ, zero, suc, ◌+◌, Bool, true, false, not, ◌&&◌, ◌||◌, Option, none, some, List, [], ◌∷◌, ◌++◌,
  Text, codes, text_eq, snprintf, decimal, ◌==◌, if◌then◌else◌, length, ltb,
}
use filly.Prelude.Int.{ℤ, pos, negsuc, leb_ℤ, ltb_ℤ, eqb_ℤ, ◌+ℤ◌}
use filly.Ports.Types.{PortDef}
use filly.Project.{
  BuilderProject, CanvasItem, Rect, GraphNode, ConnectionEdge, StoreVar, NodeType, node_widget,
  node_fil_block,
}

pub data ValidationSeverity : Type 0 where
  v_error v_warning v_info : ValidationSeverity

-- An id or an index is -1 where the issue is about none.
pub record ValidationIssue : Type 0 where
  pub severity : ValidationSeverity
  pub message : Text
  pub item_id : ℤ
  pub node_id : ℤ
  pub edge_idx : ℤ
  pub keymap_idx : ℤ

-- `add_issue` for an item, a node, an edge, and for none of them.
abbrev issue : ValidationSeverity → Text → ℤ → ℤ → ℤ → List ValidationIssue
issue severity message item_id node_id edge_idx =
    record {
      severity = severity;
      message = message;
      item_id = item_id;
      node_id = node_id;
      edge_idx = edge_idx;
      keymap_idx = negsuc 0;
    }
    ∷ []

abbrev item_issue : ValidationSeverity → Text → ℕ → List ValidationIssue
item_issue severity message id =
    issue severity (snprintf 256 message) (pos id) (negsuc 0) (negsuc 0)

-- `%d`
abbrev signed : ℤ → Text
signed (pos n) = decimal n
signed (negsuc n) = b'-' ∷ decimal (suc n)

abbrev quoted : Text → Text
quoted t = b'\'' ∷ (t ++ codes "'")

pub rects_overlap : Rect → Rect → Bool
rects_overlap a b = not (
    (leb_ℤ (a.x +ℤ a.w) b.x || leb_ℤ (b.x +ℤ b.w) a.x)
    || (leb_ℤ (a.y +ℤ a.h) b.y || leb_ℤ (b.y +ℤ b.h) a.y))

pub is_interactive : Text → Bool
is_interactive t =
    text_eq t (codes "input")
    || (text_eq t (codes "password")
        || (text_eq t (codes "menu")
            || (text_eq t (codes "checklist")
                || (text_eq t (codes "toggle")
                    || (text_eq t (codes "checkbox")
                        || (text_eq t (codes "button") || text_eq t (codes "yesno")))))))

-- The first loop's four tests of one item.
pub check_item : {J : Type 0} → ℤ → ℤ → CanvasItem J → List ValidationIssue
check_item root_width root_height i =
    (if eqb_ℤ (pos i.id) i.parent_id
      then item_issue v_error
          (codes "Widget " ++ (quoted i.instance_name ++ codes " is its own parent")) i.id
      else [])
    ++ ((if leb_ℤ i.rect.w (pos 0) || leb_ℤ i.rect.h (pos 0)
          then item_issue v_error
              (codes "Widget "
                ++ (quoted i.instance_name
                    ++ (codes " has invalid dimensions ("
                        ++ (signed i.rect.w ++ (codes "x" ++ (signed i.rect.h ++ codes ")"))))))
              i.id
          else [])
        ++ ((if ltb_ℤ root_width (i.rect.x +ℤ i.rect.w) || ltb_ℤ root_height (i.rect.y +ℤ i.rect.h)
              then item_issue v_warning
                  (codes "Widget "
                    ++ (quoted i.instance_name ++ codes " extends beyond root bounds"))
                  i.id
              else [])
            ++ (if eqb_ℤ i.tab_index (pos 0)
                then item_issue v_info
                    (codes "Widget " ++ (quoted i.instance_name ++ codes " has no tab index set"))
                    i.id
                else [])))

pub check_overlaps : {J : Type 0} → CanvasItem J → List (CanvasItem J) → List ValidationIssue
check_overlaps i [] = []
check_overlaps i (j ∷ js) =
    (if eqb_ℤ i.parent_id j.parent_id && rects_overlap i.rect j.rect
      then item_issue v_warning
          (codes "Widgets "
            ++ (quoted i.instance_name
                ++ (codes " and " ++ (quoted j.instance_name ++ codes " overlap"))))
          i.id
      else [])
    ++ check_overlaps i js

pub check_items : {J : Type 0} → ℤ → ℤ → List (CanvasItem J) → List ValidationIssue
check_items w h [] = []
check_items w h (i ∷ is) = check_overlaps i is ++ (check_item w h i ++ check_items w h is)

pub check_tab_index : {J : Type 0} → CanvasItem J → List (CanvasItem J) → List ValidationIssue
check_tab_index i [] = []
check_tab_index i (j ∷ js) =
    (if ltb_ℤ (pos 0) i.tab_index && eqb_ℤ i.tab_index j.tab_index
      then item_issue v_warning
          (codes "Duplicate tab index "
            ++ (signed i.tab_index
                ++ (codes " for "
                    ++ (quoted i.instance_name ++ (codes " and " ++ quoted j.instance_name)))))
          i.id
      else [])
    ++ check_tab_index i js

pub check_tab_indices : {J : Type 0} → List (CanvasItem J) → List ValidationIssue
check_tab_indices [] = []
check_tab_indices (i ∷ is) = check_tab_index i is ++ check_tab_indices is

pub check_interactive : {J : Type 0} → List (CanvasItem J) → List ValidationIssue
check_interactive [] = []
check_interactive (i ∷ is) =
    (if is_interactive i.widget_type && eqb_ℤ i.tab_index (pos 0)
      then item_issue v_warning
          (codes "Interactive widget " ++ (quoted i.instance_name ++ codes " needs a tab index"))
          i.id
      else [])
    ++ check_interactive is

abbrev has_output : List PortDef → Bool
has_output [] = false
has_output (p ∷ ps) = p.is_output || has_output ps

-- `p->edges[j].from_node == i`, for the index `i` of the node.
abbrev connected : ℕ → List ConnectionEdge → Bool
connected i [] = false
connected i (e ∷ es) = e.from_node == i || connected i es

abbrev is_widget : NodeType → Bool
is_widget node_widget = true
is_widget _ = false

-- The nodes from index `i` on.
pub check_outputs : List ConnectionEdge → ℕ → List GraphNode → List ValidationIssue
check_outputs edges i [] = []
check_outputs edges i (n ∷ ns) =
    (if has_output n.ports && (not (connected i edges) && is_widget n.type)
      then issue v_info
          (snprintf 256
            (codes "Node " ++ (quoted n.label ++ codes " has unconnected output ports")))
          (negsuc 0) (pos i) (negsuc 0)
      else [])
    ++ check_outputs edges (i + 1) ns

-- A later edge runs the other way.
pub is_reversed : ConnectionEdge → List ConnectionEdge → Bool
is_reversed e [] = false
is_reversed e (f ∷ fs) = (f.from_node == e.to_node && f.to_node == e.from_node) || is_reversed e fs

-- The edges from index `i` on.
pub check_cycles : ℕ → List ConnectionEdge → List ValidationIssue
check_cycles i [] = []
check_cycles i (e ∷ es) =
    (if e.from_node == e.to_node || is_reversed e es
      then issue v_error (snprintf 256 (codes "Cycle detected involving edge " ++ decimal i))
          (negsuc 0) (negsuc 0) (pos i)
      else [])
    ++ check_cycles (i + 1) es

-- The message of the script of a node, if it has a script and that fails.
pub script_error : (Text → Option Text) → GraphNode → Option Text
script_error fil_error n = elim n.type [
  | node_fil_block ↦ elim n.fil_script [ some s ↦ fil_error s | none ↦ none ]
  | _ ↦ none
]

pub check_scripts : (Text → Option Text) → ℕ → List GraphNode → List ValidationIssue
check_scripts fil_error i [] = []
check_scripts fil_error i (n ∷ ns) =
    elim (script_error fil_error n) [
      | some m ↦
          issue v_error
            (snprintf 512 (codes "FIL error in node " ++ (quoted n.label ++ (codes ": " ++ m))))
            (negsuc 0) (pos i) (negsuc 0)
      | none ↦ []
    ]
    ++ check_scripts fil_error (i + 1) ns

abbrev is_key : Text → Option Text → Bool
is_key key (some k) = text_eq k key
is_key key none = false

abbrev used : Text → List GraphNode → Bool
used key [] = false
used key (n ∷ ns) = is_key key n.store_key || used key ns

pub check_vars : List GraphNode → List StoreVar → List ValidationIssue
check_vars nodes [] = []
check_vars nodes (v ∷ vs) =
    (if used v.key nodes
      then []
      else issue v_info
          (snprintf 256
            (codes "Store variable " ++ (quoted v.key ++ codes " is declared but never used")))
          (negsuc 0) (negsuc 0) (negsuc 0))
    ++ check_vars nodes vs

pub check_keymaps : {J : Type 0} → BuilderProject J → List ValidationIssue
check_keymaps p =
    if length p.keymaps == 0 && ltb 0 (length p.items)
    then issue v_warning (codes "No keybindings defined") (negsuc 0) (negsuc 0) (negsuc 0)
    else []

pub validator_check_all :
    {J : Type 0} → (Text → Option Text) → BuilderProject J → List ValidationIssue
validator_check_all fil_error p =
    check_items p.root_width p.root_height p.items
    ++ (check_tab_indices p.items
        ++ (check_interactive p.items
            ++ (check_outputs p.edges 0 p.nodes
                ++ (check_cycles 0 p.edges
                    ++ (check_scripts fil_error 0 p.nodes
                        ++ (check_vars p.nodes p.store_vars ++ check_keymaps p))))))
