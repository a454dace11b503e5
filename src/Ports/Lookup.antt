-- ===== src/Ports/Lookup.antt =====
-- src/builder/project.c: `project_get_widget_ports`, and what it promises for every widget type.
use filly.Prelude.{
  ℕ, ◌+◌, ◌≡◌, refl, Bool, true, false, not, ◌&&◌, ◌||◌, List, [], ◌∷◌, ◌++◌, map, take, length,
  Text, codes, text_eq, leb, ◌==◌, if◌then◌else◌, arith,
}
use filly.Ports.Types.{
  PortDataType, PortDef, WidgetPortInfo, port, port_bool, port_trigger, port_string, port_int,
}
use filly.Ports.Choosing.{choosing_ports}
use filly.Ports.Editing.{editing_ports}
use filly.Ports.Showing.{showing_ports}
use filly.Ports.Hosting.{hosting_ports}

abbrev port_registry : List WidgetPortInfo
port_registry = choosing_ports ++ (editing_ports ++ (showing_ports ++ hosting_ports))

-- The two loops that fill the array: each port with its direction set.
pub node_ports : WidgetPortInfo → List PortDef
node_ports info =
    map (λ (p : PortDef). record p { is_output = true }) (take info.output_count info.outputs)
    ++ map (λ (p : PortDef). record p { is_output = false }) (take info.input_count info.inputs)

-- The array alone: the number that the function returns is its length.
pub find_ports : List WidgetPortInfo → Text → List PortDef
find_ports [] widget_type = port 0 "set_visible" port_bool false "Show or hide this widget" ∷ []
find_ports (info ∷ infos) widget_type =
    if text_eq info.widget_type widget_type then node_ports info else find_ports infos widget_type

pub project_get_widget_ports : Text → List PortDef
project_get_widget_ports widget_type = find_ports port_registry widget_type

unfoldable pub type_eq : PortDataType → PortDataType → Bool
type_eq port_trigger port_trigger = true
type_eq port_string port_string = true
type_eq port_bool port_bool = true
type_eq port_int port_int = true
type_eq _ _ = false

-- There is a port of that name, direction and type.
pub has_port : Text → Bool → PortDataType → List PortDef → Bool
has_port name out type [] = false
has_port name out type (p ∷ ps) =
    (text_eq p.name name && ((if out then p.is_output else not p.is_output) && type_eq p.type type))
    || has_port name out type ps

-- The ids of the ports of one direction count up from `n`.
pub ids_from : ℕ → Bool → List PortDef → Bool
ids_from n out [] = true
ids_from n out (p ∷ ps) =
    if (if out then p.is_output else not p.is_output)
    then p.id == n && ids_from (n + 1) out ps
    else ids_from n out ps

-- Outputs come before inputs.
pub outputs_first : List PortDef → Bool
outputs_first [] = true
outputs_first (p ∷ ps) = if p.is_output then outputs_first ps else not (has_output ps)
  where
    has_output : List PortDef → Bool
    has_output [] = false
    has_output (q ∷ qs) = q.is_output || has_output qs

-- What the builder relies on for the ports of a node.
pub is_complete : List PortDef → Bool
is_complete ps =
    has_port (codes "set_visible") false port_bool ps
    && (outputs_first ps && (ids_from 0 true ps && (ids_from 0 false ps && leb (length ps) 12)))

all_complete : List WidgetPortInfo → Bool
unfolding is_complete node_ports
all_complete [] = true
all_complete (info ∷ infos) = is_complete (node_ports info) && all_complete infos

complete-find_ports :
    (infos : List WidgetPortInfo) (w : Text)
    → all_complete infos ≡ true
    → is_complete (find_ports infos w) ≡ true
unfolding find_ports all_complete
complete-find_ports [] w h =
    unfold is_complete has_port outputs_first ids_from type_eq text_eq in refl
complete-find_ports (info ∷ infos) w h = ground (arith, complete-find_ports infos w)

all_complete-append :
    (xs ys : List WidgetPortInfo)
    → all_complete xs ≡ true
    → all_complete ys ≡ true
    → all_complete (xs ++ ys) ≡ true
unfolding all_complete
all_complete-append [] ys hx hy = hy
all_complete-append (x ∷ xs) ys hx hy = ground (arith, all_complete-append xs ys)

choosing_complete : all_complete choosing_ports ≡ true
unfolding all_complete is_complete has_port outputs_first ids_from type_eq text_eq node_ports
choosing_complete = refl

editing_complete : all_complete editing_ports ≡ true
unfolding all_complete is_complete has_port outputs_first ids_from type_eq text_eq node_ports
editing_complete = refl

showing_complete : all_complete showing_ports ≡ true
unfolding all_complete is_complete has_port outputs_first ids_from type_eq text_eq node_ports
showing_complete = refl

hosting_complete : all_complete hosting_ports ≡ true
unfolding all_complete is_complete has_port outputs_first ids_from type_eq text_eq node_ports
hosting_complete = refl

port_registry_complete : all_complete port_registry ≡ true
port_registry_complete = all_complete-append choosing_ports _ choosing_complete (
    all_complete-append editing_ports _ editing_complete
      (all_complete-append showing_ports hosting_ports showing_complete hosting_complete))

-- Whatever the widget type, known or not, a node has a Boolean input `set_visible`; its outputs come
-- before its inputs; the ports of either direction are numbered from 0; and they are 12 at most.
pub project_get_widget_ports_complete :
    (widget_type : Text) → is_complete (project_get_widget_ports widget_type) ≡ true
unfolding project_get_widget_ports
project_get_widget_ports_complete w = complete-find_ports port_registry w port_registry_complete
