-- ===== src/Ports/Types.antt =====
-- src/builder/project.h: the ports of a node.
use filly.Prelude.{ℕ, Bool, Option, some, List, Text, codes, String}

pub data PortDataType : Type 0 where
  port_trigger port_string port_bool port_int : PortDataType

pub record PortDef : Type 0 where
  pub id : ℕ
  pub name : Text
  pub type : PortDataType
  pub is_output : Bool
  -- Null where a project was loaded.
  pub description : Option Text

-- `WidgetPortInfo` of src/builder/project.c; the two arrays hold what their initialisers list.
pub record WidgetPortInfo : Type 0 where
  pub widget_type : Text
  pub outputs : List PortDef
  pub output_count : ℕ
  pub inputs : List PortDef
  pub input_count : ℕ

-- `(PortDef){id, name, type, is_output, description}`
abbrev pub port : ℕ → String → PortDataType → Bool → String → PortDef
port id name type is_output description = record {
  id = id;
  name = codes name;
  type = type;
  is_output = is_output;
  description = some (codes description);
}

-- One initialiser of the table.
abbrev pub entry : String → List PortDef → ℕ → List PortDef → ℕ → WidgetPortInfo
entry widget_type outputs output_count inputs input_count = record {
  widget_type = codes widget_type;
  outputs = outputs;
  output_count = output_count;
  inputs = inputs;
  input_count = input_count;
}
