-- ===== src/Project/Reload.antt =====
-- src/builder/project.c: a project that was saved and is loaded again.
use filly.Prelude.{some, map, Text, All}
use filly.Prelude.Int.{pos}
use filly.CJson.{CJson}
use filly.Document.{ConnectionEdge, GraphNode, CanvasItem, KeymapEntry, BuilderProject}
use filly.Project.Save
use filly.Project.Save.{tui_json, or_empty}
use filly.Project.Load.{next_id}
use filly.Project.Reading.{IsInt}
use filly.Project.Parts.{IsIntItem, IsIntNode, IsIntEdge, IsIntKeymap, IsIntTui, undescribed_ports}

-- The numbers of a project are `int`s of 32 bits.
pub record IsIntProject {J : Type 0} (p : BuilderProject J) : Type 0 where
  pub filly_version : IsInt (pos p.filly_version)
  pub root_width : IsInt p.root_width
  pub root_height : IsInt p.root_height
  pub items : All (λ (i : CanvasItem J). IsIntItem i) p.items
  pub nodes : All (λ (n : GraphNode). IsIntNode n) p.nodes
  pub edges : All (λ (e : ConnectionEdge). IsIntEdge e) p.edges
  pub keymaps : All (λ (k : KeymapEntry). IsIntKeymap k) p.keymaps
  pub tui : IsIntTui p.tui

-- What is read back of a project: the path is the file's, the next id is past those of the items, an
-- author or a description that was null is empty, and the ports have lost their descriptions.
abbrev pub reloaded : {J : Type 0} → Text → BuilderProject J → BuilderProject J
reloaded path p = record p {
  file_path = some path;
  next_item_id = next_id p.items;
  nodes = map undescribed_ports p.nodes;
  author = some (or_empty p.author);
  description = some (or_empty p.description);
}
