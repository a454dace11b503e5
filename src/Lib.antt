-- ===== src/Lib.antt =====
-- Verification of FILLY, a C toolkit for user interfaces: a session shows one widget on a backend,
-- feeds it events and returns its response; a builder composes such interfaces from a canvas, a graph
-- of connections and scripts.
--
-- Parts, with the files that they model:
--   Store         src/core/store.c: keys, values and the descriptors told of a change.
--   Undo          src/core/undo.c: done and undone actions over an abstract document.
--   Arena         src/core/arena.c: the memory of a frame, with malloc and realloc as parameters.
--   MsgPack       src/protocol/msgpack.c: writer and reader of the wire format.
--   RenderTree    src/core/render.c and session.c: tab stops, hit test, and what a frame changes.
--   Session       src/core/session.c: the keymap, what a key event becomes, pastes, and the loop of
--                 session_run.
--   Registry      src/core/widget.c: the factories of widgets and plugins.
--   Recorder      src/core/recorder.c: recording, replay, and the file of a recording.
--   Schema        src/protocol/schema.c: the validation of a message.
--   Widgets       src/core/widgets: the handlers of menu, radio group, checklist, slider, table and
--                 calendar, the input field, the filter, tabs, the terminal emulator, and the text
--                 editor with its files.
--   Layout        src/core/layout.c: anchors, clipping, size limits, grids and flex boxes.
--   Fil           src/script/fil.c: the lexer of the scripting language, keymap blocks and animations.
--   CJson         the calls of src/cJSON.c that the code makes, as an interface with its laws.
--   Ports         src/builder/project.c: the table of ports of each widget type.
--   Document      src/builder/project.h: the document of the builder.
--   Project       src/builder/project.c: its operations, and saving and loading it through CJson.
--   Validator     src/builder/validator.c: the checks of a project.
--   Graph         src/builder/connection_graph.c: wires, deletion and the editor of edges.
--   Prelude       lists, texts, integers and tests that the parts share.
--   Tests         the theorems at concrete inputs.
--
-- The session runs over the interface of a widget, which Widgets.Menu and Widgets.Tabs fill: it passes
-- events to the handler, keeps some for itself, and draws what is dirty; Graph and Validator
-- work on a Project, whose nodes take their ports from Ports; a script's key bindings go from
-- src/script/fil.c to Session.
--
-- A C function is a function with the same name, from the old state to the new one and the returned
-- value; a struct is a record; an array with its count is a list; a pointer that may be null is an
-- Option; a string is the list of its bytes. An access that C leaves undefined is a result of its own
-- (`fault`, `crash`, or `none` where the comment says so).
--
-- Bounds: `size_t` wraps at 2 ^ 64 in Arena, MessagePack works on bytes; elsewhere an `int` is a number
-- without a bound. The doubling loop of Arena has 63 rounds, enough for sizes up to 2 ^ 61; the
-- decimal printer has as many rounds as the number, which has fewer digits; the enumerations have one
-- round more than there are entries.
--
-- A lexer call per character and one more is enough to lex a script, and a round of the loop that reads
-- a file takes a byte at least, so that the length of the file is fuel enough. A number that is saved
-- is an `int` of 32 bits, as the hypotheses of the reloading theorem say. The size of a schema is fuel
-- enough for a validation (Schema.Enough), as each step goes into a smaller part of it.
--
-- Not modelled: freeing memory, rendering, floating-point geometry and sockets; files are a function
-- from paths to their bytes. cJSON is a parameter where a part calls it, and so are the regular
-- expressions of the input field and the pseudo-terminal of the terminal emulator. The backends, the
-- daemon, the placing of nested nodes, themes, animations, time, the expressions of scripts and the
-- widgets that mostly render are left out.
pub mod Prelude
pub mod Ports
pub mod CJson
pub mod Document
pub mod Project
pub mod RenderTree
pub mod Layout
pub mod Recorder
pub mod Session
pub mod Registry
pub mod Validator
pub mod Graph
pub mod Fil
pub mod Store
pub mod Undo
pub mod MsgPack
pub mod Arena
pub mod Widgets
pub mod Tests
pub mod Schema
