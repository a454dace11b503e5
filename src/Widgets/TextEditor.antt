-- ===== src/Widgets/TextEditor.antt =====
-- src/core/widgets/text_editor.c: the editor's state, its key handler, and where its lines come from.
-- A line is the bytes of a C string. `files` stands for the disk, and `can_write path` says whether
-- `fopen(path, "w")` succeeds.
pub mod Cursor
pub mod Buffer
pub mod Editing
pub mod Moves
pub mod Refines
pub mod Laws
pub mod Files
use filly.Prelude.{
  ℕ, zero, suc, ◌+◌, ◌-◌, ◌<◌, ◌≤◌, ◌≡◌, Bool, true, false, ◌&&◌, ◌||◌, Option, none, some, List,
  [], ◌∷◌, ◌++◌, Text, text_eq, ltb, leb, ◌==◌, if◌then◌else◌, length, get_elem?, set, erase_idx,
  take, drop,
}
use filly.Widgets.Events.{
  KeyCode, Event, EventResult, string, handled, unhandled, fault, answer, on_key, esc, up, down,
  left, right, home, end, pageup, pagedown, delete, enter, backspace, char,
}

-- `TextEditorData`; `line_count` is the length of `lines`.
pub record TextEditorData : Type 0 where
  pub dirty : Bool
  pub title : Text
  pub file_path : Option Text
  pub lines : List Text
  pub row : ℕ
  pub col : ℕ
  pub scroll : ℕ
  pub visible_h : ℕ
  pub files : Text → Option Text

-- `lines[row]` where the row is known to exist.
abbrev pub line_at : List Text → ℕ → Text
line_at lines row = elim (get_elem? lines row) [ none ↦ [] | some l ↦ l ]

-- `memmove` of the lines from `i` on by one place, and a line put into the gap.
abbrev pub insert_idx : List Text → ℕ → Text → List Text
insert_idx lines zero l = l ∷ lines
insert_idx [] (suc i) l = []
insert_idx (m ∷ lines) (suc i) l = m ∷ insert_idx lines i l

abbrev pub some_line : List Text → List Text
some_line [] = [] ∷ []
some_line (l ∷ lines) = l ∷ lines

abbrev clamped_scroll : ℕ → ℕ → ℕ → ℕ
clamped_scroll row scroll visible_h =
    let top = if ltb row scroll then row else scroll in
    if leb (top + visible_h) row then row + 1 - visible_h else top

pub te_clamp_cursor : TextEditorData → TextEditorData
te_clamp_cursor d =
    let lines = some_line d.lines in
    let row = if leb (length lines) d.row then length lines - 1 else d.row in
    let col =
      if ltb (length (line_at lines row)) d.col then length (line_at lines row) else d.col in
    record d {
      lines = lines;
      row = row;
      col = col;
      scroll = clamped_scroll row d.scroll d.visible_h;
    }

-- What `for (…) fprintf(f, "%s\n", lines[i])` writes.
pub unlines : List Text → Text
unlines [] = []
unlines (l ∷ lines) = l ++ b'\n' ∷ unlines lines

pub te_save : (Text → Bool) → TextEditorData → TextEditorData
te_save can_write d = elim d.file_path [
  | none ↦ d
  | some path ↦
      if can_write path
      then record d { files = λ p. if text_eq p path then some (unlines d.lines) else d.files p }
      else d
]

-- The loop of Escape, over what it has gathered.
pub gather : Text → List Text → Text
gather full [] = full
gather full (l ∷ lines) = gather ((full ++ l) ++ b'\n' ∷ []) lines

-- A line is read, or the access is out of bounds.
abbrev with_line :
    TextEditorData → ℕ → (Text → TextEditorData × EventResult) → TextEditorData × EventResult
with_line d row k = elim (get_elem? d.lines row) [ none ↦ (d, fault) | some l ↦ k l ]

-- `lines[row] + col` is inside the string, or at its end.
abbrev at_cursor :
    TextEditorData → (Text → TextEditorData × EventResult) → TextEditorData × EventResult
at_cursor d k = with_line d d.row (λ l. if ltb (length l) d.col then (d, fault) else k l)

abbrev moved : TextEditorData → ℕ → ℕ → TextEditorData × EventResult
moved d row col =
    (record (te_clamp_cursor (record d { row = row; col = col })) { dirty = true }, handled)

pub te_left : TextEditorData → TextEditorData × EventResult
te_left d =
    if ltb 0 d.col
    then moved d d.row (d.col - 1)
    else if ltb 0 d.row
    then with_line d (d.row - 1) (λ l. moved d (d.row - 1) (length l))
    else moved d d.row d.col

pub te_right : TextEditorData → TextEditorData × EventResult
te_right d = with_line d d.row λ l.
    if ltb d.col (length l)
    then moved d d.row (d.col + 1)
    else if ltb (d.row + 1) (length d.lines)
    then moved d (d.row + 1) 0
    else moved d d.row d.col

pub te_delete : TextEditorData → TextEditorData × EventResult
te_delete d = with_line d d.row λ l.
    if ltb d.col (length l)
    then (
      record d { lines = set d.lines d.row (take d.col l ++ drop (d.col + 1) l); dirty = true },
      handled,
    )
    else if ltb (d.row + 1) (length d.lines)
    then with_line d (d.row + 1) (λ next. (
      record d { lines = erase_idx (set d.lines d.row (l ++ next)) (d.row + 1); dirty = true },
      handled,
    ))
    else (d, handled)

pub te_enter : TextEditorData → TextEditorData × EventResult
te_enter d = at_cursor d λ l. (
  record d {
    lines = insert_idx (set d.lines d.row (take d.col l)) (d.row + 1) (drop d.col l);
    row = d.row + 1;
    col = 0;
    dirty = true;
  },
  handled,
)

-- Backspace at the start of a line that is not the first.
pub te_join_above : TextEditorData → TextEditorData × EventResult
te_join_above d = with_line d (d.row - 1) (λ above. with_line d d.row (λ l. (
  record d {
    lines = erase_idx (set d.lines (d.row - 1) (above ++ l)) d.row;
    row = d.row - 1;
    col = length above;
    dirty = true;
  },
  handled,
)))

pub te_erase_left : TextEditorData → TextEditorData × EventResult
te_erase_left d = at_cursor d λ l. (
  record d {
    lines = set d.lines d.row (take (d.col - 1) l ++ drop d.col l);
    col = d.col - 1;
    dirty = true;
  },
  handled,
)

pub te_backspace : TextEditorData → TextEditorData × EventResult
te_backspace d =
    if ltb 0 d.col
    then te_erase_left d
    else if ltb 0 d.row
    then te_join_above d
    else (record d { dirty = true }, handled)

-- Ctrl-D.
pub te_delete_line : TextEditorData → TextEditorData
te_delete_line d =
    if ltb 1 (length d.lines)
    then record d {
      lines = erase_idx d.lines d.row;
      row =
          if leb (length (erase_idx d.lines d.row)) d.row
          then length (erase_idx d.lines d.row) - 1
          else d.row;
      col = 0;
      dirty = true;
    }
    else d

pub te_insert : TextEditorData → ℕ → TextEditorData × EventResult
te_insert d ch = at_cursor d λ l. (
  record d {
    lines = set d.lines d.row (take d.col l ++ ch ∷ drop d.col l);
    col = d.col + 1;
    dirty = true;
  },
  handled,
)

-- `char` is signed: a byte from 128 on is below 32.
abbrev pub printable : ℕ → Bool
printable ch = leb 32 ch && ltb ch 128

pub te_char : (Text → Bool) → TextEditorData → ℕ → TextEditorData × EventResult
te_char can_write d ch =
    if ch == 19
    then (record (te_save can_write d) { dirty = true }, handled)
    else if ch == 4
    then (te_delete_line d, handled)
    else if printable ch || ch == b'\t'
    then te_insert d ch
    else (d, handled)

pub te_key : (Text → Bool) → TextEditorData → KeyCode → ℕ → TextEditorData × EventResult
te_key can_write d esc ch = (d, answer (string (gather [] d.lines)))
te_key can_write d up ch = moved d (if ltb 0 d.row then d.row - 1 else d.row) d.col
te_key can_write d down ch =
    moved d (if ltb (d.row + 1) (length d.lines) then d.row + 1 else d.row) d.col
te_key can_write d left ch = te_left d
te_key can_write d right ch = te_right d
te_key can_write d home ch = (record d { col = 0; dirty = true }, handled)
te_key can_write d end ch =
    with_line d d.row (λ l. (record d { col = length l; dirty = true }, handled))
te_key can_write d pageup ch = moved d (d.row - d.visible_h) d.col
te_key can_write d pagedown ch =
    moved d
      (if leb (length d.lines) (d.row + d.visible_h)
        then length d.lines - 1
        else d.row + d.visible_h)
      d.col
te_key can_write d delete ch = te_delete d
te_key can_write d enter ch = te_enter d
te_key can_write d backspace ch = te_backspace d
te_key can_write d char ch = te_char can_write d ch
te_key can_write d _ ch = (d, unhandled)

pub text_editor_handle_event : (Text → Bool) → TextEditorData → Event → TextEditorData × EventResult
unfolding te_key
text_editor_handle_event can_write d ev = on_key d ev (λ code. te_key can_write d code ev.ch)

-- What `fgets(buf, size + 1, f)` takes from the bytes left of a file, and what it leaves.
pub fgets : ℕ → Text → Text × Text
fgets zero s = ([], s)
fgets (suc size) [] = ([], [])
fgets (suc size) (c ∷ s) = elim (c == b'\n') [
  | true ↦ (c ∷ [], s)
  | false ↦ let (l, rest) = fgets size s in (c ∷ l, rest)
]

-- `if (len > 0 && buf[len-1] == '\n') buf[len-1] = '\0';`
pub chomp : Text → Text
chomp [] = []
chomp (c ∷ []) = if c == b'\n' then [] else c ∷ []
chomp (c ∷ (e ∷ s)) = c ∷ chomp (e ∷ s)

-- `while (fgets(buf, sizeof(buf), f))`; each round takes a byte, so the bytes are fuel enough.
pub read_lines : ℕ → Text → List Text
read_lines zero s = []
read_lines (suc fuel) [] = []
read_lines (suc fuel) (c ∷ s) = let (l, rest) = fgets 4095 (c ∷ s) in chomp l ∷ read_lines fuel rest

-- The loop over `content`: `line` is what stands between `s` and `p`.
pub content_loop : Text → Text → List Text × Text
content_loop line [] = ([], line)
content_loop line (c ∷ p) = elim (c == b'\n') [
  | true ↦ let (lines, rest) = content_loop [] p in (line ∷ lines, rest)
  | false ↦ content_loop (line ++ c ∷ []) p
]

-- `if (p > s || d->line_count == 0)`
last_line : List Text → Text → List Text
last_line [] rest = rest ∷ []
last_line (l ∷ lines) [] = l ∷ lines
last_line (l ∷ lines) (c ∷ rest) = (l ∷ lines) ++ ((c ∷ rest) ∷ [])

pub content_lines : Text → List Text
unfolding last_line
content_lines content = let (lines, rest) = content_loop [] content in last_line lines rest

-- `fopen(file_path, "r")` fails where there is no file.
file_lines : (Text → Option Text) → Option Text → List Text
file_lines files none = []
file_lines files (some path) = elim (files path) [ none ↦ [] | some s ↦ read_lines (length s) s ]

or_content : List Text → Option Text → List Text
or_content [] none = []
or_content [] (some content) = content_lines content
or_content (l ∷ lines) content = l ∷ lines

pub text_editor_widget_new :
    (Text → Option Text) → Text → Option Text → Option Text → TextEditorData
unfolding file_lines or_content
text_editor_widget_new files title file_path content =
    let lines = some_line (or_content (file_lines files file_path) content) in
    record {
      dirty = true;
      title = title;
      file_path = file_path;
      lines = lines;
      row = 0;
      col = length (line_at lines 0);
      scroll = 0;
      visible_h = 20;
      files = files;
    }

-- How `text_editor_render` sets the height, of an area that is `h` cells high: `nine_tenths h` stands
-- for `(int)(h * 0.9f)`.
pub set_height : (ℕ → ℕ) → ℕ → TextEditorData → TextEditorData
set_height nine_tenths h d =
    te_clamp_cursor
      (record d { visible_h = if ltb (nine_tenths h - 4) 1 then 1 else nine_tenths h - 4 })
