-- ===== src/Widgets/TextEditor/Files.antt =====
-- src/core/widgets/text_editor.c: what Escape answers and Ctrl-S writes, and reading it back.
use filly.Prelude.{
  ℕ, zero, suc, ◌<◌, ◌≤◌, ◌≡◌, ◌≢◌, inl, inr, refl, sym, ap, ◌∙◌, Bool, true, List, [], ◌∷◌, ◌++◌,
  append-nil, append_assoc, Text, length, arith, ◌==◌, Bool-cases, none, some, Option, All,
  length-append, text_eq_refl,
}
use filly.Widgets.Events.{answer, string, esc, press, char}
use filly.Widgets.TextEditor.{
  TextEditorData, text_editor_handle_event, te_key, te_char, te_save, gather, unlines, fgets, chomp,
  read_lines, content_loop, content_lines, text_editor_widget_new, some_line,
}

-- No line holds a line feed.
abbrev pub AreLines : List Text → Type 0
AreLines lines = All (λ (l : Text). All (λ (c : ℕ). c ≢ b'\n') l) lines

pub gather-unlines : (full : Text) (lines : List Text) → gather full lines ≡ full ++ unlines lines
unfolding gather unlines
gather-unlines full [] = sym (append-nil full)
gather-unlines full (l ∷ lines) =
    gather-unlines ((full ++ l) ++ b'\n' ∷ []) lines ∙ simp append_assoc

-- The loop of the constructor at the end of a line.
content_loop-line :
    (line l p : Text)
    → All (λ (c : ℕ). c ≢ b'\n') l
    → content_loop line (l ++ b'\n' ∷ p)
      ≡ ((line ++ l) ∷ (content_loop [] p).0, (content_loop [] p).1)
unfolding content_loop
content_loop-line line [] p h = rw (append-nil line)
content_loop-line line (c ∷ l) p (h, hs) = elim (Bool-cases (c == b'\n')) [
  | inl e ↦ absurd (h (ground arith))
  | inr e ↦ ground (arith, content_loop-line (line ++ c ∷ []) l p hs, append_assoc line (c ∷ []) l)
]

content_loop-unlines :
    (lines : List Text) → AreLines lines → content_loop [] (unlines lines) ≡ (lines, [])
unfolding unlines content_loop
content_loop-unlines [] h = refl
content_loop-unlines (l ∷ lines) (h, hs) =
    content_loop-line [] l (unlines lines) h ∙ rw (content_loop-unlines lines hs)

fgets-line :
    (size : ℕ) (l rest : Text)
    → All (λ (c : ℕ). c ≢ b'\n') l
    → length l < size
    → fgets size (l ++ b'\n' ∷ rest) ≡ (l ++ b'\n' ∷ [], rest)
unfolding fgets
fgets-line zero l rest h k = absurd (omega arith)
fgets-line (suc size) [] rest h k = refl
fgets-line (suc size) (c ∷ l) rest (h, hs) k = elim (Bool-cases (c == b'\n')) [
  | inl e ↦ absurd (h (ground arith))
  | inr e ↦ ground (arith, fgets-line size l rest hs)
]

chomp-line : (l : Text) → chomp (l ++ b'\n' ∷ []) ≡ l
unfolding chomp
chomp-line [] = refl
chomp-line (c ∷ []) = refl
chomp-line (c ∷ (e ∷ l)) = ap (c ∷◌) (chomp-line (e ∷ l))

-- One round of the reading loop.
read_lines_step :
    (fuel : ℕ) (l rest : Text)
    → fgets 4095 (l ++ b'\n' ∷ rest) ≡ (l ++ b'\n' ∷ [], rest)
    → read_lines (suc fuel) (l ++ b'\n' ∷ rest) ≡ l ∷ read_lines fuel rest
unfolding read_lines
read_lines_step fuel [] rest h = rw h (rw (chomp-line []))
read_lines_step fuel (c ∷ l) rest h = rw h (rw (chomp-line (c ∷ l)))

read_lines-unlines :
    (fuel : ℕ) (lines : List Text)
    → AreLines lines
    → All (λ (l : Text). length l < 4095) lines
    → length (unlines lines) ≤ fuel
    → read_lines fuel (unlines lines) ≡ lines
unfolding read_lines unlines
read_lines-unlines zero [] h k e = refl
read_lines-unlines (suc fuel) [] h k e = refl
read_lines-unlines zero (l ∷ lines) h k e =
    absurd (omega (arith, length-append l (b'\n' ∷ unlines lines)))
read_lines-unlines (suc fuel) (l ∷ lines) (h, hs) (k, ks) e =
    read_lines_step fuel l (unlines lines) (fgets-line 4095 l (unlines lines) h k)
    ∙ ap (l ∷◌) (
        read_lines-unlines fuel lines hs ks
          (omega (arith, length-append l (b'\n' ∷ unlines lines))))

some_line-of : (lines : List Text) → 0 < length lines → some_line lines ≡ lines
some_line-of [] h = absurd (omega arith)
some_line-of (l ∷ lines) h = refl

content_lines-unlines :
    (l : Text) (lines : List Text)
    → AreLines (l ∷ lines)
    → content_lines (unlines (l ∷ lines)) ≡ l ∷ lines
unfolding content_lines
content_lines-unlines l lines h = rw (content_loop-unlines (l ∷ lines) h)

opened :
    (files : Text → Option Text) (title : Text) (lines : List Text)
    → AreLines lines
    → 0 < length lines
    → (text_editor_widget_new files title none (some (unlines lines))).lines ≡ lines
unfolding text_editor_widget_new
opened files title [] h k = absurd (omega arith)
opened files title (l ∷ lines) h k = rw (content_lines-unlines l lines h)

reopened :
    (files : Text → Option Text) (title path : Text) (content : Option Text) (lines : List Text)
    → files path ≡ some (unlines lines)
    → AreLines lines
    → All (λ (l : Text). length l < 4095) lines
    → 0 < length lines
    → (text_editor_widget_new files title (some path) content).lines ≡ lines
unfolding text_editor_widget_new
reopened files title path content [] e h short k = absurd (omega arith)
reopened files title path content (l ∷ lines) e h short k =
    ground (arith, read_lines-unlines (length (unlines (l ∷ lines))) (l ∷ lines) h short)

-- What Escape answers is the lines, each with a line feed; opened as the content of a new editor
-- without a file it gives the same lines back, if there is a line and none holds a line feed.
pub escape_reopens :
    (can_write : Text → Bool) (files : Text → Option Text) (d : TextEditorData) (ch : ℕ)
    → AreLines d.lines
    → 0 < length d.lines
    → ((text_editor_handle_event can_write d (press esc ch)).1 ≡ answer (string (unlines d.lines)))
      × ((text_editor_widget_new files d.title none (some (unlines d.lines))).lines ≡ d.lines)
unfolding text_editor_handle_event te_key
escape_reopens can_write files d ch h k =
    (rw (gather-unlines [] d.lines), opened files d.title d.lines h k)

-- After Ctrl-S in an editor whose file can be written, a new editor of that file has the same
-- lines, if there is a line, none holds a line feed, and each is shorter than 4,095 bytes.
pub save_reopens :
    (can_write : Text → Bool) (d : TextEditorData) (path : Text) (content : Option Text)
    → d.file_path ≡ some path
    → can_write path ≡ true
    → AreLines d.lines
    → All (λ (l : Text). length l < 4095) d.lines
    → 0 < length d.lines
    → (text_editor_widget_new
        (text_editor_handle_event can_write d (press char 19)).0.files
        d.title
        (some path)
        content).lines
      ≡ d.lines
unfolding text_editor_handle_event te_key te_char te_save
save_reopens can_write d path content f w h short k =
    reopened (te_save can_write d).files d.title path content d.lines
      (ground (arith, text_eq_refl path)) h short k
