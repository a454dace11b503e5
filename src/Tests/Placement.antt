-- ===== src/Tests/Placement.antt =====
-- src/core/layout.c and the lexer of src/script/fil.c at concrete inputs.
use filly.Prelude.{
  ◌+◌, ◌≤◌, ◌<◌, ◌≡◌, ◌⊎◌, refl, true, false, none, some, List, [], ◌∷◌, codes, length, get_elem?,
  arith, text_eq,
}
use filly.Prelude.Int.{pos, negsuc, ◌+ℤ◌, ◌-ℤ◌, ◌*ℤ◌, ◌≤ℤ◌}
use filly.Layout.{
  Box, anchor_absolute, overflow_clip, rect_new, layout_grid, layout_flex, flex_is_row,
  clamp_overflow, place_cells, place_cell, apply_min_max, at_least, at_most,
}
use filly.Layout.Division.{quot}
use filly.Layout.Grid.{Apart, Inside, layout_grid_places}
use filly.Layout.Lines.{Chained, layout_flex_follows}
use filly.Layout.Clip.{clamp_overflow_clips}
use filly.Fil.Lexer.{Token, Parser, make_token, tok_eof, next_token}
use filly.Fil.Tokens.{tokens, has_end, next_token_advances, tokens_reach_end}
use filly.Fil.Lexemes.{Lexeme, quoted, numeral, word, opening}

abbrev cell_box : Box
cell_box = record {
  rect = rect_new (pos 0) (pos 0) (pos 6) (pos 2);
  target_rect = none;
  anchor = anchor_absolute;
  anchor_dx = pos 0;
  anchor_dy = pos 0;
  overflow = overflow_clip;
  content = none;
  font_size = pos 14;
  min_width = pos 0;
  min_height = pos 0;
  max_width = pos 0;
  max_height = pos 0;
}

abbrev three_boxes : List Box
three_boxes = cell_box ∷ cell_box ∷ cell_box ∷ []

abbrev first_cell : Box
first_cell = record cell_box { rect = rect_new (negsuc 2) (pos 5) (pos 9) (pos 1) }

abbrev third_cell : Box
third_cell = record cell_box { rect = rect_new (negsuc 2) (pos 7) (pos 9) (pos 1) }

first_cell_lem :
    get_elem? (layout_grid (pos 2) three_boxes (negsuc 2) (pos 5) (pos 20) false (pos 0, pos 0)).0 0
    ≡ some first_cell
unfolding layout_grid place_cells place_cell apply_min_max quot ◌+ℤ◌ ◌-ℤ◌ ◌*ℤ◌ at_most at_least
first_cell_lem = refl

third_cell_lem :
    get_elem? (layout_grid (pos 2) three_boxes (negsuc 2) (pos 5) (pos 20) false (pos 0, pos 0)).0 2
    ≡ some third_cell
unfolding layout_grid place_cells place_cell apply_min_max quot ◌+ℤ◌ ◌-ℤ◌ ◌*ℤ◌ at_most at_least
third_cell_lem = refl

layout_grid_places_example :
    Apart 1 first_cell.rect third_cell.rect
    × Inside first_cell.rect
        (negsuc 2)
        (pos 5)
        (layout_grid (pos 2) three_boxes (negsuc 2) (pos 5) (pos 20) false (pos 0, pos 0)).1
        (layout_grid (pos 2) three_boxes (negsuc 2) (pos 5) (pos 20) false (pos 0, pos 0)).2
layout_grid_places_example =
    layout_grid_places (pos 2) three_boxes (negsuc 2) (pos 5) 20 false (pos 0, pos 0) 0 2 first_cell
      third_cell (omega arith) (omega arith) (omega arith) first_cell_lem third_cell_lem

layout_flex_follows_example :
    Chained true 1
      (pos 4)
      (pos 4)
      (layout_flex
        (some (codes "row"))
        none
        three_boxes
        (pos 4)
        (pos 9)
        (pos 40)
        (pos 5)
        false
        (pos 0)
        (pos 0, pos 0)).0
unfolding flex_is_row text_eq
layout_flex_follows_example =
    layout_flex_follows (some (codes "row")) none three_boxes (pos 4) (pos 9) (pos 40) (pos 5) false
      (pos 0) (pos 0, pos 0) (λ e. cc) (omega arith)

clamp_overflow_clips_example :
    (pos 1 ≤ℤ (clamp_overflow cell_box (rect_new (pos 1) (pos 0) (pos 3) (pos 1))).rect.x)
    × (pos 0 ≤ℤ (clamp_overflow cell_box (rect_new (pos 1) (pos 0) (pos 3) (pos 1))).rect.y)
    × ((clamp_overflow cell_box (rect_new (pos 1) (pos 0) (pos 3) (pos 1))).rect.x
          +ℤ (clamp_overflow cell_box (rect_new (pos 1) (pos 0) (pos 3) (pos 1))).rect.w
        ≤ℤ pos 1 +ℤ pos 3)
    × ((clamp_overflow cell_box (rect_new (pos 1) (pos 0) (pos 3) (pos 1))).rect.y
          +ℤ (clamp_overflow cell_box (rect_new (pos 1) (pos 0) (pos 3) (pos 1))).rect.h
        ≤ℤ pos 0 +ℤ pos 1)
clamp_overflow_clips_example =
    clamp_overflow_clips cell_box (rect_new (pos 1) (pos 0) (pos 3) (pos 1)) refl

abbrev when_script : List Lexeme
when_script = word b'w' (codes "hen") ∷ numeral 42 ∷ quoted (codes "a b") ∷ opening ∷ []

abbrev no_token : Token
no_token = make_token tok_eof none (some 0)

abbrev at_three : Parser
at_three = record { src = codes "set x to 3"; pos = 3; current = no_token }

next_token_advances_run :
    ((next_token at_three).src ≡ at_three.src)
    × ((next_token at_three).pos ≤ length at_three.src)
    × ((at_three.pos < (next_token at_three).pos)
        ⊎ ((at_three.pos ≡ length at_three.src) × ((next_token at_three).current.type ≡ tok_eof)))
next_token_advances_run = next_token_advances at_three (omega arith)

tokens_reach_end_example :
    has_end (
      tokens
        (length (codes "set x to ;") + 1)
        (record { src = codes "set x to ;"; pos = 0; current = no_token }))
    ≡ true
tokens_reach_end_example = tokens_reach_end (codes "set x to ;") no_token
