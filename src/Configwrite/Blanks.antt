-- ===== src/Configwrite/Blanks.antt =====
-- internal/configwrite/configwrite.go: captureBlankLines and reinsertBlankLines, by which a rewritten
-- file gets back the blank lines that the encoder drops.
use trollbridge.Prelude.{
  ℕ, zero, suc, ◌≡◌, refl, Bool, not, ◌&&◌, ◌||◌, List, [], ◌∷◌, ◌++◌, arith, ltb, ◌==◌, nat_eq,
  list_eq, if◌then◌else◌, is_empty, filter_by,
}
use trollbridge.Text.{Text, trim_space, split_byte}

pub record BlankAnchor : Type 0 where
  pub line : Text
  pub blank_before : ℕ

abbrev pub is_blank_line : Text → Bool
is_blank_line line = is_empty (trim_space line)

-- strings.TrimRight of spaces and tabs
unfoldable pub trim_right_blanks : Text → Text
trim_right_blanks [] = []
trim_right_blanks (c ∷ s) =
    let rest = trim_right_blanks s in if is_empty rest && (c == 32 || c == 9) then [] else c ∷ rest

unfoldable pub anchors_from : ℕ → List Text → List BlankAnchor
anchors_from run [] = []
anchors_from run (line ∷ lines) =
    let longer = anchors_from (suc run) lines in
    let rest = anchors_from 0 lines in
    if is_blank_line line
    then longer
    else if ltb 0 run
    then record { line = trim_right_blanks line; blank_before = run } ∷ rest
    else rest

unfoldable pub capture_blank_lines : Text → List BlankAnchor
capture_blank_lines src = anchors_from 0 (split_byte 10 src)

abbrev pub blank_lines : ℕ → List Text
blank_lines zero = []
blank_lines (suc n) = [] ∷ blank_lines n

unfoldable pub insert_blanks : List BlankAnchor → List Text → List Text
insert_blanks anchors [] = []
insert_blanks [] (line ∷ lines) = line ∷ insert_blanks [] lines
insert_blanks (a ∷ anchors) (line ∷ lines) =
    let matched = blank_lines a.blank_before ++ line ∷ insert_blanks anchors lines in
    let other = line ∷ insert_blanks (a ∷ anchors) lines in
    if trim_right_blanks line == a.line then matched else other

unfoldable pub join_lines : List Text → Text
join_lines [] = []
join_lines (l ∷ []) = l
join_lines (l ∷ k ∷ ls) = l ++ 10 ∷ join_lines (k ∷ ls)

unfoldable pub reinsert_blank_lines : Text → List BlankAnchor → Text
reinsert_blank_lines encoded [] = encoded
reinsert_blank_lines encoded (a ∷ anchors) =
    join_lines (insert_blanks (a ∷ anchors) (split_byte 10 encoded))

-- The lines that are not blank.
abbrev pub content_lines : List Text → List Text
content_lines ls = filter_by (λ l. not (is_blank_line l)) ls

content_lines-blank_lines :
    (n : ℕ) (ls : List Text) → content_lines (blank_lines n ++ ls) ≡ content_lines ls
unfolding trim_space
content_lines-blank_lines zero ls = refl
content_lines-blank_lines (suc n) ls = content_lines-blank_lines n ls

-- Blank lines are all that is added: the lines with content come out as they went in, in their order.
pub content_lines-insert_blanks :
    (anchors : List BlankAnchor) (ls : List Text)
    → content_lines (insert_blanks anchors ls) ≡ content_lines ls
unfolding insert_blanks
content_lines-insert_blanks [] [] = refl
content_lines-insert_blanks (a ∷ anchors) [] = refl
content_lines-insert_blanks [] (l ∷ ls) = ground (arith, content_lines-insert_blanks [] ls)
content_lines-insert_blanks (a ∷ anchors) (l ∷ ls) = ground (
  arith,
  content_lines-blank_lines a.blank_before (l ∷ insert_blanks anchors ls),
  content_lines-insert_blanks anchors ls,
  content_lines-insert_blanks (a ∷ anchors) ls,
)
