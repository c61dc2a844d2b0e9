-- ===== src/HostList/Sort/Rewrite.antt =====
-- What the rewriting of a list file keeps.
use trollbridge.Prelude.{◌≡◌, Bool, false, not, ◌&&◌, List, [], ◌∷◌, is_empty}
use trollbridge.Text.{Text, codes, trim_space, has_prefix}

-- The line's first character that is no white space is a `#`.
abbrev pub starts_comment : Text → Bool
starts_comment line = has_prefix (trim_space line) (codes "#")

-- The line has text, and is not just a comment.
abbrev pub has_pattern : Text → Bool
has_pattern line =
    not (is_empty (trim_space line)) && not (has_prefix (trim_space line) (codes "#"))

-- The lines are none, or do not begin with a comment.
abbrev pub StartsBody : List Text → Type 0
StartsBody [] = Unit
StartsBody (line ∷ lines) = starts_comment line ≡ false
