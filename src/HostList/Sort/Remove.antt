-- ===== src/HostList/Sort/Remove.antt =====
-- Which lines RemoveMatching takes out.
use trollbridge.Prelude.{
  ◌≡◌, ◌∙◌, sym, refl, Bool, false, not, ◌&&◌, List, [], ◌∷◌, some, none, arith, is_empty,
  filter_by, Bool-cases, inl, inr, any, ◌==◌, nat_eq, list_eq, if◌then◌else◌,
}
use trollbridge.Text.{Text, codes, to_lower, trim_space, has_prefix, cut}
use trollbridge.Text.Laws.{trim_space_idem}
use trollbridge.HostList.Sort.{normalize_pattern, without_comment, remove_matching}
use trollbridge.HostList.Sort.Rewrite.{starts_comment}

-- What a reader sees before the first " #", or the whole text.
abbrev pub before_mark : Text → Text
before_mark [] = []
before_mark (c ∷ s) = if has_prefix (c ∷ s) (codes " #") then [] else c ∷ before_mark s

-- The line is no comment, and what it has in front of its inline comment is the pattern, but for case
-- and white space at the ends.
abbrev pub names : Text → Text → Bool
names pattern ln =
    not (starts_comment ln)
    && to_lower (trim_space (before_mark (trim_space ln))) == to_lower (trim_space pattern)

cut-before_mark :
    (s : Text) → before_mark s ≡ (elim (cut s (codes " #")) [ none ↦ s | some r ↦ r.0 ])
unfolding cut has_prefix
cut-before_mark [] = refl
cut-before_mark (c ∷ s) = ground (arith, cut-before_mark s)

without_comment-before_mark :
    (s : Text) → without_comment (trim_space s) ≡ trim_space (before_mark (trim_space s))
unfolding without_comment
without_comment-before_mark s = ground (arith, cut-before_mark (trim_space s), trim_space_idem s)

nothing_left : to_lower (trim_space []) ≡ []
unfolding to_lower trim_space
nothing_left = refl

normalize_pattern-names :
    (pattern ln : Text)
    → is_empty (to_lower (trim_space pattern)) ≡ false
    → (normalize_pattern ln == to_lower (trim_space pattern)) ≡ names pattern ln
unfolding normalize_pattern
normalize_pattern-names pattern ln h = elim (Bool-cases (is_empty (trim_space ln))) [
  | inl e ↦ ground (arith, h, e, nothing_left)
  | inr e ↦ ground (arith, h, e, without_comment-before_mark ln)
]

filter_by-names :
    (pattern : Text) (lines : List Text)
    → is_empty (to_lower (trim_space pattern)) ≡ false
    → filter_by (λ ln. not (normalize_pattern ln == to_lower (trim_space pattern))) lines
      ≡ filter_by (λ ln. not (names pattern ln)) lines
filter_by-names pattern [] h = refl
filter_by-names pattern (ln ∷ lines) h =
    rw (normalize_pattern-names pattern ln h, filter_by-names pattern lines h) refl

any-names :
    (pattern : Text) (lines : List Text)
    → is_empty (to_lower (trim_space pattern)) ≡ false
    → any (λ ln. normalize_pattern ln == to_lower (trim_space pattern)) lines
      ≡ any (names pattern) lines
any-names pattern [] h = refl
any-names pattern (ln ∷ lines) h =
    rw (normalize_pattern-names pattern ln h, any-names pattern lines h) refl

any-filter : (p : Text → Bool) (xs : List Text) → any p (filter_by (λ x. not (p x)) xs) ≡ false
any-filter p [] = refl
any-filter p (x ∷ xs) = ground (arith, any-filter p xs)

filter-none :
    (p : Text → Bool) (xs : List Text) → any p xs ≡ false → filter_by (λ x. not (p x)) xs ≡ xs
filter-none p [] h = refl
filter-none p (x ∷ xs) h = ground (arith, h, filter-none p xs)

-- To remove a pattern that is not blank takes out exactly the lines that are no comments and have the
-- pattern in front of their inline comment, whatever its case, and keeps every other line in place; the
-- answer says whether there was one, and to remove the pattern again changes nothing.
pub remove_matching-removes :
    (lines : List Text) (pattern : Text)
    → is_empty (to_lower (trim_space pattern)) ≡ false
    → let (out, removed) = remove_matching lines pattern in
      (out ≡ filter_by (λ ln. not (names pattern ln)) lines)
      × (removed ≡ any (names pattern) lines)
      × (any (names pattern) out ≡ false)
      × (remove_matching out pattern ≡ (out, false))
unfolding remove_matching
remove_matching-removes lines pattern h =
    let kept = filter_by-names pattern lines h in
    let gone = any-filter (λ ln. normalize_pattern ln == to_lower (trim_space pattern)) lines in
    rw h (
      kept,
      any-names pattern lines h,
      sym (any-names pattern _ h) ∙ gone,
      ground (
        arith,
        gone,
        filter-none (λ ln. normalize_pattern ln == to_lower (trim_space pattern))
            (filter_by (λ ln. not (normalize_pattern ln == to_lower (trim_space pattern))) lines)
            gone,
      ),
    )
