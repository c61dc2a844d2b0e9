-- ===== src/Configwrite/OneLine.antt =====
-- internal/configwrite/configwrite.go: the edits of lists of one-line strings.
use trollbridge.Prelude.{
  ◌≡◌, inl, inr, Bool, false, not, List, [], ◌∷◌, ◌++◌, any, is_empty, ◌==◌, nat_eq, list_eq, All,
  All-append, Bool-cases, filter_by,
}
use trollbridge.Prelude.Sort.{All-sort_stable}
use trollbridge.Text.{Text, lt_text, trim_space}
use trollbridge.Configwrite.Edit.{insert_sorted, remove}
use trollbridge.Configwrite.Outcomes.{IsOneLine}

module _ {ℓ} (P : Text → Type ℓ) where
  All-filter_by : (p : Text → Bool) (es : List Text) → All P es → All P (filter_by p es)
  All-filter_by p [] a = tt
  All-filter_by p (e ∷ es) (h, a) = elim (Bool-cases (p e)) [
    | inl keep ↦ rw keep (h, All-filter_by p es a)
    | inr drop ↦ rw drop (All-filter_by p es a)
  ]

  All-insert_sorted :
      (pattern : Text) (es : List Text)
      → P (trim_space pattern)
      → All P es
      → All P (insert_sorted pattern es)
  unfolding insert_sorted
  All-insert_sorted pattern es h a = elim (Bool-cases (is_empty (trim_space pattern))) [
    | inl blank ↦ rw blank a
    | inr text ↦ elim (Bool-cases (any (λ e. e == trim_space pattern) es)) [
      | inl there ↦ rw (text, there) a
      | inr new ↦
          rw (text, new)
            (All-sort_stable lt_text P (es ++ trim_space pattern ∷ [])
              (All-append P es (trim_space pattern ∷ []) a (h, tt)))
    ]
  ]

-- Reading the entries of a rewritten list where they are of one line.
pub IsOneLine-insert :
    (pattern : Text) (es : List Text)
    → any (λ c. c == 10) (trim_space pattern) ≡ false
    → IsOneLine es
    → IsOneLine (insert_sorted pattern es)
IsOneLine-insert pattern es h a =
    All-insert_sorted (λ e. any (λ c. c == 10) e ≡ false) pattern es h a

pub IsOneLine-remove :
    (pattern : Text) (es : List Text) → IsOneLine es → IsOneLine (remove pattern es)
unfolding remove
IsOneLine-remove pattern es a =
    All-filter_by (λ e. any (λ c. c == 10) e ≡ false) (λ e. not (e == trim_space pattern)) es a
