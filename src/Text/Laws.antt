-- ===== src/Text/Laws.antt =====
-- Case mapping and trimming are idempotent, and do not disturb one another; the order of texts.
use trollbridge.Prelude.{
  ℕ, ◌≡◌, refl, ap, ◌∙◌, ◌⊎◌, inl, inr, true, false, [], ◌∷◌, map, arith, is_empty, Bool-cases,
}
use trollbridge.Text.{
  Text, lower, upper, to_lower, to_upper, is_space, trim_left, trim_right, trim_space, lt_text,
}

lower_idem : (c : ℕ) → lower (lower c) ≡ lower c
unfolding lower
lower_idem c = ground arith

pub to_lower_idem : (s : Text) → to_lower (to_lower s) ≡ to_lower s
unfolding to_lower
to_lower_idem [] = refl
to_lower_idem (c ∷ s) = cc (lower_idem c, to_lower_idem s)

upper_idem : (c : ℕ) → upper (upper c) ≡ upper c
unfolding upper
upper_idem c = ground arith

to_upper_idem : (s : Text) → to_upper (to_upper s) ≡ to_upper s
unfolding to_upper
to_upper_idem [] = refl
to_upper_idem (c ∷ s) = cc (upper_idem c, to_upper_idem s)

is_space-lower : (c : ℕ) → is_space (lower c) ≡ is_space c
unfolding is_space lower
is_space-lower c = ground arith

is_space-upper : (c : ℕ) → is_space (upper c) ≡ is_space c
unfolding is_space upper
is_space-upper c = ground arith

-- A map of bytes that keeps white space goes through trimming.
module _ (f : ℕ → ℕ) (keeps : (c : ℕ) → is_space (f c) ≡ is_space c) where
  trim_left-map : (s : Text) → trim_left (map f s) ≡ map f (trim_left s)
  unfolding trim_left
  trim_left-map [] = refl
  trim_left-map (c ∷ s) = ground (arith, keeps c, trim_left-map s)

  is_empty-map : (s : Text) → is_empty (map f s) ≡ is_empty s
  is_empty-map [] = refl
  is_empty-map (c ∷ s) = refl

  trim_right-map : (s : Text) → trim_right (map f s) ≡ map f (trim_right s)
  unfolding trim_right
  trim_right-map [] = refl
  trim_right-map (c ∷ s) = ground (arith, keeps c, trim_right-map s, is_empty-map (trim_right s))

  trim_space-map : (s : Text) → trim_space (map f s) ≡ map f (trim_space s)
  unfolding trim_space
  trim_space-map s = rw (trim_left-map s, trim_right-map (trim_left s))

trim_right_idem : (s : Text) → trim_right (trim_right s) ≡ trim_right s
unfolding trim_right
trim_right_idem [] = refl
trim_right_idem (c ∷ s) = ground (arith, trim_right_idem s)

-- What is left of trimming on the left begins with no white space.
trim_left_cases :
    (s : Text)
    → (trim_left s ≡ []) ⊎ ((c : ℕ) × (r : Text) × (trim_left s ≡ c ∷ r) × (is_space c ≡ false))
unfolding trim_left
trim_left_cases [] = inl refl
trim_left_cases (c ∷ s) = elim (Bool-cases (is_space c)) [
  | inl e ↦ rw e (trim_left_cases s)
  | inr e ↦ rw e (inr (c, s, refl, e))
]

trim_left-trim_right :
    (c : ℕ) (r : Text) → is_space c ≡ false → trim_left (trim_right (c ∷ r)) ≡ trim_right (c ∷ r)
unfolding trim_left trim_right
trim_left-trim_right c r e = ground arith

pub trim_space_idem : (s : Text) → trim_space (trim_space s) ≡ trim_space s
unfolding trim_space
trim_space_idem s = elim (trim_left_cases s) [
  | inl e ↦ rw e (unfold trim_left trim_right in refl)
  | inr (c, r, e, h) ↦ rw (e, trim_left-trim_right c r h) (trim_right_idem (c ∷ r))
]

-- Normalising twice is normalising once.
pub lower-trim_idem :
    (s : Text) → to_lower (trim_space (to_lower (trim_space s))) ≡ to_lower (trim_space s)
lower-trim_idem s =
    ap to_lower (trim-lower (trim_space s) ∙ ap to_lower (trim_space_idem s))
    ∙ to_lower_idem (trim_space s)
  where
    trim-lower : (t : Text) → trim_space (to_lower t) ≡ to_lower (trim_space t)
    trim-lower = unfold to_lower in trim_space-map lower is_space-lower

pub upper-trim_idem :
    (s : Text) → to_upper (trim_space (to_upper (trim_space s))) ≡ to_upper (trim_space s)
upper-trim_idem s =
    ap to_upper (trim-upper (trim_space s) ∙ ap to_upper (trim_space_idem s))
    ∙ to_upper_idem (trim_space s)
  where
    trim-upper : (t : Text) → trim_space (to_upper t) ≡ to_upper (trim_space t)
    trim-upper = unfold to_upper in trim_space-map upper is_space-upper

pub lt_text-asym : (s t : Text) → lt_text s t ≡ true → lt_text t s ≡ false
unfolding lt_text
lt_text-asym s [] h = ground (arith, h)
lt_text-asym [] (d ∷ t) h = refl
lt_text-asym (c ∷ s) (d ∷ t) h = ground (arith, h, lt_text-asym s t)

-- Of two texts one is before the other, unless they are the same.
pub lt_text-total : (s t : Text) → lt_text s t ≡ false → lt_text t s ≡ false → s ≡ t
unfolding lt_text
lt_text-total [] [] h k = refl
lt_text-total [] (d ∷ t) h k = ground (arith, h)
lt_text-total (c ∷ s) [] h k = ground (arith, k)
lt_text-total (c ∷ s) (d ∷ t) h k = ground (arith, h, k, lt_text-total s t)

pub lt_text_trans : (s t u : Text) → lt_text t s ≡ false → lt_text u t ≡ false → lt_text u s ≡ false
unfolding lt_text
lt_text_trans [] t [] h k = refl
lt_text_trans [] [] (e ∷ u) h k = refl
lt_text_trans [] (d ∷ t) (e ∷ u) h k = refl
lt_text_trans (c ∷ s) [] u h k = ground (arith, h)
lt_text_trans (c ∷ s) (d ∷ t) [] h k = ground (arith, k)
lt_text_trans (c ∷ s) (d ∷ t) (e ∷ u) h k = ground (arith, h, k, lt_text_trans s t u)
