-- ===== src/Text/Decimal.antt =====
-- strconv.Itoa, and that it gives different texts to different integers.
use trollbridge.Prelude.{
  ℕ, zero, suc, ◌+◌, ◌-◌, ◌*◌, ◌/◌, ◌%◌, ◌≤◌, ◌<◌, ◌≡◌, refl, ap, sym, [], ◌∷◌, ◌++◌, arith, ltb,
  if◌then◌else◌, All, All-append, Bool-cases, inl, inr,
}
use mathlib.Core.Path.{subst}
use mathlib.Core.List.{tail}
use trollbridge.Prelude.Int.{ℤ, pos, negsuc}
use trollbridge.Text.{Text}

-- The decimal digits, the last one split off in each round; the fuel is above the number.
digits : ℕ → ℕ → Text
digits zero n = []
digits (suc f) n =
    let rest = digits f (n / 10) in
    if ltb n 10 then (n + b'0') ∷ [] else rest ++ (n % 10 + b'0') ∷ []

unfoldable pub itoa : ℤ → Text
unfolding digits
itoa (pos n) = digits (suc n) n
itoa (negsuc n) = b'-' ∷ digits (suc (suc n)) (suc n)

value : ℕ → Text → ℕ
value acc [] = acc
value acc (c ∷ s) = value (acc * 10 + (c - b'0')) s

value-append : (acc : ℕ) (s t : Text) → value acc (s ++ t) ≡ value (value acc s) t
unfolding value
value-append acc [] t = refl
value-append acc (c ∷ s) t = value-append (acc * 10 + (c - b'0')) s t

value-digits : (f n : ℕ) → n < f → value 0 (digits f n) ≡ n
unfolding digits value
value-digits zero n h = elim h [ ]
value-digits (suc f) n h = elim (Bool-cases (ltb n 10)) [
  | inl e ↦ rw e (omega arith)
  | inr e ↦
      rw (e, value-append 0 (digits f (n / 10)) ((n % 10 + b'0') ∷ []))
        (let lt : n / 10 < f = ground arith in
          let ih = value-digits f (n / 10) lt in omega (arith, ih))
]

-- Every byte is at least the one given: digits, or digits and the minus sign.
abbrev pub AtLeast : ℕ → Text → Type 0
AtLeast b = All (λ c. b ≤ c)

digits-AtLeast : (f n : ℕ) → AtLeast b'0' (digits f n)
unfolding digits
digits-AtLeast zero n = tt
digits-AtLeast (suc f) n = elim (Bool-cases (ltb n 10)) [
  | inl e ↦ rw e (omega arith, tt)
  | inr e ↦ rw e (All-append _ (digits f (n / 10)) _ (digits-AtLeast f (n / 10)) (omega arith, tt))
]

AtLeast-mono : (a b : ℕ) (s : Text) → a ≤ b → AtLeast b s → AtLeast a s
AtLeast-mono a b [] h k = tt
AtLeast-mono a b (c ∷ s) h (k, ks) = (omega arith, AtLeast-mono a b s h ks)

pub itoa-AtLeast : (z : ℤ) → AtLeast b'-' (itoa z)
unfolding itoa
itoa-AtLeast (pos n) =
    AtLeast-mono b'-' b'0' (digits (suc n) n) (omega arith) (digits-AtLeast (suc n) n)
itoa-AtLeast (negsuc n) = (
  omega arith,
  AtLeast-mono b'-' b'0' (digits (suc (suc n)) (suc n)) (omega arith)
      (digits-AtLeast (suc (suc n)) (suc n)),
)

no_minus : (f n : ℕ) (s : Text) → digits f n ≡ b'-' ∷ s → ⊥
no_minus f n s h = let k = subst (AtLeast b'0') h (digits-AtLeast f n) in omega arith

pub itoa-injective : (y z : ℤ) → itoa y ≡ itoa z → y ≡ z
unfolding itoa
itoa-injective (pos m) (pos n) h =
    ground (arith, value-digits (suc m) m, value-digits (suc n) n, ap (value 0) h)
itoa-injective (pos m) (negsuc n) h = absurd (no_minus (suc m) m _ h)
itoa-injective (negsuc m) (pos n) h = absurd (no_minus (suc n) n _ (sym h))
itoa-injective (negsuc m) (negsuc n) h = ground (
  arith,
  value-digits (suc (suc m)) (suc m),
  value-digits (suc (suc n)) (suc n),
  ap (λ (t : Text). value 0 (tail t)) h,
)
