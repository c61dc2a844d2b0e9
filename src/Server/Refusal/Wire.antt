-- ===== src/Server/Refusal/Wire.antt =====
-- What a refusal says on the wire, and what it keeps to itself.
use trollbridge.Prelude.{
  ℕ, ◌≡◌, ◌⊎◌, ◌≤◌, ◌<◌, ◌∙◌, refl, ap, Bool, true, false, ◌||◌, [], ◌∷◌, ◌++◌, map, Option, none,
  some, arith, ltb, leb, ◌==◌, nat_eq, list_eq, if◌then◌else◌, is_empty, All, Bool-cases, inl, inr,
  eq_iff,
}
use mathlib.Core.Option
use trollbridge.Text.{Text, codes}
use trollbridge.Types.{
  Effect, Decision, effect_deny, effect_ask_user, effect_ask_llm, effect_signaled, effect_timed_out,
  effect_resolved_deny,
}
use trollbridge.Server.Gate.{status_from_effect, is_forwarded}
use trollbridge.Server.Refusal.{
  Codec, categorical_effect, sf_escape, sf_quoted_string, deny_headers, deny_response,
  proxy_status_token,
}

-- What a header value of the escaping's inverse reads back: the text up to the closing quote.
unfoldable pub sf_unquote : Text → Option Text
sf_unquote [] = none
sf_unquote (c ∷ []) = if c == b'"' then some [] else none
sf_unquote (c ∷ d ∷ s) =
    let rest = sf_unquote (d ∷ s) in
    let after = sf_unquote s in
    if c == b'\\'
    then Option.map (◌∷◌ d) after
    else if c == b'"'
    then none
    else Option.map (◌∷◌ c) rest

-- Bytes outside visible ASCII are replaced.
unfoldable pub visible : ℕ → ℕ
visible c = if ltb c 0x20 || leb 0x7f c then b'?' else c

unquote-plain :
    (c : ℕ) (s t : Text)
    → (c == b'\\' || c == b'"') ≡ false
    → sf_unquote (s ++ b'"' ∷ []) ≡ some t
    → sf_unquote (c ∷ s ++ b'"' ∷ []) ≡ some (c ∷ t)
unfolding sf_unquote
unquote-plain c [] t e h = ground (arith, e, h)
unquote-plain c (d ∷ s) t e h = ground (arith, e, h)

unquote-escape : (s : Text) → sf_unquote (sf_escape s ++ b'"' ∷ []) ≡ some (map visible s)
unfolding sf_unquote sf_escape visible
unquote-escape [] = refl
unquote-escape (c ∷ s) = elim (Bool-cases (c == b'\\' || c == b'"')) [
  | inl e ↦ rw e (ap (Option.map (◌∷◌ c)) (unquote-escape s) ∙ ground (arith, e))
  | inr e ↦ elim (Bool-cases (ltb c 0x20 || leb 0x7f c)) [
    | inl f ↦ rw (e, f) (unquote-plain b'?' (sf_escape s) _ refl (unquote-escape s))
    | inr f ↦ rw (e, f) (unquote-plain c (sf_escape s) _ e (unquote-escape s))
  ]
]

escaped-visible : (c : ℕ) → (c == b'\\' || c == b'"') ≡ true → (0x20 ≤ c) × (c < 0x7f)
escaped-visible c e = (ground (arith, e), ground (arith, e))

escape-visible : (s : Text) → All (λ c. (0x20 ≤ c) × (c < 0x7f)) (sf_escape s ++ b'"' ∷ [])
unfolding sf_escape
escape-visible [] = ((omega arith, omega arith), tt)
escape-visible (c ∷ s) = elim (Bool-cases (c == b'\\' || c == b'"')) [
  | inl e ↦ rw e ((omega arith, omega arith), ((escaped-visible c e), escape-visible s))
  | inr e ↦ elim (Bool-cases (ltb c 0x20 || leb 0x7f c)) [
    | inl f ↦ rw (e, f) ((omega arith, omega arith), escape-visible s)
    | inr f ↦ rw (e, f) ((ground (arith, f), ground (arith, f)), escape-visible s)
  ]
]

-- The quoted string of RFC 8941 that a refusal carries has visible ASCII bytes only, and reading it
-- back gives the text, with every byte outside visible ASCII replaced by a question mark.
pub sf_quoted_string-roundtrip :
    (s : Text)
    → ((body : Text) × (sf_quoted_string s ≡ b'"' ∷ body)
        × (sf_unquote body ≡ some (map visible s)))
      × All (λ c. (0x20 ≤ c) × (c < 0x7f)) (sf_quoted_string s)
unfolding sf_quoted_string
sf_quoted_string-roundtrip s = (
  (sf_escape s ++ b'"' ∷ [], refl, unquote-escape s),
  ((omega arith, omega arith), escape-visible s),
)

deny_headers-same :
    (d e : Effect) (i j request_id : Text)
    → categorical_effect d ≡ categorical_effect e
    → proxy_status_token d ≡ proxy_status_token e
    → i ≡ j
    → deny_headers d i request_id ≡ deny_headers e j request_id
unfolding deny_headers
deny_headers-same d e i j request_id c t h = rw (c, t, h) refl

-- A refusal tells the client no more than the effect's class, the request id and the hold's id: two
-- decisions with the same category, Proxy-Status token and hold id get the same response, whatever
-- their reason, rule, advisor, scope or source.
pub deny_response-opaque :
    (codec : Codec) (d e : Decision) (request_id accept : Text)
    → categorical_effect d.effect ≡ categorical_effect e.effect
    → proxy_status_token d.effect ≡ proxy_status_token e.effect
    → d.hold_id ≡ e.hold_id
    → deny_response codec d request_id accept ≡ deny_response codec e request_id accept
unfolding deny_response
deny_response-opaque codec d e request_id accept c t h =
    rw
      (
        c,
        deny_headers-same d.effect e.effect d.hold_id e.hold_id
            (if is_empty request_id then codes "unknown" else request_id) c t h,
      )
      refl

-- The effects of the program that are not forwarded.
abbrev pub is_refusable : Effect → Bool
is_refusable e =
    e == effect_deny
    || e == effect_resolved_deny
    || e == effect_timed_out
    || e == effect_ask_user
    || e == effect_ask_llm
    || e == effect_signaled

refusable-cases :
    (e : Effect)
    → is_refusable e ≡ true
    → ((e ≡ effect_deny) ⊎ (e ≡ effect_resolved_deny) ⊎ (e ≡ effect_timed_out))
      ⊎ ((e ≡ effect_ask_user) ⊎ (e ≡ effect_ask_llm) ⊎ (e ≡ effect_signaled))
refusable-cases e h = ground (
  arith,
  h,
  eq_iff e effect_deny,
  eq_iff e effect_resolved_deny,
  eq_iff e effect_timed_out,
  eq_iff e effect_ask_user,
  eq_iff e effect_ask_llm,
  eq_iff e effect_signaled,
)

-- Every effect of the program other than the two that are forwarded is refused with the status 470 and
-- the word declined, or with 471 and the word pending: the status line and the header agree.
pub status-category :
    (e : Effect)
    → is_refusable e ≡ true
    → (is_forwarded e ≡ false)
      × (((status_from_effect e ≡ 470) × (categorical_effect e ≡ codes "declined"))
          ⊎ ((status_from_effect e ≡ 471) × (categorical_effect e ≡ codes "pending")))
unfolding is_forwarded status_from_effect categorical_effect
status-category e h = elim (refusable-cases e h) [
  | inl (inl k) ↦ rw k (refl, inl (refl, refl))
  | inl (inr (inl k)) ↦ rw k (refl, inl (refl, refl))
  | inl (inr (inr k)) ↦ rw k (refl, inl (refl, refl))
  | inr (inl k) ↦ rw k (refl, inr (refl, refl))
  | inr (inr (inl k)) ↦ rw k (refl, inr (refl, refl))
  | inr (inr (inr k)) ↦ rw k (refl, inr (refl, refl))
]
