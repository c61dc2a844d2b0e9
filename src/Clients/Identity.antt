-- ===== src/Clients/Identity.antt =====
-- internal/identity/identity.go: the resolver. SHA-256 in hexadecimal, and the host of Go's
-- net.SplitHostPort, are parameters.
use trollbridge.Prelude.{
  Bool, true, false, not, ◌&&◌, List, [], ◌∷◌, Option, none, some, ◌==◌, nat_eq, list_eq,
  if◌then◌else◌, is_empty, find, any, find-split, is_some-find, is_some, ◌≡◌, ◌⊎◌, refl, sym, ap,
  ◌∙◌, inl, inr, ◌++◌, Option-cases,
}
use trollbridge.Text.{Text, codes, to_lower, trim_space}
use trollbridge.Policy.Rule.{header_get}

-- config.Identity with its match.
pub record Identity : Type 0 where
  pub id : Text
  pub bearer_token_sha256 : Text
  pub source_ip : Text

pub record Hosting : Type 0 where
  pub sha256_hex : Text → Text
  pub split_host : Text → Option Text

unfoldable pub strip_port : Hosting → Text → Text
strip_port env addr = elim (env.split_host addr) [ none ↦ addr | some host ↦ host ]

-- What follows the prefix, letter case aside.
unfoldable pub strip_fold : Text → Text → Option Text
strip_fold s [] = some s
strip_fold [] (c ∷ p) = none
strip_fold (d ∷ s) (c ∷ p) =
    let rest = strip_fold s p in if to_lower (d ∷ []) == to_lower (c ∷ []) then rest else none

-- "Bearer " and at least one more byte.
unfoldable pub bearer_token : List (Text × List Text) → Text
bearer_token headers =
    elim (strip_fold (header_get headers (codes "Proxy-Authorization")) (codes "Bearer ")) [
      | none ↦ []
      | some rest ↦ trim_space rest
    ]

unfoldable pub bearer_hash : Hosting → List (Text × List Text) → Text
bearer_hash env headers =
    let bearer = bearer_token headers in if is_empty bearer then [] else env.sha256_hex bearer

abbrev pub names_caller : Text → Text → Bool
names_caller wanted found = not (is_empty wanted) && wanted == found

-- Tokens first, then addresses, each in the order of the configuration.
unfoldable pub resolve_identity : Hosting → List Identity → Text → List (Text × List Text) → Text
resolve_identity env identities client_addr headers =
    elim (find (λ i. names_caller i.bearer_token_sha256 (bearer_hash env headers)) identities) [
      | some i ↦ i.id
      | none ↦ elim (find (λ i. names_caller i.source_ip (strip_port env client_addr)) identities) [
        | some i ↦ i.id
        | none ↦ codes "anonymous"
      ]
    ]

-- The caller is one of the configured identities, which its token or its address matches, the token
-- going before the address, or it is anonymous and matches none of them.
pub resolve_identity-Matches :
    (env : Hosting) (identities : List Identity) (addr : Text) (headers : List (Text × List Text))
    → ((resolve_identity env identities addr headers ≡ codes "anonymous")
        × (any (λ i. names_caller i.bearer_token_sha256 (bearer_hash env headers)) identities
            ≡ false)
        × (any (λ i. names_caller i.source_ip (strip_port env addr)) identities ≡ false))
      ⊎ ((i : Identity) × (us vs : List Identity) × (identities ≡ us ++ i ∷ vs)
          × (resolve_identity env identities addr headers ≡ i.id)
          × ((names_caller i.bearer_token_sha256 (bearer_hash env headers) ≡ true)
              ⊎ ((names_caller i.source_ip (strip_port env addr) ≡ true)
                  × (any
                        (λ j. names_caller j.bearer_token_sha256 (bearer_hash env headers))
                        identities
                      ≡ false))))
unfolding resolve_identity
resolve_identity-Matches env identities addr headers =
    let by_token : Identity → Bool =
      λ i. names_caller i.bearer_token_sha256 (bearer_hash env headers) in
    let by_addr : Identity → Bool = λ i. names_caller i.source_ip (strip_port env addr) in
    elim (Option-cases (find by_token identities)) [
      | inr (i, e) ↦
          let (us, vs, q, _, passes) = find-split by_token identities e in
          inr (i, us, vs, q, rw (e, resolve_identity) refl, inl passes)
      | inl e ↦
          let untold = sym (is_some-find by_token identities) ∙ ap is_some e in
          elim (Option-cases (find by_addr identities)) [
            | inr (i, f) ↦
                let (us, vs, q, _, passes) = find-split by_addr identities f in
                inr (i, us, vs, q, rw (e, resolve_identity) (rw f refl), inr (passes, untold))
            | inl f ↦ inl (
              rw (e, resolve_identity) (rw f refl),
              untold,
              sym (is_some-find by_addr identities) ∙ ap is_some f,
            )
          ]
    ]
