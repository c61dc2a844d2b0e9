-- ===== src/Approvals/Enqueue/Key.antt =====
-- The key under which requests coalesce tells them apart.
use trollbridge.Prelude.{◌≡◌, ◌↔◌, refl, false, [], ◌∷◌, ◌++◌, arith, any, ◌==◌, nat_eq}
use trollbridge.Text.{Text}
use trollbridge.Text.Decimal.{itoa, itoa-AtLeast, itoa-injective, AtLeast}
use trollbridge.Types.{RequestEvent}
use trollbridge.Approvals.Store.{join_nul, dedup_key}

-- No byte of the text is NUL.
abbrev pub IsNulFree : Text → Type 0
IsNulFree s = any (λ c. c == 0) s ≡ false

AtLeast-IsNulFree : (s : Text) → AtLeast b'-' s → IsNulFree s
AtLeast-IsNulFree [] h = refl
AtLeast-IsNulFree (c ∷ s) (h, hs) = ground (arith, h, AtLeast-IsNulFree s hs)

first_part :
    (s t r r' : Text) → IsNulFree s → IsNulFree t → s ++ 0 ∷ r ≡ t ++ 0 ∷ r' → (s ≡ t) × (r ≡ r')
first_part [] [] r r' h k e = (refl, ground (arith, e))
first_part [] (d ∷ t) r r' h k e = ground (arith, e, k)
first_part (c ∷ s) [] r r' h k e = ground (arith, e, h)
first_part (c ∷ s) (d ∷ t) r r' h k e =
    let (p, q) = first_part s t r r' (ground (arith, h)) (ground (arith, k)) (ground (arith, e)) in
    (ground (arith, e, p), q)

-- The parts of a request that its key is made of contain no NUL.
pub record IsPlain (req : RequestEvent) : Type 0 where
  pub identity : IsNulFree req.identity_id
  pub method : IsNulFree req.method
  pub scheme : IsNulFree req.scheme
  pub host : IsNulFree req.host

-- Two requests whose identity, method, scheme and host contain no NUL have the same key exactly if
-- they agree in identity, method, scheme, host, port and path: nothing else is coalesced.
pub dedup_key_iff :
    (r s : RequestEvent)
    → IsPlain r
    → IsPlain s
    → (dedup_key r ≡ dedup_key s) ↔ (
        (r.identity_id ≡ s.identity_id)
        × (r.method ≡ s.method)
        × (r.scheme ≡ s.scheme)
        × (r.host ≡ s.host)
        × (r.port ≡ s.port)
        × (r.path ≡ s.path))
unfolding dedup_key join_nul
dedup_key_iff r s p q = (
  λ e.
      let (identity, e₁) = first_part r.identity_id s.identity_id _ _ p.identity q.identity e in
      let (method, e₂) = first_part r.method s.method _ _ p.method q.method e₁ in
      let (scheme, e₃) = first_part r.scheme s.scheme _ _ p.scheme q.scheme e₂ in
      let (host, e₄) = first_part r.host s.host _ _ p.host q.host e₃ in
      let (port, path) =
        first_part (itoa r.port) (itoa s.port) _ _ (AtLeast-IsNulFree _ (itoa-AtLeast r.port))
          (AtLeast-IsNulFree _ (itoa-AtLeast s.port)) e₄ in
      (identity, method, scheme, host, itoa-injective r.port s.port port, path),
  λ (identity, method, scheme, host, port, path). cc,
)
