-- ===== src/Advisor/Digest.antt =====
-- internal/advisor/digest.go: the bounded record of the advisor's answers.
use trollbridge.Prelude.{ℕ, List, [], ◌∷◌, ◌++◌, leb, if◌then◌else◌, length}
use trollbridge.Prelude.Int.{ℤ, pos, pos_part, ltb_ℤ}
use trollbridge.Text.{Text, codes}

abbrev pub outcome_classified : Text
outcome_classified = codes "classified"

abbrev pub outcome_unavailable : Text
outcome_unavailable = codes "unavailable"

abbrev pub outcome_validation_failed : Text
outcome_validation_failed = codes "validation-failed"

pub record Digest : Type 0 where
  pub timestamp : ℕ
  pub request_id : Text
  pub method : Text
  pub scheme : Text
  pub host : Text
  pub port : ℤ
  pub path : Text
  pub effect : Text
  pub confidence : Text
  pub advisor_id : Text
  pub reason : Text
  pub outcome : Text
  pub llm_input_hash : Text

pub record DigestRing : Type 0 where
  pub digest_cap : ℕ
  pub digests : List Digest

unfoldable pub new_digest_ring : ℤ → DigestRing
new_digest_ring cap = record {
  digest_cap = if ltb_ℤ (pos 0) cap then pos_part cap else 100;
  digests = [];
}

abbrev without_oldest : List Digest → List Digest
without_oldest [] = []
without_oldest (d ∷ ds) = ds

-- The oldest digest leaves a full ring.
unfoldable pub add_digest : Digest → DigestRing → DigestRing
add_digest d r = record r {
  digests =
      (if leb r.digest_cap (length r.digests) then without_oldest r.digests else r.digests)
      ++ d ∷ [];
}
