-- ===== src/Configwrite/Operator.antt =====
-- internal/configwrite/configwrite.go: OperatorApprove and OperatorDeny on the two lists.
use mathlib.Core.Path.{subst}
use trollbridge.Prelude.{
  ◌≡◌, ◌≢◌, ◌⊎◌, refl, sym, ◌∙◌, ap, inl, inr, Bool, true, false, not, ◌&&◌, ◌||◌, List, [], ◌∷◌,
  ◌++◌, some, arith, any, any-append, is_empty, ◌==◌, nat_eq, list_eq, eq_iff, eq_refl,
}
use trollbridge.Prelude.Sort.{any-sort_stable}
use trollbridge.Text.{Text, codes, lt_text, trim_space}
use trollbridge.Configwrite.Yaml.{Node}
use trollbridge.Configwrite.Edit.{
  Yaml, File, Disk, WriteError, Written, list_entries, mutate, insert_sorted, remove, add_allow,
  add_deny, remove_allow, remove_deny, operator_approve, operator_deny,
}
use trollbridge.Configwrite.Frame.{IsConfig}
use trollbridge.Configwrite.OneLine.{IsOneLine-insert, IsOneLine-remove}
use trollbridge.Configwrite.Outcomes.{Keeps, AreLists, IsOneLine, Edits, mutate-Edits}

abbrev pub on : Text → List Text → Bool
on e es = any (λ x. x == e) es

module _ (e : Text) where
  pub on-insert_sorted :
      (pattern : Text) (es : List Text)
      → on e (insert_sorted pattern es)
        ≡ (on e es || (not (is_empty (trim_space pattern)) && trim_space pattern == e))
  unfolding insert_sorted
  on-insert_sorted pattern es = ground (
    arith,
    any-sort_stable lt_text (λ x. x == e) (es ++ trim_space pattern ∷ []),
    any-append (λ x. x == e) es (trim_space pattern ∷ []),
    eq_iff (trim_space pattern) e,
  )

  pub on-remove :
      (pattern : Text) (es : List Text)
      → on e (remove pattern es) ≡ (on e es && not (trim_space pattern == e))
  unfolding remove
  on-remove pattern [] = refl
  on-remove pattern (x ∷ es) = ground (
    arith,
    on-remove pattern es,
    eq_iff x e,
    eq_iff x (trim_space pattern),
    eq_iff (trim_space pattern) e,
  )

-- The pattern is on the one list and off the other; no other entry of either list moved.
pub record Moved (source target p : Text) (doc doc' : Node) : Type 0 where
  pub config : IsConfig doc'
  pub on_target : on p (list_entries target doc') ≡ true
  pub off_source : on p (list_entries source doc') ≡ false
  pub keeps_target :
      (e : Text) → p ≢ e → on e (list_entries target doc') ≡ on e (list_entries target doc)
  pub keeps_source :
      (e : Text) → p ≢ e → on e (list_entries source doc') ≡ on e (list_entries source doc)

-- One of the two writes reports an error, or the file is read as a document where the pattern has
-- moved.
abbrev pub Decides : Yaml → Text → Text → Text → Node → Written × Written × File → Type 0
Decides yaml source target p doc (removed, added, f) =
    ((e : WriteError) × (removed.error ≡ some e))
    ⊎ (((e : WriteError) × (added.error ≡ some e))
        ⊎ ((doc' : Node) × (raw' : Text) × (f ≡ File.bytes raw')
            × (yaml.unmarshal raw' ≡ some (some doc'))
            × Moved source target p doc doc'))

module _ (source target pattern : Text) where
  abbrev Removed : Node → Node → Type 0
  Removed doc doc' =
      IsConfig doc'
      × (list_entries source doc' ≡ remove pattern (list_entries source doc))
      × (list_entries target doc' ≡ list_entries target doc)

  abbrev Added : Node → Node → Type 0
  Added doc doc' =
      IsConfig doc'
      × (list_entries target doc' ≡ insert_sorted pattern (list_entries target doc))
      × (list_entries source doc' ≡ list_entries source doc)

  -- An edit that reports no error leaves the transformed entries.
  Edits-ok :
      (yaml : Yaml) (which other : Text) (transform : List Text → List Text) (doc : Node)
      (raw : Text) (result : Written × File)
      → yaml.unmarshal raw ≡ some (some doc)
      → IsConfig doc
      → Edits yaml which other transform doc raw result
      → ((e : WriteError) × (result.0.error ≡ some e))
        ⊎ ((doc' : Node) × (raw' : Text) × (result.1 ≡ File.bytes raw')
            × (yaml.unmarshal raw' ≡ some (some doc'))
            × (IsConfig doc'
                × (list_entries which doc' ≡ transform (list_entries which doc))
                × (list_entries other doc' ≡ list_entries other doc)))
  Edits-ok yaml which other transform doc raw result p v (inl (same, e)) =
      inr (doc, raw, ap (λ x. x.1) e, p, (v, sym same, refl))
  Edits-ok yaml which other transform doc raw result p v (inr (inl (changed, problem, e))) =
      inl (problem, ap (λ x. x.0.error) e)
  Edits-ok yaml which other transform doc raw result p v (inr (inr (doc', raw', e, s))) =
      inr (doc', raw', ap (λ x. x.1) e, s.parsed, (s.config, s.listed, s.others))

  moved :
      (doc doc₁ doc₂ : Node)
      → is_empty (trim_space pattern) ≡ false
      → Removed doc doc₁
      → Added doc₁ doc₂
      → Moved source target (trim_space pattern) doc doc₂
  moved doc doc₁ doc₂ some_text (v, r, k) (w, a, l) = record {
    config = w;
    on_target =
        ap (on (trim_space pattern)) a
        ∙ ground (
          arith,
          on-insert_sorted (trim_space pattern) pattern (list_entries target doc₁),
          some_text,
          eq_refl (trim_space pattern),
        );
    off_source =
        ap (on (trim_space pattern)) (l ∙ r)
        ∙ ground (
          arith,
          on-remove (trim_space pattern) pattern (list_entries source doc),
          eq_refl (trim_space pattern),
        );
    keeps_target = λ e ne.
        ap (on e) a
        ∙ ground (
          arith,
          on-insert_sorted e pattern (list_entries target doc₁),
          eq_iff (trim_space pattern) e,
          ne,
        )
        ∙ ap (on e) k;
    keeps_source = λ e ne.
        ap (on e) (l ∙ r)
        ∙ ground (
          arith,
          on-remove e pattern (list_entries source doc),
          eq_iff (trim_space pattern) e,
          ne,
        );
  }

  move-Decides :
      (yaml : Yaml) (k : Keeps yaml) (there : AreLists source target)
      (back : AreLists target source) (disk₁ disk₂ : Disk) (doc : Node) (raw : Text)
      → yaml.unmarshal raw ≡ some (some doc)
      → IsConfig doc
      → IsOneLine (list_entries source doc)
      → IsOneLine (list_entries target doc)
      → any (λ c. c == 10) (trim_space pattern) ≡ false
      → is_empty (trim_space pattern) ≡ false
      → let (removed, f₁) = mutate yaml disk₁ source (remove pattern) (File.bytes raw) in
        let (added, f₂) = mutate yaml disk₂ target (insert_sorted pattern) f₁ in
        Decides yaml source target (trim_space pattern) doc (removed, added, f₂)
  move-Decides yaml k there back disk₁ disk₂ doc raw p v one_s one_t one_p some_text =
      elim (Edits-ok yaml source target (remove pattern) doc raw
        (mutate yaml disk₁ source (remove pattern) (File.bytes raw)) p v
        (mutate-Edits yaml k disk₁ source target there (remove pattern) doc raw p v
          (IsOneLine-remove pattern (list_entries source doc) one_s) one_t)) [
            | inl (e, bad) ↦ inl (e, bad)
            | inr (doc₁, raw₁, f₁, p₁, r) ↦
                let one_s₁ : IsOneLine (list_entries source doc₁) =
                  subst IsOneLine (sym r.1)
                    (IsOneLine-remove pattern (list_entries source doc) one_s) in
                let one_t₁ : IsOneLine (list_entries target doc₁) =
                  subst IsOneLine (sym r.2) one_t in
                rw f₁
                  (elim (Edits-ok yaml target source (insert_sorted pattern) doc₁ raw₁
                    (mutate yaml disk₂ target (insert_sorted pattern) (File.bytes raw₁)) p₁ r.0
                    (mutate-Edits yaml k disk₂ target source back (insert_sorted pattern) doc₁ raw₁
                      p₁ r.0 (IsOneLine-insert pattern (list_entries target doc₁) one_p one_t₁)
                      one_s₁)) [
                        | inl (e, bad) ↦ inr (inl (e, bad))
                        | inr (doc₂, raw₂, f₂, p₂, a) ↦
                            inr (inr (doc₂, raw₂, f₂, p₂, moved doc doc₁ doc₂ some_text r a))
                      ])
          ]

-- An operator's decision moves its pattern. For a pattern that is not blank, and a well-formed file,
-- with a pattern and entries of one line each and a yaml.v3 that keeps such lists, OperatorApprove
-- reports an error of one of its two writes, or leaves the pattern on the allow list and off the deny
-- list, with every other entry on exactly the lists that had it; OperatorDeny does the same with the
-- lists exchanged.
pub operator-Decides :
    (yaml : Yaml) (k : Keeps yaml) (disk₁ disk₂ : Disk) (pattern : Text) (doc : Node) (raw : Text)
    → yaml.unmarshal raw ≡ some (some doc)
    → IsConfig doc
    → IsOneLine (list_entries (codes "allow") doc)
    → IsOneLine (list_entries (codes "deny") doc)
    → any (λ c. c == 10) (trim_space pattern) ≡ false
    → is_empty (trim_space pattern) ≡ false
    → Decides yaml
        (codes "deny")
        (codes "allow")
        (trim_space pattern)
        doc
        (operator_approve yaml disk₁ disk₂ pattern (File.bytes raw))
      × Decides yaml
          (codes "allow")
          (codes "deny")
          (trim_space pattern)
          doc
          (operator_deny yaml disk₁ disk₂ pattern (File.bytes raw))
unfolding operator_approve operator_deny remove_deny add_allow remove_allow add_deny
operator-Decides yaml k disk₁ disk₂ pattern doc raw p v one_allow one_deny one_p some_text = (
  move-Decides (codes "deny") (codes "allow") pattern yaml k (inr (refl, refl)) (inl (refl, refl))
      disk₁ disk₂ doc raw p v one_deny one_allow one_p some_text,
  move-Decides (codes "allow") (codes "deny") pattern yaml k (inl (refl, refl)) (inr (refl, refl))
      disk₁ disk₂ doc raw p v one_allow one_deny one_p some_text,
)
