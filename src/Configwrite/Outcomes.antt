-- ===== src/Configwrite/Outcomes.antt =====
-- internal/configwrite/configwrite.go: the outcomes of mutate.
use mathlib.Core.Path.{subst}
use trollbridge.Prelude.{
  ◌≡◌, ◌≢◌, ◌⊎◌, refl, sym, inl, inr, Bool, true, false, List, none, some, ◌==◌, nat_eq, list_eq,
  eq_iff, Bool-cases, arith, All, any, ◌∙◌,
}
use trollbridge.Text.{Text, codes}
use trollbridge.Configwrite.Yaml.{Node, content_of, child, kind_of, is_mapping}
use trollbridge.Configwrite.Blanks.{BlankAnchor, capture_blank_lines, reinsert_blank_lines}
use trollbridge.Configwrite.Edit.{
  Yaml, File, Disk, WriteError, Written, store, unchanged, list_entries, set_entries, with_document,
  edit_list, mutate,
}
use trollbridge.Configwrite.Frame.{
  IsConfig, list_entries-set_entries, list_entries-set_entries_ne, child-set_entries_ne,
  set_entries-IsConfig,
}

-- No string of the list has a line feed.
abbrev pub IsOneLine : List Text → Type 0
IsOneLine es = All (λ (e : Text). any (λ c. c == 10) e ≡ false) es

-- What the writes rely on: that the text which yaml.v3 encodes parses back to a document with the same
-- two lists, and that blank lines in front of its lines do not matter to lists of one-line strings.
pub record Keeps (yaml : Yaml) : Type 0 where
  pub kept :
      (doc : Node) (blanks : List BlankAnchor)
      → IsConfig doc
      → IsOneLine (list_entries (codes "allow") doc)
      → IsOneLine (list_entries (codes "deny") doc)
      → (doc' : Node) × (yaml.unmarshal (reinsert_blank_lines (yaml.encode doc) blanks)
          ≡ some (some doc'))
        × IsConfig doc'
        × (list_entries (codes "allow") doc' ≡ list_entries (codes "allow") doc)
        × (list_entries (codes "deny") doc' ≡ list_entries (codes "deny") doc)

-- The keys of the two lists, either way round.
abbrev pub AreLists : Text → Text → Type 0
AreLists which other =
    ((which ≡ codes "allow") × (other ≡ codes "deny"))
    ⊎ ((which ≡ codes "deny") × (other ≡ codes "allow"))

-- The new text is that of the old document with the new entries, and has the blank lines of the old
-- text put back; it is read as a document with the new entries under the key and the other list as
-- it was.
pub record Rewrites (yaml : Yaml) (which other : Text) (es : List Text) (doc : Node) (raw : Text)
    (doc' : Node) (raw' : Text) : Type 0 where
  pub encoded : Node
  pub entries : list_entries which encoded ≡ es
  pub rest :
      (key : Text)
      → codes "lists" ≢ key
      → child key (content_of encoded) ≡ child key (content_of doc)
  pub text : raw' ≡ reinsert_blank_lines (yaml.encode encoded) (capture_blank_lines raw)
  pub parsed : yaml.unmarshal raw' ≡ some (some doc')
  pub config : IsConfig doc'
  pub listed : list_entries which doc' ≡ es
  pub others : list_entries other doc' ≡ list_entries other doc

-- The outcomes of an edit: nothing to write, an error that leaves the file, or a new text.
abbrev pub Edits :
    Yaml → Text → Text → (List Text → List Text) → Node → Text → Written × File → Type 0
Edits yaml which other transform doc raw result =
    ((transform (list_entries which doc) ≡ list_entries which doc)
      × (result ≡ (record { changed = false; error = none }, File.bytes raw)))
    ⊎ (((changed : Bool) × (e : WriteError) × (result
            ≡ (record { changed = changed; error = some e }, File.bytes raw)))
        ⊎ ((doc' : Node) × (raw' : Text) × (result
              ≡ (record { changed = true; error = none }, File.bytes raw'))
            × Rewrites yaml which other (transform (list_entries which doc)) doc raw doc' raw'))

-- The document is read back with its two lists.
abbrev Reads : Yaml → List BlankAnchor → Node → Text → Text → Type 0
Reads yaml blanks doc which other =
    IsOneLine (list_entries which doc)
    → IsOneLine (list_entries other doc)
    → (doc' : Node) × (yaml.unmarshal (reinsert_blank_lines (yaml.encode doc) blanks)
        ≡ some (some doc'))
      × IsConfig doc'
      × (list_entries which doc' ≡ list_entries which doc)
      × (list_entries other doc' ≡ list_entries other doc)

Keeps-Reads :
    (yaml : Yaml) (k : Keeps yaml) (blanks : List BlankAnchor) (doc : Node) (v : IsConfig doc)
    (which other : Text)
    → AreLists which other
    → Reads yaml blanks doc which other
Keeps-Reads yaml k blanks doc v which other (inl (w, o)) =
    let direct : Reads yaml blanks doc (codes "allow") (codes "deny") = k.kept doc blanks v in
    subst (λ x. Reads yaml blanks doc x other) (sym w)
      (subst (λ x. Reads yaml blanks doc (codes "allow") x) (sym o) direct)
Keeps-Reads yaml k blanks doc v which other (inr (w, o)) =
    let swapped : Reads yaml blanks doc (codes "deny") (codes "allow") = (λ one_deny one_allow.
      let (doc', p, c, a, d) = k.kept doc blanks v one_allow one_deny in (doc', p, c, d, a)) in
    subst (λ x. Reads yaml blanks doc x other) (sym w)
      (subst (λ x. Reads yaml blanks doc (codes "deny") x) (sym o) swapped)

AreLists-apart : (which other : Text) → AreLists which other → which ≢ other
AreLists-apart which other (inl (w, o)) e = cc
AreLists-apart which other (inr (w, o)) e = cc

module _ (yaml : Yaml) (k : Keeps yaml) (which other : Text) (keys : AreLists which other)
    (transform : List Text → List Text) (doc : Node) (raw : Text) (v : IsConfig doc)
    (one_line : IsOneLine (transform (list_entries which doc)))
    (other_one_line : IsOneLine (list_entries other doc)) where
  abbrev es : List Text
  es = transform (list_entries which doc)

  abbrev edited : Node
  edited = set_entries which es doc

  abbrev blanks : List BlankAnchor
  blanks = capture_blank_lines raw

  edited-listed : list_entries which edited ≡ es
  edited-listed = list_entries-set_entries which es doc v

  edited-other : list_entries other edited ≡ list_entries other doc
  edited-other = list_entries-set_entries_ne which es doc v other (AreLists-apart which other keys)

  read_back :
      (doc' : Node) × (yaml.unmarshal (reinsert_blank_lines (yaml.encode edited) blanks)
        ≡ some (some doc'))
      × IsConfig doc'
      × (list_entries which doc' ≡ list_entries which edited)
      × (list_entries other doc' ≡ list_entries other edited)
  read_back =
      Keeps-Reads yaml k blanks edited (set_entries-IsConfig which es doc v) which other keys
        (subst IsOneLine (sym edited-listed) one_line)
        (subst IsOneLine (sym edited-other) other_one_line)

  store-Edits :
      (disk : Disk) → Edits yaml which other transform doc raw (store yaml disk edited raw)
  unfolding store
  store-Edits Disk.encode_fails = inr (inl (false, WriteError.not_encoded, refl))
  store-Edits Disk.write_fails = inr (inl (true, WriteError.not_written, refl))
  store-Edits Disk.writes =
      let (doc', parsed, config, listed, others) = read_back in
      inr (
        inr (
          doc',
          reinsert_blank_lines (yaml.encode edited) blanks,
          refl,
          record {
            encoded = edited;
            entries = edited-listed;
            rest = child-set_entries_ne which es doc v;
            text = refl;
            parsed = parsed;
            config = config;
            listed = listed ∙ edited-listed;
            others = others ∙ edited-other;
          },
        ))

edit_list-Edits :
    (yaml : Yaml) (k : Keeps yaml) (which other : Text) (keys : AreLists which other)
    (transform : List Text → List Text) (doc : Node) (raw : Text) (v : IsConfig doc)
    (one_line : IsOneLine (transform (list_entries which doc)))
    (other_one_line : IsOneLine (list_entries other doc)) (disk : Disk)
    → Edits yaml which other transform doc raw (edit_list yaml disk which transform doc raw)
unfolding edit_list unchanged
edit_list-Edits yaml k which other keys transform doc raw v one other_one disk =
    elim (Bool-cases (list_entries which doc == transform (list_entries which doc))) [
      | inl e ↦ inl (
        sym ((eq_iff (list_entries which doc) (transform (list_entries which doc))).0 e),
        rw e refl,
      )
      | inr e ↦ rw e (store-Edits yaml k which other keys transform doc raw v one other_one disk)
    ]

with_document-read :
    (yaml : Yaml) (change : Node → Text → Written × File) (doc : Node) (raw : Text)
    → yaml.unmarshal raw ≡ some (some doc)
    → is_mapping (kind_of doc) ≡ true
    → with_document yaml change (File.bytes raw) ≡ change doc raw
unfolding with_document
with_document-read yaml change doc raw p v = ground (arith, p, v)

pub mutate-Edits :
    (yaml : Yaml) (k : Keeps yaml) (disk : Disk) (which other : Text) (keys : AreLists which other)
    (transform : List Text → List Text) (doc : Node) (raw : Text)
    → yaml.unmarshal raw ≡ some (some doc)
    → IsConfig doc
    → IsOneLine (transform (list_entries which doc))
    → IsOneLine (list_entries other doc)
    → Edits yaml which other transform doc raw (mutate yaml disk which transform (File.bytes raw))
unfolding mutate
mutate-Edits yaml k disk which other keys transform doc raw p v one other_one =
    subst (Edits yaml which other transform doc raw)
      (sym (with_document-read yaml (edit_list yaml disk which transform) doc raw p v.mapped))
      (edit_list-Edits yaml k which other keys transform doc raw v one other_one disk)
