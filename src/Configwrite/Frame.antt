-- ===== src/Configwrite/Frame.antt =====
-- internal/configwrite/configwrite.go: an edit of one list, read back from the document.
use trollbridge.Prelude.{
  ◌≡◌, ◌≢◌, refl, ◌∙◌, ap, inl, inr, Bool, true, false, List, [], ◌∷◌, Option, none, some, arith,
  ◌==◌, nat_eq, list_eq, eq_iff, eq_refl, Bool-cases,
}
use trollbridge.Text.{Text, codes}
use trollbridge.Configwrite.Yaml.{
  Kind, Node, Nodes, node, nil, cons, kind_of, value_of, content_of, with_content, string_node,
  as_mapping, as_sequence, at_child, at_mapping_child, at_seq_child, strings, strings_from_seq,
  string_nodes, replace_seq_content, child, is_sequence, is_mapping,
}
use trollbridge.Configwrite.Edit.{
  map_content, lists_content, seq_strings, list_entries, set_entries,
}

strings-string_nodes : (es : List Text) → strings (string_nodes es) ≡ es
unfolding strings string_nodes
strings-string_nodes [] = refl
strings-string_nodes (e ∷ es) = ap (◌∷◌ e) (strings-string_nodes es)

-- Each key has a value.
abbrev pub paired : Nodes → Bool
paired nil = true
paired (cons k nil) = false
paired (cons k (cons v rest)) = paired rest

module _ (shape : Node → Node) (key : Text) (key_node fresh : Node) (change : Node → Node) where
  -- What the change is given: the value under the key in its shape, or the fresh one.
  abbrev given : Option Node → Node
  given none = fresh
  given (some v) = shape v

  child-at_child :
      (ns : Nodes)
      → paired ns ≡ true
      → value_of key_node ≡ key
      → child key (at_child shape key_node key fresh change ns)
        ≡ some (change (given (child key ns)))
  unfolding child at_child
  child-at_child nil p e = ground (arith, e, eq_refl key)
  child-at_child (cons k nil) p e = cc
  child-at_child (cons k (cons v rest)) p e = elim (Bool-cases (value_of k == key)) [
    | inl here ↦ ground (arith, here)
    | inr away ↦ ground (arith, away, child-at_child rest p e)
  ]

  child-at_child_ne :
      (other : Text) (ns : Nodes)
      → paired ns ≡ true
      → value_of key_node ≡ key
      → key ≢ other
      → child other (at_child shape key_node key fresh change ns) ≡ child other ns
  unfolding child at_child
  child-at_child_ne other nil p e ne = ground (arith, e, eq_iff key other, ne)
  child-at_child_ne other (cons k nil) p e ne = cc
  child-at_child_ne other (cons k (cons v rest)) p e ne = elim (Bool-cases (value_of k == key)) [
    | inl here ↦ ground (arith, here, eq_iff (value_of k) key, eq_iff (value_of k) other, ne)
    | inr away ↦ ground (arith, away, child-at_child_ne other rest p e ne)
  ]

  paired-at_child :
      (ns : Nodes) → paired ns ≡ true → paired (at_child shape key_node key fresh change ns) ≡ true
  unfolding at_child
  paired-at_child nil p = refl
  paired-at_child (cons k nil) p = cc
  paired-at_child (cons k (cons v rest)) p = elim (Bool-cases (value_of k == key)) [
    | inl here ↦ rw here p
    | inr away ↦ rw away (paired-at_child rest p)
  ]

content-with_content : (ns : Nodes) (n : Node) → content_of (with_content ns n) ≡ ns
content-with_content ns (node kind tag value comment content) = refl

kind-with_content : (ns : Nodes) (n : Node) → kind_of (with_content ns n) ≡ kind_of n
kind-with_content ns (node kind tag value comment content) = refl

mapping-as_mapping : (n : Node) → is_mapping (kind_of (as_mapping n)) ≡ true
unfolding as_mapping
mapping-as_mapping (node kind tag value comment content) = ground arith

as_mapping-mapping : (n : Node) → is_mapping (kind_of n) ≡ true → as_mapping n ≡ n
unfolding as_mapping
as_mapping-mapping (node kind tag value comment content) e = rw e refl

sequence-as_sequence : (n : Node) → is_sequence (kind_of (as_sequence n)) ≡ true
unfolding as_sequence
sequence-as_sequence (node kind tag value comment content) = ground arith

as_sequence-sequence : (n : Node) → is_sequence (kind_of n) ≡ true → as_sequence n ≡ n
unfolding as_sequence
as_sequence-sequence (node kind tag value comment content) e = rw e refl

content-as_mapping :
    (ns : Nodes) (n : Node)
    → is_mapping (kind_of n) ≡ true
    → content_of (as_mapping (with_content ns n)) ≡ ns
content-as_mapping ns n e =
    rw (as_mapping-mapping (with_content ns n) (rw (kind-with_content ns n) e))
      (content-with_content ns n)

strings-replaced :
    (updated : List Text) (n : Node)
    → is_sequence (kind_of n) ≡ true
    → strings_from_seq (as_sequence (replace_seq_content updated n)) ≡ updated
unfolding strings_from_seq replace_seq_content
strings-replaced updated n e =
    rw
      (
        as_sequence-sequence (with_content (string_nodes updated) n)
            (rw (kind-with_content (string_nodes updated) n) e),
        content-with_content (string_nodes updated) n,
      )
      (strings-string_nodes updated)

-- A document whose top level and whose lists are mappings with a value for each key.
pub record IsConfig (doc : Node) : Type 0 where
  pub mapped : is_mapping (kind_of doc) ≡ true
  pub top_pairs : paired (content_of doc) ≡ true
  pub list_pairs : paired (lists_content doc) ≡ true

abbrev fresh_seq : Node
fresh_seq = node Kind.sequence (codes "!!seq") [] [] nil

abbrev fresh_map : Node
fresh_map = node Kind.mapping (codes "!!map") [] [] nil

module _ (which : Text) (updated : List Text) (doc : Node) (v : IsConfig doc) where
  top_content :
      content_of (set_entries which updated doc)
      ≡ at_child as_mapping
          (string_node (codes "lists"))
          (codes "lists")
          fresh_map
          (at_seq_child which (replace_seq_content updated))
          (content_of doc)
  unfolding set_entries at_mapping_child
  top_content = content-with_content _ doc

  pub lists_content-set_entries :
      lists_content (set_entries which updated doc)
      ≡ at_child as_sequence
          (string_node which)
          which
          fresh_seq
          (replace_seq_content updated)
          (lists_content doc)
  unfolding lists_content map_content at_seq_child
  lists_content-set_entries =
      ap (λ ns. map_content (child (codes "lists") ns)) top_content
      ∙ ap map_content (
          child-at_child as_mapping (codes "lists") (string_node (codes "lists")) fresh_map
            (at_seq_child which (replace_seq_content updated)) (content_of doc) v.top_pairs refl)
      ∙ go (child (codes "lists") (content_of doc))
    where
      go :
          (o : Option Node)
          → content_of (
              as_mapping (
                at_seq_child which (replace_seq_content updated) (
                  given as_mapping
                    (codes "lists")
                    (string_node (codes "lists"))
                    fresh_map
                    (at_seq_child which (replace_seq_content updated))
                    o)))
            ≡ at_child as_sequence
                (string_node which)
                which
                fresh_seq
                (replace_seq_content updated)
                (map_content o)
      go none = content-as_mapping _ fresh_map refl
      go (some l) = content-as_mapping _ (as_mapping l) (mapping-as_mapping l)

  pub list_entries-set_entries : list_entries which (set_entries which updated doc) ≡ updated
  unfolding list_entries seq_strings
  list_entries-set_entries =
      rw
        (
          lists_content-set_entries,
          child-at_child as_sequence which (string_node which) fresh_seq
              (replace_seq_content updated) (lists_content doc) v.list_pairs refl,
        )
        (go (child which (lists_content doc)))
    where
      go :
          (o : Option Node)
          → strings_from_seq (
              as_sequence (
                replace_seq_content updated (
                  given as_sequence which
                    (string_node which)
                    fresh_seq
                    (replace_seq_content updated)
                    o)))
            ≡ updated
      go none = strings-replaced updated fresh_seq refl
      go (some s) = strings-replaced updated (as_sequence s) (sequence-as_sequence s)

  pub list_entries-set_entries_ne :
      (other : Text)
      → which ≢ other
      → list_entries other (set_entries which updated doc) ≡ list_entries other doc
  unfolding list_entries
  list_entries-set_entries_ne other ne =
      rw
        (
          lists_content-set_entries,
          child-at_child_ne as_sequence which (string_node which) fresh_seq
              (replace_seq_content updated) other (lists_content doc) v.list_pairs refl ne,
        )
        refl

  pub child-set_entries_ne :
      (key : Text)
      → codes "lists" ≢ key
      → child key (content_of (set_entries which updated doc)) ≡ child key (content_of doc)
  child-set_entries_ne key ne =
      ap (child key) top_content
      ∙ child-at_child_ne as_mapping (codes "lists") (string_node (codes "lists")) fresh_map
          (at_seq_child which (replace_seq_content updated)) key (content_of doc) v.top_pairs refl
          ne

  pub set_entries-IsConfig : IsConfig (set_entries which updated doc)
  set_entries-IsConfig = record {
    mapped = unfold set_entries at_mapping_child in rw (kind-with_content _ doc) v.mapped;
    top_pairs = rw top_content (
        paired-at_child as_mapping (codes "lists") (string_node (codes "lists")) fresh_map
          (at_seq_child which (replace_seq_content updated)) (content_of doc) v.top_pairs);
    list_pairs = rw lists_content-set_entries (
        paired-at_child as_sequence which (string_node which) fresh_seq
          (replace_seq_content updated) (lists_content doc) v.list_pairs);
  }
