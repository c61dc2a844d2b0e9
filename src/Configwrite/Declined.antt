-- ===== src/Configwrite/Declined.antt =====
-- internal/configwrite/configwrite.go: AddDeclinedSuggestion, which records a suggestion once.
use trollbridge.Prelude.{
  Bool, false, not, ◌||◌, List, [], ◌∷◌, ◌++◌, none, some, ◌==◌, nat_eq, list_eq, if◌then◌else◌,
  is_empty,
}
use trollbridge.Prelude.Sort.{sort_stable}
use trollbridge.Text.{Text, codes, lt_text}
use trollbridge.Configwrite.Yaml.{
  Kind, Node, Nodes, node, nil, cons, kind_of, content_of, with_content, is_mapping, is_sequence,
  string_node, as_sequence, at_child, at_mapping_child, strings_from_seq, string_nodes, child,
}
use trollbridge.Configwrite.Edit.{
  Yaml, File, Disk, WriteError, Written, store, failed, unchanged, with_document, lists_content,
}

pub record DeclinedSuggestion : Type 0 where
  pub source_entries : List Text
  pub axes_declined : List Text
  pub declined_at : Text

-- The first value under source_entries, sorted, is the list.
unfoldable pub same_source_entries : List Text → Node → Bool
same_source_entries canonical row = elim (child (codes "source_entries") (content_of row)) [
  | none ↦ false
  | some seq ↦
      if not (is_sequence (kind_of seq))
      then false
      else sort_stable lt_text (strings_from_seq seq) == canonical
]

unfoldable pub has_row : List Text → Nodes → Bool
has_row canonical nil = false
has_row canonical (cons row rest) =
    let later = has_row canonical rest in
    if not (is_mapping (kind_of row)) then later else same_source_entries canonical row || later

unfoldable pub pair : Text → Node → Nodes → Nodes
pair key value rest = cons (string_node key) (cons value rest)

unfoldable pub declined_row : DeclinedSuggestion → Node
declined_row set =
    let stamp =
      if is_empty set.declined_at
      then nil
      else pair (codes "declined_at") (string_node set.declined_at) nil in
    let axes =
      if is_empty set.axes_declined
      then stamp
      else pair (codes "axes_declined")
          (node Kind.sequence (codes "!!seq") [] [] (string_nodes set.axes_declined)) stamp in
    node Kind.mapping (codes "!!map") [] [] (
      pair (codes "source_entries")
        (node Kind.sequence (codes "!!seq") [] [] (string_nodes set.source_entries)) axes)

unfoldable pub append_node : Node → Nodes → Nodes
append_node new nil = cons new nil
append_node new (cons n rest) = cons n (append_node new rest)

-- The comment above a section that the program makes.
abbrev marker : Text
marker =
    codes "Automatically managed "
    ++ (226
        ∷ 128
        ∷ 148
        ∷ (codes " do not edit by hand."
            ++ (10
                ∷ (codes "trollbridge appends one row per declined generalization"
                    ++ (10
                        ∷ codes "suggestion so the same source-entry set is never re-offered.")))))

abbrev section : Text
section = codes "declined_suggestions"

-- findOrCreateSeqChildWithComment
unfoldable pub at_commented_seq : (Node → Node) → Node → Node
at_commented_seq change parent =
    with_content
      (at_child as_sequence (node Kind.scalar (codes "!!str") section marker nil) section
        (node Kind.sequence (codes "!!seq") [] [] nil) change (content_of parent))
      parent

-- The rows that are there.
unfoldable pub declined_rows : Node → Nodes
declined_rows doc = elim (child section (lists_content doc)) [
  | none ↦ nil
  | some seq ↦ content_of (as_sequence seq)
]

unfoldable pub append_declined : DeclinedSuggestion → Node → Node
append_declined set doc =
    at_mapping_child (codes "lists")
      (at_commented_seq (λ seq. with_content (append_node (declined_row set) (content_of seq)) seq))
      doc

unfoldable pub declined_document : Yaml → Disk → DeclinedSuggestion → Node → Text → Written × File
declined_document yaml disk set doc raw =
    if has_row set.source_entries (declined_rows doc)
    then unchanged (File.bytes raw)
    else store yaml disk (append_declined set doc) raw

unfoldable pub add_declined_suggestion : Yaml → Disk → DeclinedSuggestion → File → Written × File
add_declined_suggestion yaml disk set f =
    if is_empty set.source_entries
    then failed WriteError.no_sources f
    else with_document yaml
        (declined_document yaml disk
          (record set { source_entries = sort_stable lt_text set.source_entries }))
        f
