-- ===== src/Configwrite/Edit.antt =====
-- internal/configwrite/configwrite.go: the edits. The encoder and the parser of yaml.v3 are a
-- parameter. A write replaces the file by a rename, so that one that fails leaves it.
use trollbridge.Prelude.{
  Bool, true, false, not, ◌&&◌, ◌||◌, List, [], ◌∷◌, ◌++◌, Option, none, some, any, filter_by, ◌==◌,
  nat_eq, list_eq, if◌then◌else◌, is_empty,
}
use trollbridge.Prelude.Sort.{sort_stable}
use trollbridge.Text.{Text, codes, lt_text, trim_space}
use trollbridge.HostList.Subsumes.{subsumes}
use trollbridge.Configwrite.Blanks.{capture_blank_lines, reinsert_blank_lines}
use trollbridge.Configwrite.Yaml.{
  Node, Nodes, nil, kind_of, content_of, is_mapping, as_mapping, as_sequence, at_mapping_child,
  at_seq_child, strings_from_seq, replace_seq_content, child,
}

-- yaml.v3: the text of a document, and what is parsed from a text: an error, no document, or one.
pub record Yaml : Type 0 where
  pub encode : Node → Text
  pub unmarshal : Text → Option (Option Node)

-- What os.ReadFile gives.
pub data File : Type 0 where
  unreadable : File
  bytes : Text → File

-- How the encoder and the write end.
pub data Disk : Type 0 where
  writes encode_fails write_fails : Disk

pub data WriteError : Type 0 where
  bad_file not_a_mapping not_encoded not_written unknown_list no_sources : WriteError

-- The pair (changed, err).
pub record Written : Type 0 where
  pub changed : Bool
  pub error : Option WriteError

-- The document as encoded, with the blank lines of the old file put back.
unfoldable pub store : Yaml → Disk → Node → Text → Written × File
store yaml Disk.writes doc raw = (
  record { changed = true; error = none },
  File.bytes (reinsert_blank_lines (yaml.encode doc) (capture_blank_lines raw)),
)
store yaml Disk.encode_fails doc raw =
    (record { changed = false; error = some WriteError.not_encoded }, File.bytes raw)
store yaml Disk.write_fails doc raw =
    (record { changed = true; error = some WriteError.not_written }, File.bytes raw)

unfoldable pub failed : WriteError → File → Written × File
failed problem f = (record { changed = false; error = some problem }, f)

unfoldable pub unchanged : File → Written × File
unchanged f = (record { changed = false; error = none }, f)

unfoldable pub map_content : Option Node → Nodes
map_content none = nil
map_content (some lists) = content_of (as_mapping lists)

-- The keys and values of `lists`, where a missing or odd node is as good as an empty one.
unfoldable pub lists_content : Node → Nodes
unfolding map_content
lists_content doc = map_content (child (codes "lists") (content_of doc))

unfoldable pub seq_strings : Option Node → List Text
seq_strings none = []
seq_strings (some seq) = strings_from_seq (as_sequence seq)

-- The strings of lists.<which>.
unfoldable pub list_entries : Text → Node → List Text
unfolding seq_strings
list_entries which doc = seq_strings (child which (lists_content doc))

unfoldable pub set_entries : Text → List Text → Node → Node
set_entries which updated doc =
    at_mapping_child (codes "lists") (at_seq_child which (replace_seq_content updated)) doc

-- os.ReadFile, yaml.Unmarshal and the test that there is a document, before what is done with one.
unfoldable pub with_document : Yaml → (Node → Text → Written × File) → File → Written × File
with_document yaml change File.unreadable = failed WriteError.bad_file File.unreadable
with_document yaml change (File.bytes raw) = elim (yaml.unmarshal raw) [
  | none ↦ failed WriteError.bad_file (File.bytes raw)
  | some found ↦ elim found [
    | none ↦ failed WriteError.not_a_mapping (File.bytes raw)
    | some doc ↦
        if not (is_mapping (kind_of doc))
        then failed WriteError.not_a_mapping (File.bytes raw)
        else change doc raw
  ]
]

-- equalSlices is the equality of lists.
unfoldable pub edit_list :
    Yaml → Disk → Text → (List Text → List Text) → Node → Text → Written × File
edit_list yaml disk which transform doc raw =
    let updated = transform (list_entries which doc) in
    if list_entries which doc == updated
    then unchanged (File.bytes raw)
    else store yaml disk (set_entries which updated doc) raw

unfoldable pub mutate : Yaml → Disk → Text → (List Text → List Text) → File → Written × File
mutate yaml disk which transform f = with_document yaml (edit_list yaml disk which transform) f

-- Equal strings cannot be told apart, so that the stable sort does for sort.Strings.
unfoldable pub insert_sorted : Text → List Text → List Text
insert_sorted pattern es =
    let p = trim_space pattern in
    if is_empty p
    then es
    else if any (λ e. e == p) es
    then es
    else sort_stable lt_text (es ++ p ∷ [])

unfoldable pub remove : Text → List Text → List Text
remove pattern es = filter_by (λ e. not (e == trim_space pattern)) es

unfoldable pub add_allow : Yaml → Disk → Text → File → Written × File
add_allow yaml disk pattern f = mutate yaml disk (codes "allow") (insert_sorted pattern) f

unfoldable pub add_deny : Yaml → Disk → Text → File → Written × File
add_deny yaml disk pattern f = mutate yaml disk (codes "deny") (insert_sorted pattern) f

unfoldable pub remove_allow : Yaml → Disk → Text → File → Written × File
remove_allow yaml disk pattern f = mutate yaml disk (codes "allow") (remove pattern) f

unfoldable pub remove_deny : Yaml → Disk → Text → File → Written × File
remove_deny yaml disk pattern f = mutate yaml disk (codes "deny") (remove pattern) f

-- An entry that was named as a source, or that the new pattern covers.
unfoldable pub is_replaced : Text → List Text → Text → Bool
is_replaced pattern sources e =
    any (λ s. trim_space s == trim_space e) sources || subsumes pattern e

unfoldable pub generalized : Text → List Text → List Text → List Text
generalized pattern sources es =
    insert_sorted pattern (filter_by (λ e. not (is_replaced pattern sources e)) es)

unfoldable pub generalize : Yaml → Disk → Text → Text → List Text → File → Written × File
generalize yaml disk which pattern sources f =
    if not (which == codes "allow") && not (which == codes "deny")
    then failed WriteError.unknown_list f
    else mutate yaml disk which (generalized pattern sources) f

-- The removal's error does not keep the pattern from being added. The two writes may end differently.
unfoldable pub operator_approve : Yaml → Disk → Disk → Text → File → Written × Written × File
operator_approve yaml disk₁ disk₂ pattern f =
    let (removed, f₁) = remove_deny yaml disk₁ pattern f in
    let (added, f₂) = add_allow yaml disk₂ pattern f₁ in (removed, added, f₂)

unfoldable pub operator_deny : Yaml → Disk → Disk → Text → File → Written × Written × File
operator_deny yaml disk₁ disk₂ pattern f =
    let (removed, f₁) = remove_allow yaml disk₁ pattern f in
    let (added, f₂) = add_deny yaml disk₂ pattern f₁ in (removed, added, f₂)
