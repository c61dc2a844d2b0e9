-- ===== src/Configwrite/Yaml.antt =====
-- internal/configwrite/configwrite.go: the helpers that find, create, read and replace the nodes of a
-- YAML document. A helper of the source returns a pointer into the document, which its caller then
-- changes: here it takes that change as a function.
use trollbridge.Prelude.{
  Bool, true, false, List, [], ◌∷◌, ◌==◌, nat_eq, list_eq, if◌then◌else◌, Option, none, some,
}
use trollbridge.Text.{Text, codes}

-- yaml.Kind, as far as the code distinguishes it.
pub data Kind : Type 0 where
  scalar sequence mapping other_kind : Kind

-- yaml.Node: kind, tag, value, head comment and content. A mapping has its keys and values in turn.
mutual
  pub data Node : Type 0 where
    node : Kind → Text → Text → Text → Nodes → Node

  pub data Nodes : Type 0 where
    nil : Nodes
    cons : Node → Nodes → Nodes

abbrev pub kind_of : Node → Kind
kind_of (node kind tag value comment content) = kind

abbrev pub value_of : Node → Text
value_of (node kind tag value comment content) = value

abbrev pub content_of : Node → Nodes
content_of (node kind tag value comment content) = content

abbrev pub with_content : Nodes → Node → Node
with_content new (node kind tag value comment content) = node kind tag value comment new

abbrev pub is_sequence : Kind → Bool
is_sequence Kind.sequence = true
is_sequence _ = false

abbrev pub is_mapping : Kind → Bool
is_mapping Kind.mapping = true
is_mapping _ = false

abbrev pub is_scalar : Kind → Bool
is_scalar Kind.scalar = true
is_scalar _ = false

abbrev pub string_node : Text → Node
string_node s = node Kind.scalar (codes "!!str") s [] nil

unfoldable pub as_mapping : Node → Node
as_mapping (node kind tag value comment content) =
    if is_mapping kind
    then node kind tag value comment content
    else node Kind.mapping (codes "!!map") [] comment nil

unfoldable pub as_sequence : Node → Node
as_sequence (node kind tag value comment content) =
    if is_sequence kind
    then node kind tag value comment content
    else node Kind.sequence (codes "!!seq") [] comment nil

-- The first value under `key`, which `shape` gives its kind; a new entry at the end if there is none.
unfoldable pub at_child : (Node → Node) → Node → Text → Node → (Node → Node) → Nodes → Nodes
at_child shape key_node key fresh change nil = cons key_node (cons (change fresh) nil)
at_child shape key_node key fresh change (cons k nil) =
    cons k (cons key_node (cons (change fresh) nil))
at_child shape key_node key fresh change (cons k (cons v rest)) =
    let others = at_child shape key_node key fresh change rest in
    if value_of k == key then cons k (cons (change (shape v)) rest) else cons k (cons v others)

-- findOrCreateMappingChild
unfoldable pub at_mapping_child : Text → (Node → Node) → Node → Node
at_mapping_child key change parent =
    with_content
      (at_child as_mapping (string_node key) key (node Kind.mapping (codes "!!map") [] [] nil)
        change (content_of parent))
      parent

-- findOrCreateSeqChild
unfoldable pub at_seq_child : Text → (Node → Node) → Node → Node
at_seq_child key change parent =
    with_content
      (at_child as_sequence (string_node key) key (node Kind.sequence (codes "!!seq") [] [] nil)
        change (content_of parent))
      parent

unfoldable pub strings : Nodes → List Text
strings nil = []
strings (cons n rest) =
    let others = strings rest in if is_scalar (kind_of n) then value_of n ∷ others else others

unfoldable pub strings_from_seq : Node → List Text
strings_from_seq seq = strings (content_of seq)

unfoldable pub string_nodes : List Text → Nodes
string_nodes [] = nil
string_nodes (e ∷ entries) = cons (string_node e) (string_nodes entries)

unfoldable pub replace_seq_content : List Text → Node → Node
replace_seq_content entries seq = with_content (string_nodes entries) seq

-- The value under a key, as a search that creates nothing finds it.
unfoldable pub child : Text → Nodes → Option Node
child key nil = none
child key (cons k nil) = none
child key (cons k (cons v rest)) =
    let others = child key rest in if value_of k == key then some v else others
