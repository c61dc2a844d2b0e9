-- ===== src/Tests/Codec.antt =====
-- A concrete encoder and parser for the documents of configwrite, as far as their two lists go: a text
-- has 34 in front of each list, 33 in front of each entry, and the bytes of the entries moved up.
use trollbridge.Prelude.{
  ℕ, ◌+◌, ◌-◌, ◌≡◌, refl, ap, ◌∙◌, sym, List, [], ◌∷◌, ◌++◌, Option, none, some, arith, leb, ◌==◌,
  nat_eq, list_eq, if◌then◌else◌, map, zero, suc, Bool-cases, inl, inr, eq→≡,
}
use mathlib.Core.List.{reverse, reverse-cons, append_assoc, append-nil}
use trollbridge.Text.{Text, codes, split_byte, split_from}
use trollbridge.Configwrite.Yaml.{Kind, Node, node, nil, child}
use trollbridge.Configwrite.Blanks.{
  BlankAnchor, trim_right_blanks, blank_lines, insert_blanks, join_lines, reinsert_blank_lines,
}
use trollbridge.Configwrite.Edit.{Yaml, lists_content, map_content, list_entries, set_entries}
use trollbridge.Configwrite.Frame.{
  IsConfig, list_entries-set_entries, list_entries-set_entries_ne, set_entries-IsConfig,
}
use trollbridge.Configwrite.Outcomes.{Keeps}

-- The entry, the list and the lists that are being read, from the right.
abbrev State : Type 0
State = Text × List Text × List (List Text)

abbrev take : ℕ → State → State
take c (e, es, ess) =
    if c == 34
    then ([], [], es ∷ ess)
    else if c == 33
    then ([], e ∷ es, ess)
    else if leb 100 c
    then ((c - 100) ∷ e, es, ess)
    else (e, es, ess)

abbrev read : Text → State → State
read [] st = st
read (c ∷ s) st = take c (read s st)

abbrev read_lines : List Text → State → State
read_lines [] st = st
read_lines (l ∷ ls) st = read l (read_lines ls st)

abbrev put_list : List Text → Text
put_list [] = []
put_list (e ∷ es) = 33 ∷ (map (λ c. c + 100) e ++ put_list es)

read-append : (s t : Text) (st : State) → read (s ++ t) st ≡ read s (read t st)
read-append [] t st = refl
read-append (c ∷ s) t st = ap (take c) (read-append s t st)

read-entry :
    (e acc : Text) (es : List Text) (ess : List (List Text))
    → read (map (λ c. c + 100) e) (acc, es, ess) ≡ (e ++ acc, es, ess)
read-entry [] acc es ess = refl
read-entry (c ∷ e) acc es ess = ap (take (c + 100)) (read-entry e acc es ess) ∙ ground arith

read-put_list :
    (new : List Text) (ess : List (List Text)) → read (put_list new) ([], [], ess) ≡ ([], new, ess)
read-put_list [] ess = refl
read-put_list (e ∷ es) ess =
    ap (take 33) (
      read-append (map (λ c. c + 100) e) (put_list es) ([], [], ess)
      ∙ ap (read (map (λ c. c + 100) e)) (read-put_list es ess)
      ∙ read-entry e [] es ess)
    ∙ ap {B = State} (λ (x : Text). ([], x ∷ es, ess)) (append-nil e)

take_feed : (st : State) → take 10 st ≡ st
take_feed (e, es, ess) = refl

read-split :
    (word s : Text) (st : State)
    → read_lines (split_from 10 word s) st ≡ read (reverse word ++ s) st
unfolding split_from
read-split word [] st = ap (λ (t : Text). read t st) (sym (append-nil (reverse word)))
read-split word (c ∷ s) st = elim (Bool-cases (c == 10)) [
  | inl e ↦
      let feed : c ≡ 10 = eq→≡ c 10 e in
      rw e (
        ap (read (reverse word)) (
          read-split [] s st
          ∙ sym (take_feed (read s st))
          ∙ ap (λ x. take x (read s st)) (sym feed))
        ∙ sym (read-append (reverse word) (c ∷ s) st))
  | inr e ↦ rw e (
      read-split (c ∷ word) s st
      ∙ ap (λ (t : Text). read t st)
          (ap (λ (t : Text). t ++ s) (reverse-cons c word)
            ∙ append_assoc (reverse word) (c ∷ []) s))
]

read-join : (ls : List Text) (st : State) → read (join_lines ls) st ≡ read_lines ls st
unfolding join_lines
read-join [] st = refl
read-join (l ∷ []) st = refl
read-join (l ∷ k ∷ ls) st =
    read-append l (10 ∷ join_lines (k ∷ ls)) st
    ∙ ap (read l) (take_feed (read (join_lines (k ∷ ls)) st) ∙ read-join (k ∷ ls) st)

read-blank_lines :
    (n : ℕ) (ls : List Text) (st : State) → read_lines (blank_lines n ++ ls) st ≡ read_lines ls st
read-blank_lines zero ls st = refl
read-blank_lines (suc n) ls st = read-blank_lines n ls st

read-insert_blanks :
    (blanks : List BlankAnchor) (ls : List Text) (st : State)
    → read_lines (insert_blanks blanks ls) st ≡ read_lines ls st
unfolding insert_blanks
read-insert_blanks blanks [] st = refl
read-insert_blanks [] (l ∷ ls) st = ap (read l) (read-insert_blanks [] ls st)
read-insert_blanks (a ∷ blanks) (l ∷ ls) st = elim (Bool-cases (trim_right_blanks l == a.line)) [
  | inl e ↦ rw e (
      read-blank_lines a.blank_before (l ∷ insert_blanks blanks ls) st
      ∙ ap (read l) (read-insert_blanks blanks ls st))
  | inr e ↦ rw e (ap (read l) (read-insert_blanks (a ∷ blanks) ls st))
]

read-reinsert :
    (s : Text) (blanks : List BlankAnchor) (st : State)
    → read (reinsert_blank_lines s blanks) st ≡ read s st
unfolding reinsert_blank_lines split_byte
read-reinsert s [] st = refl
read-reinsert s (a ∷ blanks) st =
    read-join (insert_blanks (a ∷ blanks) (split_from 10 [] s)) st
    ∙ read-insert_blanks (a ∷ blanks) (split_from 10 [] s) st
    ∙ read-split [] s st

abbrev allow_key : Text
allow_key = codes "allow"

abbrev deny_key : Text
deny_key = codes "deny"

abbrev empty_map : Node
empty_map = node Kind.mapping (codes "!!map") [] [] nil

-- A document with the two lists.
abbrev pub document : List Text → List Text → Node
document allowed denied = set_entries deny_key denied (set_entries allow_key allowed empty_map)

empty-IsConfig : IsConfig empty_map
unfolding lists_content map_content child
empty-IsConfig = record { mapped = refl; top_pairs = refl; list_pairs = refl }

abbrev found : List (List Text) → Option (Option Node)
found [] = none
found (a ∷ []) = none
found (a ∷ d ∷ rest) = some (some (document a d))

abbrev pub codec : Yaml
codec = record {
  encode = λ doc.
      34 ∷ (put_list (list_entries allow_key doc) ++ 34 ∷ put_list (list_entries deny_key doc));
  unmarshal = λ s. found (read s ([], [], [])).2;
}

read-encoded :
    (a d : List Text)
    → read (34 ∷ (put_list a ++ 34 ∷ put_list d)) ([], [], []) ≡ ([], [], a ∷ d ∷ [])
read-encoded a d = ap (take 34) (
    read-append (put_list a) (34 ∷ put_list d) ([], [], [])
    ∙ ap (λ st. read (put_list a) (take 34 st)) (read-put_list d [])
    ∙ read-put_list a (d ∷ []))

document-IsConfig : (a d : List Text) → IsConfig (document a d)
document-IsConfig a d =
    set_entries-IsConfig deny_key d (set_entries allow_key a empty_map)
      (set_entries-IsConfig allow_key a empty_map empty-IsConfig)

pub document-allow : (a d : List Text) → list_entries allow_key (document a d) ≡ a
document-allow a d =
    list_entries-set_entries_ne deny_key d (set_entries allow_key a empty_map)
      (set_entries-IsConfig allow_key a empty_map empty-IsConfig) allow_key (λ e. cc)
    ∙ list_entries-set_entries allow_key a empty_map empty-IsConfig

pub document-deny : (a d : List Text) → list_entries deny_key (document a d) ≡ d
document-deny a d =
    list_entries-set_entries deny_key d (set_entries allow_key a empty_map)
      (set_entries-IsConfig allow_key a empty_map empty-IsConfig)

unmarshal-encode :
    (doc : Node) (blanks : List BlankAnchor)
    → codec.unmarshal (reinsert_blank_lines (codec.encode doc) blanks)
      ≡ some (some (document (list_entries allow_key doc) (list_entries deny_key doc)))
unmarshal-encode doc blanks =
    ap (λ (st : State). found st.2)
      (read-reinsert (codec.encode doc) blanks ([], [], [])
        ∙ read-encoded (list_entries allow_key doc) (list_entries deny_key doc))

pub codec-Keeps : Keeps codec
codec-Keeps = record {
  kept = λ doc blanks v one_allow one_deny. (
    document (list_entries allow_key doc) (list_entries deny_key doc),
    unmarshal-encode doc blanks,
    document-IsConfig (list_entries allow_key doc) (list_entries deny_key doc),
    document-allow (list_entries allow_key doc) (list_entries deny_key doc),
    document-deny (list_entries allow_key doc) (list_entries deny_key doc),
  );
}

abbrev pub settings : Node
settings = document (codes "api.github.com" ∷ []) (codes "evil.com" ∷ [])

pub settings-IsConfig : IsConfig settings
settings-IsConfig = document-IsConfig (codes "api.github.com" ∷ []) (codes "evil.com" ∷ [])

-- The bytes of a file that holds these settings.
abbrev pub settings_text : Text
settings_text = codec.encode settings

pub settings-parses : codec.unmarshal settings_text ≡ some (some settings)
settings-parses =
    ap (λ (st : State). found st.2)
      (read-encoded (list_entries allow_key settings) (list_entries deny_key settings))
    ∙ ap (λ a. some (some (document a (list_entries deny_key settings))))
        (document-allow (codes "api.github.com" ∷ []) (codes "evil.com" ∷ []))
    ∙ ap (λ d. some (some (document (codes "api.github.com" ∷ []) d)))
        (document-deny (codes "api.github.com" ∷ []) (codes "evil.com" ∷ []))
