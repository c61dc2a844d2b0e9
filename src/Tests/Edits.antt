-- ===== src/Tests/Edits.antt =====
-- The edits of the configuration file, on a document with two lists.
use mathlib.Core.Path.{subst}
use trollbridge.Prelude.{
  any, ◌==◌, nat_eq, ℕ, ◌≡◌, refl, sym, ap, arith, ◌∙◌, true, false, List, [], ◌∷◌, Option, some,
  none, ok, is_some, is_empty,
}
use trollbridge.Prelude.Int.{pos}
use trollbridge.Text.{Text, codes, trim_space}
use trollbridge.HostList.Parse.{Pattern, parse_pattern}
use trollbridge.HostList.Match.{HostList, match, entry_text, load_inline}
use trollbridge.Configwrite.Edit.{
  File, Disk, list_entries, insert_sorted, operator_approve, operator_deny, generalized,
}
use trollbridge.Configwrite.Outcomes.{IsOneLine}
use trollbridge.Configwrite.Operator.{Decides, operator-Decides}
use trollbridge.Configwrite.Generalize.{generalized-match}
use trollbridge.Configwrite.Edit.{is_replaced}
use trollbridge.Tests.Codec.{
  codec, codec-Keeps, document-allow, document-deny, settings, settings_text, settings-parses,
  settings-IsConfig,
}
use trollbridge.Tests.Lists.{
  star, api, star_pattern, api_pattern, star-parses, api-parses, star-subsumes,
}

one_allow : IsOneLine (list_entries (codes "allow") settings)
one_allow =
    subst IsOneLine (sym (document-allow (codes "api.github.com" ∷ []) (codes "evil.com" ∷ [])))
      (refl, tt)

one_deny : IsOneLine (list_entries (codes "deny") settings)
one_deny =
    subst IsOneLine (sym (document-deny (codes "api.github.com" ∷ []) (codes "evil.com" ∷ [])))
      (refl, tt)

one_pattern : any (λ c. c == 10) (trim_space (codes " evil.com ")) ≡ false
unfolding trim_space
one_pattern = refl

not_blank : is_empty (trim_space (codes " evil.com ")) ≡ false
unfolding trim_space
not_blank = refl

operator-Decides_example :
    Decides codec (codes "deny") (codes "allow") (trim_space (codes " evil.com ")) settings (
      operator_approve codec Disk.writes Disk.writes
        (codes " evil.com ")
        (File.bytes settings_text))
    × Decides codec (codes "allow") (codes "deny") (trim_space (codes " evil.com ")) settings (
        operator_deny codec Disk.writes Disk.writes (codes " evil.com ") (File.bytes settings_text))
operator-Decides_example =
    operator-Decides codec codec-Keeps Disk.writes Disk.writes (codes " evil.com ") settings
      settings_text settings-parses settings-IsConfig one_allow one_deny one_pattern not_blank

abbrev narrow : HostList
narrow = record {
  name = codes "allow";
  patterns = record api_pattern { source = codes "allow" } ∷ [];
}

abbrev wide : HostList
wide = record {
  name = codes "allow";
  patterns = record star_pattern { source = codes "allow" } ∷ [];
}

abbrev labels : ℕ → Text
labels i = codes "allow"

star-plain : entry_text star ≡ some star
unfolding entry_text trim_space trollbridge.Text.has_prefix trollbridge.Text.cut
star-plain = refl

api-plain : entry_text api ≡ some api
unfolding entry_text trim_space trollbridge.Text.has_prefix trollbridge.Text.cut
api-plain = refl

star-trimmed : trim_space star ≡ star
unfolding trim_space
star-trimmed = refl

loads_one :
    (e line : Text) (p : Pattern)
    → entry_text e ≡ some line
    → parse_pattern line ≡ ok p
    → load_inline (codes "allow") labels (e ∷ [])
      ≡ ok (record { name = codes "allow"; patterns = record p { source = codes "allow" } ∷ [] })
unfolding load_inline trollbridge.HostList.Match.load_from
loads_one e line p plain parses = ground (arith, plain, parses)

narrow-loads : load_inline (codes "allow") labels (api ∷ []) ≡ ok narrow
narrow-loads = loads_one api api api_pattern api-plain api-parses

replaced : is_replaced star (api ∷ []) api ≡ true
unfolding is_replaced trim_space
replaced = refl

one_entry : generalized star (api ∷ []) (api ∷ []) ≡ star ∷ []
unfolding generalized insert_sorted trim_space trollbridge.Prelude.Sort.sort_stable
one_entry = rw (replaced, insert_sorted) refl

wide-loads : load_inline (codes "allow") labels (generalized star (api ∷ []) (api ∷ [])) ≡ ok wide
wide-loads =
    ap (load_inline (codes "allow") labels) one_entry
    ∙ loads_one star star star_pattern star-plain star-parses

api-hit :
    is_some
      (match (some narrow) (codes "GET") [] (codes "api.github.com") (pos 443) (codes "/repos"))
    ≡ true
unfolding match trollbridge.Text.to_lower trim_space
api-hit = refl

generalized-match_example :
    is_some (match (some wide) (codes "GET") [] (codes "api.github.com") (pos 443) (codes "/repos"))
    ≡ true
generalized-match_example =
    generalized-match star (api ∷ []) (api ∷ []) (codes "allow") labels labels narrow wide
      (api-plain, tt) (replaced ∙ sym star-subsumes, tt) star-trimmed star-plain narrow-loads
      wide-loads (codes "GET") [] (codes "api.github.com") (pos 443) (codes "/repos") api-hit
