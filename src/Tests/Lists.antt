-- ===== src/Tests/Lists.antt =====
-- The flat lists on concrete patterns.
use trollbridge.Prelude.{
  ◌≡◌, ◌⊎◌, refl, true, false, not, List, [], ◌∷◌, ◌++◌, Option, none, some, ok, err, All, is_some,
  any, filter_by,
}
use trollbridge.Prelude.Int.{pos}
use trollbridge.Text.{Text, codes, to_lower, to_upper, trim_space}
use trollbridge.HostList.Parse.{Pattern, parse_pattern}
use trollbridge.HostList.Parse.Wellformed.{IsWellformed, parse_pattern-IsWellformed}
use trollbridge.HostList.Match.{HostList, match, default_path}
use trollbridge.HostList.Match.First.{Covers, match-Covers}
use trollbridge.HostList.Match.Normal.{match-normal}
use trollbridge.HostList.Subsumes.{subsumes}
use trollbridge.HostList.Subsumes.Sound.{subsumes-prune}
use trollbridge.HostList.Sort.{remove_matching}
use trollbridge.HostList.Sort.Remove.{names, remove_matching-removes}
use trollbridge.Tests.Samples.{github, list_of}

abbrev pub star : Text
star = codes "*.github.com"

abbrev pub api : Text
api = codes "api.github.com/repos"

abbrev parsed : Text → Option Pattern
parsed s = elim (parse_pattern s) [ ok p ↦ some p | err _ ↦ none ]

pub star-parses : parse_pattern star ≡ ok (record github { source = []; raw = star })
unfolding trollbridge.HostList.Parse.parse_pattern trollbridge.HostList.Parse.raw_pattern
    trollbridge.HostList.Parse.is_uppercase_letters trollbridge.HostList.Parse.parse_method
    trollbridge.HostList.Parse.parse_scheme trollbridge.HostList.Parse.split_path
    trollbridge.HostList.Parse.split_port trollbridge.HostList.Parse.parse_host
    trollbridge.HostList.Parse.parse_port trollbridge.HostList.Parse.parse_path
    trollbridge.Text.is_upper trollbridge.Text.lower trollbridge.Text.to_lower
    trollbridge.Text.is_space trollbridge.Text.trim_left trollbridge.Text.trim_right
    trollbridge.Text.trim_space trollbridge.Text.strip_prefix trollbridge.Text.has_prefix
    trollbridge.Text.has_suffix trollbridge.Text.trim_prefix trollbridge.Text.trim_suffix
    trollbridge.Text.cut trollbridge.Text.contains trollbridge.Text.cut_byte
    trollbridge.Text.cut_last_byte trollbridge.Text.atoi
star-parses = refl

parse_pattern-IsWellformed_example :
    IsWellformed (record github { source = []; raw = star }) × (star ≡ star)
parse_pattern-IsWellformed_example =
    parse_pattern-IsWellformed star (record github { source = []; raw = star }) star-parses

abbrev ApiHit : Pattern → Type 0
ApiHit =
    Covers (to_upper (trim_space (codes "get"))) (to_lower (trim_space []))
      (to_lower (trim_space (codes "API.github.com"))) (pos 80) (default_path [])

match-Covers_example :
    ((match (some (list_of (github ∷ []))) (codes "get") [] (codes "API.github.com") (pos 80) []
        ≡ none)
      × All (λ q. ¬ ApiHit q) (github ∷ []))
    ⊎ ((q : Pattern) × (us vs : List Pattern) × (match
            (some (list_of (github ∷ [])))
            (codes "get")
            []
            (codes "API.github.com")
            (pos 80)
            []
          ≡ some q)
        × (github ∷ [] ≡ us ++ q ∷ vs)
        × All (λ r. ¬ ApiHit r) us
        × ApiHit q)
match-Covers_example =
    match-Covers (list_of (github ∷ [])) (codes "get") [] (codes "API.github.com") (pos 80) []

abbrev github_list : Option HostList
github_list = some (list_of (github ∷ []))

match-normal_example :
    (match github_list
        (to_upper (trim_space (codes "get")))
        (to_lower (trim_space []))
        (to_lower (trim_space (codes "API.github.com")))
        (pos 80)
        (codes "/x")
      ≡ match github_list (codes "get") [] (codes "API.github.com") (pos 80) (codes "/x"))
    × (match github_list (codes "get") [] (codes "API.github.com") (pos 80) []
        ≡ match github_list (codes "get") [] (codes "API.github.com") (pos 80) (codes "/"))
match-normal_example =
    match-normal github_list (codes "get") [] (codes "API.github.com") (pos 80) (codes "/x")

pub star-subsumes : subsumes star api ≡ true
unfolding trollbridge.HostList.Parse.parse_pattern trollbridge.HostList.Parse.raw_pattern
    trollbridge.HostList.Parse.is_uppercase_letters trollbridge.HostList.Parse.parse_method
    trollbridge.HostList.Parse.parse_scheme trollbridge.HostList.Parse.split_path
    trollbridge.HostList.Parse.split_port trollbridge.HostList.Parse.parse_host
    trollbridge.HostList.Parse.parse_port trollbridge.HostList.Parse.parse_path
    trollbridge.Text.is_upper trollbridge.Text.lower trollbridge.Text.to_lower
    trollbridge.Text.is_space trollbridge.Text.trim_left trollbridge.Text.trim_right
    trollbridge.Text.trim_space trollbridge.Text.strip_prefix trollbridge.Text.has_prefix
    trollbridge.Text.has_suffix trollbridge.Text.trim_prefix trollbridge.Text.trim_suffix
    trollbridge.Text.cut trollbridge.Text.contains trollbridge.Text.cut_byte
    trollbridge.Text.cut_last_byte trollbridge.Text.atoi trollbridge.HostList.Subsumes.host_subsumes
    trollbridge.HostList.Subsumes.path_subsumes trollbridge.HostList.Subsumes.axis_subsumes
    trollbridge.HostList.Subsumes.pattern_subsumes trollbridge.HostList.Subsumes.subsumes
star-subsumes = refl

abbrev pub star_pattern : Pattern
star_pattern = record github { source = []; raw = star }

abbrev pub api_pattern : Pattern
api_pattern = record star_pattern {
  raw = api;
  wildcard_prefix = false;
  host_suffix = [];
  exact_host = codes "api.github.com";
  any_path = false;
  exact_path = codes "/repos";
}

pub api-parses : parse_pattern api ≡ ok api_pattern
unfolding trollbridge.HostList.Parse.parse_pattern trollbridge.HostList.Parse.raw_pattern
    trollbridge.HostList.Parse.is_uppercase_letters trollbridge.HostList.Parse.parse_method
    trollbridge.HostList.Parse.parse_scheme trollbridge.HostList.Parse.split_path
    trollbridge.HostList.Parse.split_port trollbridge.HostList.Parse.parse_host
    trollbridge.HostList.Parse.parse_port trollbridge.HostList.Parse.parse_path
    trollbridge.Text.is_upper trollbridge.Text.lower trollbridge.Text.to_lower
    trollbridge.Text.is_space trollbridge.Text.trim_left trollbridge.Text.trim_right
    trollbridge.Text.trim_space trollbridge.Text.strip_prefix trollbridge.Text.has_prefix
    trollbridge.Text.has_suffix trollbridge.Text.trim_prefix trollbridge.Text.trim_suffix
    trollbridge.Text.cut trollbridge.Text.contains trollbridge.Text.cut_byte
    trollbridge.Text.cut_last_byte trollbridge.Text.atoi
api-parses = refl

subsumes-prune_example :
    is_some
      (match (some (list_of (star_pattern ∷ api_pattern ∷ []))) (codes "GET") [] api (pos 443) [])
    ≡ is_some (match (some (list_of (star_pattern ∷ []))) (codes "GET") [] api (pos 443) [])
subsumes-prune_example =
    subsumes-prune star api star_pattern api_pattern star-parses api-parses star-subsumes
      (codes "list") [] [] (star_pattern ∷ []) [] refl (codes "GET") [] api (pos 443) []

abbrev allow_file : List Text
allow_file = codes "# team" ∷ codes "*.github.com" ∷ [] ∷ codes "api.example.com # ci" ∷ []

remove_matching-removes_example :
    ((remove_matching allow_file (codes "API.example.com")).0
      ≡ filter_by (λ ln. not (names (codes "API.example.com") ln)) allow_file)
    × ((remove_matching allow_file (codes "API.example.com")).1
        ≡ any (names (codes "API.example.com")) allow_file)
    × (any
          (names (codes "API.example.com"))
          (remove_matching allow_file (codes "API.example.com")).0
        ≡ false)
    × (remove_matching
          (remove_matching allow_file (codes "API.example.com")).0
          (codes "API.example.com")
        ≡ ((remove_matching allow_file (codes "API.example.com")).0, false))
remove_matching-removes_example =
    remove_matching-removes allow_file (codes "API.example.com")
      (unfold to_lower trim_space in refl)
