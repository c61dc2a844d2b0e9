-- ===== src/Tests/Samples.antt =====
-- Requests, patterns, rules and queues for the examples.
use trollbridge.Prelude.{ℕ, true, false, List, [], ◌∷◌, Option, none, some}
use trollbridge.Prelude.Int.{pos}
use trollbridge.Text.{Text, codes}
use trollbridge.Types.{
  RequestEvent, Decision, DecisionSource, decision_of, effect_allow, effect_ask_user,
}
use trollbridge.HostList.Parse.{Pattern}
use trollbridge.HostList.Match.{HostList}
use trollbridge.Policy.Rule.{Match, Rule, Host, EvalContext}
use trollbridge.Policy.Reload.{Engine, Loader}
use trollbridge.Approvals.Store.{Queue, new}
use trollbridge.Approvals.Enqueue.{mint}
use trollbridge.Server.Gate.{Server}
use trollbridge.Server.OpenMode.{OpenMode}

abbrev pub request : RequestEvent
request = record {
  id = codes "r1";
  session_id = codes "s1";
  identity_id = codes "alice";
  timestamp = 1000;
  method = codes "GET";
  scheme = codes "http";
  host = codes "api.github.com";
  port = pos 80;
  path = codes "/repos";
  headers = [];
  client_addr = codes "10.0.0.1:5000";
  body_available = false;
  body_size = 0;
  body_sample = [];
  matched_pattern = none;
}

abbrev pub github : Pattern
github = record {
  source = codes "deny[0]";
  raw = codes "*.github.com";
  any_method = true;
  method = [];
  any_scheme = true;
  scheme = [];
  wildcard_all_hosts = false;
  wildcard_prefix = true;
  host_suffix = codes ".github.com";
  exact_host = [];
  any_port = true;
  port = pos 0;
  any_path = true;
  path_prefix = [];
  exact_path = [];
  match_prefix = false;
}

abbrev pub list_of : List Pattern → HostList
list_of ps = record { name = codes "list"; patterns = ps }

abbrev pub any_match : Match
any_match = record {
  host = [];
  port = [];
  method = [];
  path = [];
  path_prefix = [];
  path_regex = [];
  header_match = [];
  identity = [];
  content_type = [];
  body_pattern = [];
  time = none;
  prior_decision = none;
  pattern = [];
  components = [];
}

abbrev pub rule_of : Text → ℕ → Text → Rule
rule_of id priority effect = record {
  id = id;
  description = [];
  priority = pos priority;
  matcher = record any_match { host = codes "*.github.com" ∷ [] };
  effect = effect;
  modifiers = [];
  expires = [];
}

abbrev pub asking : Rule
asking = rule_of (codes "ask-github") 200 effect_ask_user

abbrev pub allowing : Rule
allowing = rule_of (codes "allow-github") 100 effect_allow

-- No expression compiles, and no zone loads.
abbrev pub bare_host_env : Host
bare_host_env = record { regexp = λ s. none; zones = λ s. none }

abbrev pub engine_of : List Rule → Engine
engine_of rules = record {
  mode = codes "default-deny";
  include = codes "rules.yaml" ∷ [];
  rules = rules;
  version = codes "v1";
  known_modifiers = [];
  patterns = none;
  history = record { buf = []; cap = 4 };
}

-- One file, which holds the two rules in the wrong order.
abbrev pub loader : Loader
loader = record {
  read = λ path. some (codes "rules");
  parse = λ bytes. some (allowing ∷ asking ∷ []);
  digest = λ bytes. codes "v2";
}

abbrev pub context : EvalContext
context = record { now = 1000; history = none }

abbrev pub closed_window : OpenMode
closed_window = record { until = 0; press_count = 0 }

abbrev pub server_of : Option HostList → Option HostList → List Rule → Server
server_of allow deny rules = record {
  allow = allow;
  deny = deny;
  engine = engine_of rules;
  open_mode = closed_window;
}

abbrev pub base : Decision
base = decision_of effect_ask_user DecisionSource.rule (codes "ask")

abbrev pub empty_queue : Queue
empty_queue = new 1 5 (codes "deny")

-- A queue with one hold, which one client waits for.
abbrev pub held_queue : Queue
held_queue = mint (codes "hold-1") 1000 request base empty_queue
