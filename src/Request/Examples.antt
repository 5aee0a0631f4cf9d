-- ===== src/Request/Examples.antt =====
-- Requests of one tenant for a global agent, and another tenant with a session of its own.
use Prim.Native.Char.{Char, code}
use mock_agents.Prelude.{
  none, true, inr, pos, ◌<◌, arith, ap, ℕ, String, false, some, lookup, insert, delete, List, [],
  ◌∷◌, ◌≡◌, refl,
}
use mock_agents.Request.{InboundRequest, RequestMessage}
use mock_agents.Request.Resolve.{
  Visible, resolve_agent_for_tenant, resolve_agent_for_tenant-Visible,
}
use mock_agents.Request.SessionKeys.{scoped_session_key, NoNul}
use mock_agents.Registry.{
  AgentDefinition, new_agent_registry, get_for_tenant, get_by_model_for_tenant, register,
  register_locked, rebuild_model_bucket, scan_agents, scan_bucket,
}
use mock_agents.Registry.History.{Change, registered, apply_change, history}
use mock_agents.Registry.{AgentRegistry}
use mock_agents.Chaos.{new_chaos_injector}
use mock_agents.Scenarios.{new_scenario_matcher}
use mock_agents.Sessions.{new_memory_store}
use mock_agents.Sessions.Lifetime.{Store}
use mock_agents.Sessions.Calls.{gets_or_creates, run, run-IsWellFormed}
use mock_agents.Request.Process.{AgentBody, Backend, Engine}
use mock_agents.Request.Isolation.{Unseen, Arrival, process_all, process_all-Unseen}
use mock_agents.Samples.{whole, last, plain}

abbrev asked : List RequestMessage
asked =
    record { role = "user"; content = "what is this?"; image_count = 0 }
    ∷ record { role = "assistant"; content = "show me"; image_count = 0 }
    ∷ []

abbrev agent : AgentDefinition ℕ
agent = record { address = 1; tenant_id = "acme"; name = "helper"; model = "gpt"; rest = 0 }

abbrev changes : List (Change ℕ)
changes = registered (some agent) ∷ []

abbrev asking : InboundRequest
asking = record {
  agent_name = "";
  model = "gpt";
  session_id = "s";
  messages = asked;
  stream = false;
}

resolve_agent_for_tenant-Visible_example :
    Visible ℕ "acme" (history ℕ changes (new_agent_registry ℕ)) agent
unfolding resolve_agent_for_tenant get_for_tenant get_by_model_for_tenant apply_change register
    register_locked rebuild_model_bucket scan_agents scan_bucket new_agent_registry lookup insert
    delete
resolve_agent_for_tenant-Visible_example =
    resolve_agent_for_tenant-Visible ℕ changes asking "acme" agent refl

abbrev acme : String
acme = "acme"

other_char : (c d : Char) → code d < code c → c ≡ d → ⊥
other_char c d h e = omega (arith, h, ap code e)

acme-NoNul : NoNul acme
acme-NoNul = (
  other_char "a" "\0" (ground arith),
  (
    other_char "c" "\0" (ground arith),
    (other_char "m" "\0" (ground arith), (other_char "e" "\0" (ground arith), tt)),
  ),
)

abbrev globex : String
globex = "globex"

globex-NoNul : NoNul globex
globex-NoNul = (
  other_char "g" "\0" (ground arith),
  (
    other_char "l" "\0" (ground arith),
    (
      other_char "o" "\0" (ground arith),
      (
        other_char "b" "\0" (ground arith),
        (other_char "e" "\0" (ground arith), (other_char "x" "\0" (ground arith), tt)),
      ),
    ),
  ),
)

-- An agent without scenarios, on a generator that answers with what it is given.
abbrev body : AgentBody ℕ String (Unit {0})
body = record { chaos = none; scenarios = []; tools = tt }

abbrev echo : Backend ℕ String (Unit {0}) ℕ String ℕ
echo = record {
  generate = λ agent scenario ctx variables.
      (variables, inr (record { content = scenario.response; tool_calls = []; tool_results = [] }));
  process_tool_calls = λ calls tools. [];
  fallback_response = λ name. name;
}

abbrev status : ℕ → String
status code = "error"

abbrev served : AgentRegistry (AgentBody ℕ String (Unit {0}))
unfolding apply_change register register_locked rebuild_model_bucket scan_agents scan_bucket
    new_agent_registry insert lookup delete
served =
    history (AgentBody ℕ String (Unit {0}))
      (registered (
          some
            (record { address = 1; tenant_id = ""; name = "helper"; model = "gpt"; rest = body }))
        ∷ [])
      (new_agent_registry (AgentBody ℕ String (Unit {0})))

-- The other tenant has a session before.
abbrev states : Store ℕ String
states =
    run ℕ String (gets_or_creates (scoped_session_key globex "helper" "s") "helper" 3 ∷ [])
      (new_memory_store ℕ String (pos 60))

abbrev engine : Engine whole last status plain echo
engine = record {
  registry = served;
  states = states;
  matcher = new_scenario_matcher plain;
  chaos = new_chaos_injector whole last status tt;
}

abbrev arrivals : List (Arrival whole last status plain echo)
arrivals =
    record { request = asking; cancelled = false; now = 5; later = 6 }
    ∷ record { request = asking; cancelled = true; now = 7; later = 8 }
    ∷ []

process_all-Unseen_example :
    Unseen whole last status plain echo globex engine.states
      (process_all whole last status plain echo acme arrivals engine).states
process_all-Unseen_example =
    process_all-Unseen whole last status plain echo arrivals acme globex engine acme-NoNul
      globex-NoNul refl
      (run-IsWellFormed ℕ String
        (gets_or_creates (scoped_session_key globex "helper" "s") "helper" 3 ∷ []) (pos 60))
