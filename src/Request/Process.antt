-- ===== src/Request/Process.antt =====
-- internal/engine/engine.go: ProcessRequest, over the registry, the chaos injector, the session store
-- and the scenario matcher. The response generator and the tool processor are parameters; tracing and
-- log lines are not modelled. `cancelled` is the test of the context, and the clock is read twice.
use mock_agents.Prelude.{
  ℕ, Bool, String, Option, none, some, List, [], ◌∷◌, map, if◌then◌else◌, ◌⊎◌, inl, inr, Assoc,
}
use mock_agents.Float.{Float64}
use mock_agents.Registry.{AgentDefinition, AgentRegistry}
use mock_agents.Chaos.{RandSource, ChaosConfig, ChaosInjector, ChaosError, before, after}
use mock_agents.Scenarios.{Text, Scenario, MatchResult, ScenarioMatcher, match_with_captures}
use mock_agents.Sessions.{
  MemoryStore, ToolCallMsg, Build, append_user_message, get_or_create, turn_at,
}
use mock_agents.Request.{
  InboundRequest, latest_user_message, latest_user_image_count, is_empty_turn,
}
use mock_agents.Request.Resolve.{resolve_agent_for_tenant}
use mock_agents.Request.SessionKeys.{scoped_session_key}

-- What the engine reads of an agent's spec: `T` are its tools, `RS` the responses of scenarios.
pub record AgentBody (F RS T : Type 0) : Type 0 where
  pub chaos : Option (ChaosConfig F)
  pub scenarios : List (Scenario RS)
  pub tools : T

pub record TemplateContext : Type 0 where
  pub message : String
  pub turn_number : ℕ
  pub session_id : String
  pub captures : Assoc String

pub record ToolCall (A : Type 0) : Type 0 where
  pub name : String
  pub arguments : Assoc A

-- `Q` are the results of tool calls.
pub record Reply (A Q : Type 0) : Type 0 where
  pub content : String
  pub tool_calls : List (ToolCall A)
  pub tool_results : List Q

pub data Failure (E : Type 0) : Type 0 where
  agent_not_found : Failure E
  cancelled_early : Failure E
  chaos_failed : ChaosError → Failure E
  empty_message : Failure E
  turn_failed : E → Failure E

-- The parts of the engine that are parameters; a generator may change the session's variables.
pub record Backend (F RS T A E Q : Type 0) : Type 0 where
  pub generate :
      AgentDefinition (AgentBody F RS T)
      → Scenario RS
      → TemplateContext
      → Assoc A
      → Assoc A × (E ⊎ Reply A Q)
  pub process_tool_calls : List (ToolCall A) → T → List Q
  pub fallback_response : String → RS

module _ (f : Float64) (source : RandSource f.F) (status_text : ℕ → String) (t : Text)
    {RS T A E Q : Type 0} (backend : Backend f.F RS T A E Q) where
  pub record Engine : Type 0 where
    pub registry : AgentRegistry (AgentBody f.F RS T)
    pub states : MemoryStore A E
    pub matcher : ScenarioMatcher t
    pub chaos : ChaosInjector f source status_text

  abbrev pub Agent : Type 0
  Agent = AgentDefinition (AgentBody f.F RS T)

  -- The scenario that was matched, or the built-in fallback.
  abbrev pub chosen : Agent → Option (MatchResult RS) → MatchResult RS
  chosen agent (some m) = m
  chosen agent none = record {
    scenario = record {
      name = "_fallback";
      match_rule = none;
      response = backend.fallback_response agent.name;
    };
    captures = [];
  }

  abbrev pub with_tool_results : Agent → Reply A Q → Reply A Q
  with_tool_results agent reply = elim reply.tool_calls [
    | [] ↦ reply
    | call ∷ calls ↦ record reply {
      tool_results = backend.process_tool_calls (call ∷ calls) agent.rest.tools;
    }
  ]

  abbrev pub finish_reply : Agent → E ⊎ Reply A Q → E ⊎ Reply A Q
  finish_reply agent (inl err) = inl err
  finish_reply agent (inr reply) = inr (with_tool_results agent reply)

  -- The callback of the turn, with the matcher's caches passed on.
  unfoldable pub respond :
      Agent
      → InboundRequest
      → ScenarioMatcher t
      → ℕ
      → Assoc A
      → ScenarioMatcher t × Assoc A × (E ⊎ Reply A Q)
  respond agent req matcher turn variables =
      let message = latest_user_message req.messages in
      let matched =
        match_with_captures t agent.rest.scenarios
          (record {
            user_message = message;
            turn_number = turn;
            image_count = latest_user_image_count req.messages;
          })
          matcher in
      let choice = chosen agent matched.1 in
      let generated =
        backend.generate agent choice.scenario
          (record {
            message = message;
            turn_number = turn;
            session_id = req.session_id;
            captures = choice.captures;
          })
          variables in
      (matched.0, generated.0, finish_reply agent generated.1)

  abbrev pub message_of : ToolCall A → ToolCallMsg A E
  message_of call = record { name = call.name; arguments = call.arguments }

  abbrev pub turn_result : E ⊎ Reply A Q → E ⊎ (String × List (ToolCallMsg A E))
  turn_result (inl err) = inl err
  turn_result (inr reply) = inr (reply.content, map message_of reply.tool_calls)

  abbrev pub build_turn : Agent → InboundRequest → ScenarioMatcher t → Build A E
  build_turn agent req matcher turn variables =
      let out = respond agent req matcher turn variables in (out.1, turn_result out.2)

  abbrev pub answered : E ⊎ Reply A Q → Failure E ⊎ Reply A Q
  answered (inl err) = inl (turn_failed err)
  answered (inr reply) = inr reply

  -- The result, and the time that the request sleeps at its end.
  abbrev pub Processed : Type 0
  Processed = Engine × (Failure E ⊎ Reply A Q) × ℕ

  -- After a turn without an error the injected latency follows.
  abbrev pub finish_request : Agent → Engine → Failure E ⊎ Reply A Q → Processed
  finish_request agent e (inl failure) = (e, inl failure, 0)
  finish_request agent e (inr reply) =
      let slept = after f source status_text agent.rest.chaos e.chaos in
      (record e { chaos = slept.0 }, inr reply, slept.1)

  unfoldable pub take_turn : Agent → InboundRequest → String → ℕ → ℕ → Engine → Processed
  take_turn agent req tenant now later e =
      let got =
        get_or_create A E (scoped_session_key tenant agent.name req.session_id) agent.name now
          e.states in
      let asked =
        append_user_message A E (latest_user_message req.messages) later (got.0.heap got.1) in
      let out = respond agent req e.matcher asked.turn_count asked.variables in
      let turned =
        turn_at A E got.1 (latest_user_message req.messages) (build_turn agent req e.matcher) later
          got.0 in
      finish_request agent (record e { states = turned.0; matcher = out.0 }) (answered out.2)

  -- What comes after the chaos injection.
  abbrev pub unless_faulted :
      Agent → InboundRequest → String → ℕ → ℕ → Engine → Option ChaosError → Processed
  unless_faulted agent req tenant now later e (some fault) = (e, inl (chaos_failed fault), 0)
  unless_faulted agent req tenant now later e none =
      if is_empty_turn req.messages
      then (e, inl empty_message, 0)
      else take_turn agent req tenant now later e

  unfoldable pub process_agent : Agent → InboundRequest → String → Bool → ℕ → ℕ → Engine → Processed
  process_agent agent req tenant cancelled now later e =
      if cancelled
      then (e, inl cancelled_early, 0)
      else (let checked = before f source status_text agent.name agent.rest.chaos now e.chaos in
          unless_faulted agent req tenant now later (record e { chaos = checked.0 }) checked.1)

  unfoldable pub process_request : InboundRequest → String → Bool → ℕ → ℕ → Engine → Processed
  process_request req tenant cancelled now later e =
      elim (resolve_agent_for_tenant (AgentBody f.F RS T) req tenant e.registry) [
        | none ↦ (e, inl agent_not_found, 0)
        | some agent ↦ process_agent agent req tenant cancelled now later e
      ]
