-- ===== src/Request/Isolation.antt =====
-- internal/engine/engine.go: the requests of one tenant and the sessions of another.
use mock_agents.Prelude.{
  ℕ, Bool, false, String, Option, none, some, List, [], ◌∷◌, str_eq, ◌⊎◌, inl, inr, ◌≡◌, refl, sym,
  ap, ◌∙◌, by_test, Bool-cases, str_eq→eq, str_eq_refl, subst,
}
use mock_agents.Float.{Float64}
use mock_agents.Chaos.{RandSource, ChaosError, before}
use mock_agents.Scenarios.{Text}
use mock_agents.Sessions.{get_or_create}
use mock_agents.Sessions.Lifetime.{Store, IsWellFormed}
use mock_agents.Sessions.Calls.{get_or_create-IsWellFormed, turn_at-IsWellFormed}
use mock_agents.Sessions.Isolation.{view, turn-view}
use mock_agents.Request.{InboundRequest, latest_user_message, is_empty_turn}
use mock_agents.Request.Resolve.{resolve_agent_for_tenant}
use mock_agents.Request.SessionKeys.{NoNul, scoped_session_key, scoped_session_key_lem}
use mock_agents.Request.Process.{
  AgentBody, Backend, Engine, Agent, Reply, Failure, Processed, build_turn, finish_request,
  take_turn, unless_faulted, process_agent, process_request,
}

module _ (f : Float64) (source : RandSource f.F) (status_text : ℕ → String) (t : Text)
    {RS T A E Q : Type 0} (backend : Backend f.F RS T A E Q) where
  -- Nothing of what the other tenant sees has changed, and the store is well-formed.
  abbrev pub Unseen : String → Store A E → Store A E → Type 0
  Unseen other st later =
      IsWellFormed A E later
      × ((agent session : String)
          → view A E (scoped_session_key other agent session) later
            ≡ view A E (scoped_session_key other agent session) st)

  other_key :
      (tenant other agent agent' session session' : String)
      → NoNul tenant
      → NoNul other
      → str_eq tenant other ≡ false
      → str_eq (scoped_session_key tenant agent session) (scoped_session_key other agent' session')
        ≡ false
  other_key tenant other agent agent' session session' n m differs =
      elim (Bool-cases (
        str_eq (scoped_session_key tenant agent session)
          (scoped_session_key other agent' session'))) [
            | inr distinct ↦ distinct
            | inl same ↦
                let keys =
                  scoped_session_key_lem tenant other agent agent' session session' n m
                    (str_eq→eq _ _ same) in
                absurd (cc (sym differs ∙ ap (λ k. str_eq k other) keys.0 ∙ str_eq_refl other))
          ]

  finish_request-states :
      (agent : Agent f source status_text t backend) (e : Engine f source status_text t backend)
      (out : Failure E ⊎ Reply A Q)
      → (finish_request f source status_text t backend agent e out).0.states ≡ e.states
  finish_request-states agent e (inl failure) = refl
  finish_request-states agent e (inr reply) = refl

  take_turn-Unseen :
      (agent : Agent f source status_text t backend) (req : InboundRequest) (tenant other : String)
      (now later : ℕ) (e : Engine f source status_text t backend)
      → NoNul tenant
      → NoNul other
      → str_eq tenant other ≡ false
      → IsWellFormed A E e.states
      → Unseen other e.states
          (take_turn f source status_text t backend agent req tenant now later e).0.states
  unfolding take_turn
  take_turn-Unseen agent req tenant other now later e n m differs v =
      let key = scoped_session_key tenant agent.name req.session_id in
      let message = latest_user_message req.messages in
      let build = build_turn f source status_text t backend agent req e.matcher in
      let got = get_or_create A E key agent.name now e.states in
      subst (λ x. Unseen other e.states x) (sym (finish_request-states agent _ _))
        (
          turn_at-IsWellFormed A E got.1 message build later got.0
              (get_or_create-IsWellFormed A E key agent.name now e.states v),
          (λ agent' session'.
              turn-view A E key agent.name message build now later e.states
                (scoped_session_key other agent' session') v
                (other_key tenant other agent.name agent' req.session_id session' n m differs)),
        )

  unless_faulted-Unseen :
      (agent : Agent f source status_text t backend) (req : InboundRequest) (tenant other : String)
      (now later : ℕ) (e : Engine f source status_text t backend) (fault : Option ChaosError)
      → NoNul tenant
      → NoNul other
      → str_eq tenant other ≡ false
      → IsWellFormed A E e.states
      → Unseen other e.states
          (unless_faulted f source status_text t backend agent req tenant now later e
            fault).0.states
  unless_faulted-Unseen agent req tenant other now later e (some fault) n m differs v =
      (v, (λ _ _. refl))
  unless_faulted-Unseen agent req tenant other now later e none n m differs v =
      by_test (λ (x : Processed f source status_text t backend). Unseen other e.states x.0.states)
        (is_empty_turn req.messages) _ _ (λ _. (v, (λ _ _. refl)))
        (λ _. take_turn-Unseen agent req tenant other now later e n m differs v)

  process_request-Unseen :
      (req : InboundRequest) (tenant other : String) (cancelled : Bool) (now later : ℕ)
      (e : Engine f source status_text t backend)
      → NoNul tenant
      → NoNul other
      → str_eq tenant other ≡ false
      → IsWellFormed A E e.states
      → Unseen other e.states
          (process_request f source status_text t backend req tenant cancelled now later e).0.states
  unfolding process_request process_agent
  process_request-Unseen req tenant other cancelled now later e n m differs v =
      at_agent (resolve_agent_for_tenant (AgentBody f.F RS T) req tenant e.registry)
    where
      at_agent :
          (o : Option (Agent f source status_text t backend))
          → Unseen other e.states
              (elim o as (λ _. Processed f source status_text t backend) [
                | none ↦ (e, inl Failure.agent_not_found, 0)
                | some agent ↦
                    process_agent f source status_text t backend agent req tenant cancelled now
                      later e
              ]).0.states
      at_agent none = (v, (λ _ _. refl))
      at_agent (some agent) =
          let checked = before f source status_text agent.name agent.rest.chaos now e.chaos in
          by_test
            (λ (x : Processed f source status_text t backend). Unseen other e.states x.0.states)
            cancelled _ _ (λ _. (v, (λ _ _. refl)))
            (λ _.
              unless_faulted-Unseen agent req tenant other now later
                (record e { chaos = checked.0 }) checked.1 n m differs v)

  pub record Arrival : Type 0 where
    pub request : InboundRequest
    pub cancelled : Bool
    pub now : ℕ
    pub later : ℕ

  -- The requests of a tenant, one after the other.
  abbrev pub process_all :
      String
      → List Arrival
      → Engine f source status_text t backend
      → Engine f source status_text t backend
  process_all tenant [] e = e
  process_all tenant (a ∷ rest) e =
      process_all tenant rest
        (process_request f source status_text t backend a.request tenant a.cancelled a.now a.later
          e).0

  -- Whatever requests a tenant makes, answered or failed, from a well-formed store: no session that
  -- another tenant's keys lead to is changed, added or dropped, when the two tenant ids have no NUL;
  -- and the store is well-formed after them.
  pub process_all-Unseen :
      (arrivals : List Arrival) (tenant other : String) (e : Engine f source status_text t backend)
      → NoNul tenant
      → NoNul other
      → str_eq tenant other ≡ false
      → IsWellFormed A E e.states
      → Unseen other e.states (process_all tenant arrivals e).states
  process_all-Unseen [] tenant other e n m differs v = (v, (λ _ _. refl))
  process_all-Unseen (a ∷ rest) tenant other e n m differs v =
      let first =
        process_request-Unseen a.request tenant other a.cancelled a.now a.later e n m differs v in
      let next =
        (process_request f source status_text t backend a.request tenant a.cancelled a.now a.later
          e).0 in
      let others = process_all-Unseen rest tenant other next n m differs first.0 in
      (others.0, (λ agent session. others.1 agent session ∙ first.1 agent session))
