-- ===== src/Pipelines/Nodes.antt =====
-- internal/engine/pipeline.go: one call of invokeNode.
use mock_agents.Prelude.{String, Option, ◌≡◌, refl, by_test, str_eq}
use mock_agents.Request.{InboundRequest}
use mock_agents.Pipelines.{PipelineAgent, PipelineError, Response, NodeResult, invoke_node}

module _ {R E W : Type 0} (process : InboundRequest → W → W × Option (Response R) × Option E) where
  -- The result is of the node that was called.
  pub invoke_node-node_id :
      (name : String) (node : PipelineAgent) (input session : String) (w : W)
      → (invoke_node process name node input session w).1.node_id ≡ node.id
  unfolding invoke_node
  invoke_node-node_id name node input session w =
      by_test (λ (x : W × NodeResult R × Option (PipelineError E)). x.1.node_id ≡ node.id)
        (str_eq node.ref "") _ _ (λ _. refl) (λ _. refl)
