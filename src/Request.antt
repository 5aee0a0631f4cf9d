-- ===== src/Request.antt =====
-- internal/engine/engine.go: what a request is matched by.
pub mod Latest
pub mod Resolve
pub mod SessionKeys
pub mod Process
pub mod Isolation
mod Examples
use mock_agents.Prelude.{
  ℕ, Bool, true, false, String, List, [], ◌∷◌, if◌then◌else◌, str_eq, reverse, ◌==◌, ◌&&◌,
}

pub record RequestMessage : Type 0 where
  pub role : String
  pub content : String
  pub image_count : ℕ

pub record InboundRequest : Type 0 where
  pub agent_name : String
  pub model : String
  pub session_id : String
  pub messages : List RequestMessage
  pub stream : Bool

-- The loops run from the last message on.
unfoldable pub text_from : List RequestMessage → String
text_from [] = ""
text_from (m ∷ ms) = if str_eq m.role "user" then m.content else text_from ms

unfoldable pub latest_user_message : List RequestMessage → String
latest_user_message messages = text_from (reverse messages)

unfoldable pub image_count_from : List RequestMessage → ℕ
image_count_from [] = 0
image_count_from (m ∷ ms) = if str_eq m.role "user" then m.image_count else image_count_from ms

unfoldable pub latest_user_image_count : List RequestMessage → ℕ
latest_user_image_count messages = image_count_from (reverse messages)

-- The test by which ProcessRequest turns a request away as empty.
unfoldable pub is_empty_turn : List RequestMessage → Bool
is_empty_turn messages =
    str_eq (latest_user_message messages) "" && latest_user_image_count messages == 0
