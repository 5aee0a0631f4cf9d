-- ===== src/Chaos/Config.antt =====
-- The chaos block of an agent (internal/types/behavior.go) and whether it is in force
-- (internal/engine/chaos.go).
use mock_agents.Prelude.{
  ℕ, Bool, true, false, not, ◌&&◌, ◌||◌, String, Option, none, some, List, if◌then◌else◌,
}

pub record LatencyConfig : Type 0 where
  pub distribution : String
  pub min_ms : ℕ
  pub max_ms : ℕ
  pub mean_ms : ℕ
  pub stddev_ms : ℕ

pub record RateLimitConfig : Type 0 where
  pub requests : ℕ
  pub window_ms : ℕ

module _ (F : Type 0) where
  pub record ErrorConfig : Type 0 where
    pub rate : F
    pub status_code : ℕ
    pub status_codes : List ℕ
    pub timeout : Bool
    pub timeout_ms : ℕ
    pub message : String
    pub fail_first : ℕ

  pub record ConnectionConfig : Type 0 where
    pub mode : String
    pub rate : F
    pub fail_first : ℕ

  pub record ChaosConfig : Type 0 where
    pub enabled : Bool
    pub preset : String
    pub latency : Option LatencyConfig
    pub errors : Option ErrorConfig
    pub rate_limit : Option RateLimitConfig
    pub connection : Option ConnectionConfig

abbrev is_some {ℓ} : {A : Type ℓ} → Option A → Bool
is_some none = false
is_some (some _) = true

unfoldable pub has_any_chaos_section : {F : Type 0} → ChaosConfig F → Bool
has_any_chaos_section c =
    is_some c.latency || is_some c.errors || is_some c.rate_limit || is_some c.connection

-- `none` stands for an agent without a chaos block.
unfoldable pub chaos_for : {F : Type 0} → Option (ChaosConfig F) → Option (ChaosConfig F)
unfolding has_any_chaos_section
chaos_for none = none
chaos_for (some c) = if not c.enabled && not (has_any_chaos_section c) then none else some c
