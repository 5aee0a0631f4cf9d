-- ===== src/Chaos/Presets.antt =====
-- internal/config/chaos_presets.go: named chaos configurations, expanded when an agent is loaded.
use mock_agents.Prelude.{
  ℕ, true, false, String, Option, none, some, [], ◌∷◌, ◌≡◌, refl, ap, ◌∙◌, eq_iff, inl, inr, arith,
  if◌then◌else◌, str_eq, Bool-cases, Option-cases, Assoc, at_key, lookup, lookup-All,
}
use mock_agents.Float.{Float64}
use mock_agents.Chaos.{LatencyConfig, ErrorConfig, ConnectionConfig, ChaosConfig, chaos_for}

module _ (f : Float64) where
  open f use {F, f_zero, f_one}

  abbrev pub Preset : Type 0
  Preset = ChaosConfig F → ChaosConfig F

  -- `if c.Errors == nil { c.Errors = ... }`, and so for the other sections.
  unfoldable pub default_errors : ErrorConfig F → Preset
  default_errors e c = elim c.errors [ none ↦ record c { errors = some e } | some _ ↦ c ]

  unfoldable pub default_latency : LatencyConfig → Preset
  default_latency l c = elim c.latency [ none ↦ record c { latency = some l } | some _ ↦ c ]

  unfoldable pub default_connection : ConnectionConfig F → Preset
  default_connection n c = elim c.connection [
    | none ↦ record c { connection = some n }
    | some _ ↦ c
  ]

  abbrev every_request : ℕ → String → ErrorConfig F
  every_request status message = record {
    rate = f_one;
    status_code = status;
    status_codes = [];
    timeout = false;
    timeout_ms = 0;
    message = message;
    fail_first = 0;
  }

  unfoldable pub chaos_presets : Assoc Preset
  chaos_presets =
      at_key "server-down"
        (default_errors (every_request 503 "the server is temporarily unavailable"))
      ∷ at_key "rate-limited" (default_errors (every_request 429 "rate limit exceeded"))
      ∷ at_key "access-denied"
          (default_errors (every_request 403 "you do not have access to this resource"))
      ∷ at_key "unauthorized"
          (default_errors (every_request 401 "invalid authentication credentials"))
      ∷ at_key "flaky" (
          default_errors (record {
            rate = f_zero;
            status_code = 503;
            status_codes = [];
            timeout = false;
            timeout_ms = 0;
            message = "temporarily overloaded, please retry";
            fail_first = 2;
          }))
      ∷ at_key "slow" (
          default_latency (record {
            distribution = "uniform";
            min_ms = 2000;
            max_ms = 5000;
            mean_ms = 0;
            stddev_ms = 0;
          }))
      ∷ at_key "connection-reset"
          (default_connection (record { mode = "reset"; rate = f_one; fail_first = 0 }))
      ∷ []

  unfoldable pub expand_chaos_preset : Preset
  expand_chaos_preset c = elim (lookup c.preset chaos_presets) [
    | none ↦ c
    | some apply ↦ if str_eq c.preset "" then c else record (apply c) { enabled = true }
  ]

  -- A section that is set stays; the name and the rate limit stay.
  pub record Fills (c d : ChaosConfig F) : Type 0 where
    pub same_name : d.preset ≡ c.preset
    pub same_limit : d.rate_limit ≡ c.rate_limit
    pub keeps_errors : (e : ErrorConfig F) → c.errors ≡ some e → d.errors ≡ some e
    pub keeps_latency : (l : LatencyConfig) → c.latency ≡ some l → d.latency ≡ some l
    pub keeps_connection : (n : ConnectionConfig F) → c.connection ≡ some n → d.connection ≡ some n

  record IsDefaulting (apply : Preset) : Type 0 where
    fills : (c : ChaosConfig F) → Fills c (apply c)
    settles :
        (c : ChaosConfig F)
        → apply (record (apply c) { enabled = true }) ≡ record (apply c) { enabled = true }

  default_errors-IsDefaulting : (e : ErrorConfig F) → IsDefaulting (default_errors e)
  unfolding default_errors
  default_errors-IsDefaulting e = record { fills = λ c. ground arith; settles = λ c. ground arith }

  default_latency-IsDefaulting : (l : LatencyConfig) → IsDefaulting (default_latency l)
  unfolding default_latency
  default_latency-IsDefaulting l = record { fills = λ c. ground arith; settles = λ c. ground arith }

  default_connection-IsDefaulting : (n : ConnectionConfig F) → IsDefaulting (default_connection n)
  unfolding default_connection
  default_connection-IsDefaulting n = record {
    fills = λ c. ground arith;
    settles = λ c. ground arith;
  }

  preset-IsDefaulting :
      (name : String) (apply : Preset) → lookup name chaos_presets ≡ some apply → IsDefaulting apply
  unfolding chaos_presets
  preset-IsDefaulting name apply found =
      lookup-All IsDefaulting name chaos_presets apply
        (
          default_errors-IsDefaulting _,
          (
            default_errors-IsDefaulting _,
            (
              default_errors-IsDefaulting _,
              (
                default_errors-IsDefaulting _,
                (
                  default_errors-IsDefaulting _,
                  (default_latency-IsDefaulting _, (default_connection-IsDefaulting _, tt)),
                ),
              ),
            ),
          ),
        )
        found

  Fills-refl : (c : ChaosConfig F) → Fills c c
  Fills-refl c = record {
    same_name = refl;
    same_limit = refl;
    keeps_errors = λ e h. h;
    keeps_latency = λ l h. h;
    keeps_connection = λ n h. h;
  }

  found_none : (o : Option Preset) (apply : Preset) → o ≡ none → o ≡ some apply → ⊥
  found_none o apply p q = cc

  no_blank_preset : lookup "" chaos_presets ≡ none
  unfolding chaos_presets lookup
  no_blank_preset = refl

  preset_named :
      (c : ChaosConfig F) (apply : Preset)
      → lookup c.preset chaos_presets ≡ some apply
      → str_eq c.preset "" ≡ false
  preset_named c apply known = elim (Bool-cases (str_eq c.preset "")) [
    | inl blank ↦ absurd (
        found_none (lookup c.preset chaos_presets) apply
          (ap (λ name. lookup name chaos_presets) ((eq_iff c.preset "").0 blank) ∙ no_blank_preset)
          known)
    | inr named ↦ named
  ]

  expand_unknown :
      (c : ChaosConfig F) → lookup c.preset chaos_presets ≡ none → expand_chaos_preset c ≡ c
  unfolding expand_chaos_preset
  expand_unknown c unknown = rw (unknown, expand_chaos_preset)

  expand_known :
      (c : ChaosConfig F) (apply : Preset)
      → lookup c.preset chaos_presets ≡ some apply
      → str_eq c.preset "" ≡ false
      → expand_chaos_preset c ≡ record (apply c) { enabled = true }
  unfolding expand_chaos_preset
  expand_known c apply known named = rw (known, expand_chaos_preset, named)

  -- Expanding a preset keeps every section that the agent set itself, and doing it again changes
  -- nothing. A chaos block with a known preset is in force, and an unknown name changes nothing.
  pub expand_chaos_preset_lem :
      (c : ChaosConfig F)
      → let d = expand_chaos_preset c in
        Fills c d
        × (expand_chaos_preset d ≡ d)
        × ((apply : Preset)
            → lookup c.preset chaos_presets ≡ some apply
            → chaos_for (some d) ≡ some d)
        × (lookup c.preset chaos_presets ≡ none → d ≡ c)
  unfolding chaos_for
  expand_chaos_preset_lem c = elim (Option-cases (lookup c.preset chaos_presets)) [
    | inl unknown ↦
        let same = expand_unknown c unknown in
        rw same (
          Fills-refl c,
          same,
          (λ apply found. absurd (found_none _ apply unknown found)),
          (λ _. refl),
        )
    | inr (apply, known) ↦
        let named = preset_named c apply known in
        let p = preset-IsDefaulting c.preset apply known in
        let y = p.fills c in
        let d : ChaosConfig F = record (apply c) { enabled = true } in
        let found = ap (λ name. lookup name chaos_presets) y.same_name ∙ known in
        let again =
          expand_known d apply found (preset_named d apply found)
          ∙ ap (λ (z : ChaosConfig F). record z { enabled = true }) (p.settles c) in
        rw (expand_known c apply known named) (
          record {
            same_name = y.same_name;
            same_limit = y.same_limit;
            keeps_errors = y.keeps_errors;
            keeps_latency = y.keeps_latency;
            keeps_connection = y.keeps_connection;
          },
          again,
          (λ _ _. refl),
          (λ unknown. absurd (found_none _ apply unknown known)),
        )
  ]
