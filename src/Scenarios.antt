-- ===== src/Scenarios.antt =====
-- internal/engine/scenario_matcher.go: which scenario answers a message, with the rules of
-- internal/types/behavior.go. The matcher memoizes two functions in its caches, which are passed on
-- from call to call; `strings` and `regexp` are the parameter `Text`.
pub mod Caches
pub mod Order
mod Examples
use mock_agents.Prelude.{
  ℕ, ◌<◌, Bool, true, false, not, ◌&&◌, String, Option, none, some, List, [], ◌∷◌, if◌then◌else◌,
  ltb, ◌==◌, str_eq, ℤ, pos, negsuc, Assoc, lookup, insert,
}

-- `find_submatch` gives the match and the groups, `subexp_names` their names, "" for one without.
pub record Text : Type 1 where
  pub Regexp : Type 0
  pub to_lower : String → String
  -- `strings.Contains(s, substr)`
  pub contains : String → String → Bool
  pub compile : String → Option Regexp
  pub find_submatch : Regexp → String → Option (List String)
  pub subexp_names : Regexp → List String

pub record MatchRule : Type 0 where
  pub content_contains : String
  pub content_regex : String
  pub turn_number : Option ℤ
  pub has_image : Option Bool

-- `R` is the response, which the matcher does not read.
pub record Scenario (R : Type 0) : Type 0 where
  pub name : String
  pub match_rule : Option MatchRule
  pub response : R

pub record MatchResult (R : Type 0) : Type 0 where
  pub scenario : Scenario R
  pub captures : Assoc String

-- A message as the rules look at it.
pub record UserTurn : Type 0 where
  pub user_message : String
  pub turn_number : ℕ
  pub image_count : ℕ

module _ (t : Text) where
  open t use {Regexp, to_lower, contains, compile, find_submatch, subexp_names}

  -- A pattern that does not compile is cached as `none`.
  pub record ScenarioMatcher : Type 0 where
    pub regex_cache : Assoc (Option Regexp)
    pub lower_cache : Assoc String

  unfoldable pub new_scenario_matcher : ScenarioMatcher
  new_scenario_matcher = record { regex_cache = []; lower_cache = [] }

  unfoldable pub lower_contains : String → ScenarioMatcher → ScenarioMatcher × String
  lower_contains s m = elim (lookup s m.lower_cache) [
    | some v ↦ (m, v)
    | none ↦ (record m { lower_cache = insert s (to_lower s) m.lower_cache }, to_lower s)
  ]

  unfoldable pub compile_regex : String → ScenarioMatcher → ScenarioMatcher × Option Regexp
  compile_regex pattern m = elim (lookup pattern m.regex_cache) [
    | some re ↦ (m, re)
    | none ↦
        (record m { regex_cache = insert pattern (compile pattern) m.regex_cache }, compile pattern)
  ]

  -- The loop over the groups after the first: a later group of the same name wins.
  abbrev pub named_groups : List String → List String → Assoc String → Assoc String
  named_groups [] groups captures = captures
  named_groups (name ∷ names) [] captures = captures
  named_groups (name ∷ names) (group ∷ groups) captures =
      named_groups names groups (if str_eq name "" then captures else insert name group captures)

  abbrev pub after_first : List String → List String
  after_first [] = []
  after_first (x ∷ xs) = xs

  -- The captures of a regular expression, `none` if it does not match.
  abbrev pub submatches : Regexp → String → Option (Assoc String)
  submatches re message = elim (find_submatch re message) [
    | none ↦ none
    | some groups ↦ some (named_groups (after_first (subexp_names re)) (after_first groups) [])
  ]

  abbrev pub image_fits : Option Bool → ℕ → Bool
  image_fits none count = true
  image_fits (some true) count = ltb 0 count
  image_fits (some false) count = not (ltb 0 count)

  abbrev pub turn_fits : Option ℤ → ℕ → Bool
  turn_fits none turn = true
  turn_fits (some (pos n)) turn = turn == n
  turn_fits (some (negsuc n)) turn = false

  -- The last condition of a rule.
  abbrev at_turn : Option ℤ → ℕ → Option (Assoc String) → Option (Assoc String)
  at_turn wanted turn none = none
  at_turn wanted turn (some captures) = if turn_fits wanted turn then some captures else none

  abbrev match_regex : String → UserTurn → ScenarioMatcher → ScenarioMatcher × Option (Assoc String)
  match_regex pattern msg m =
      let compiled = compile_regex pattern m in
      if str_eq pattern ""
      then (m, some [])
      else (compiled.0, elim compiled.1 [ none ↦ none | some re ↦ submatches re msg.user_message ])

  abbrev match_content : String → String → ScenarioMatcher → ScenarioMatcher × Bool
  match_content wanted lower_message m =
      let lowered = lower_contains wanted m in
      if str_eq wanted "" then (m, true) else (lowered.0, contains lower_message lowered.1)

  -- `some []` is the shared empty map of a match without captures.
  unfoldable pub evaluate :
      MatchRule → UserTurn → String → ScenarioMatcher → ScenarioMatcher × Option (Assoc String)
  evaluate rule msg lower_message m =
      let content = match_content rule.content_contains lower_message m in
      let regex = match_regex rule.content_regex msg content.0 in
      if image_fits rule.has_image msg.image_count
      then (if content.1
          then (regex.0, at_turn rule.turn_number msg.turn_number regex.1)
          else (content.0, none))
      else (m, none)

  module _ {R : Type 0} where
    abbrev first_default : Option (Scenario R) → Scenario R → Option (Scenario R)
    first_default none sc = some sc
    first_default (some d) sc = some d

    abbrev default_result : Option (Scenario R) → Option (MatchResult R)
    default_result none = none
    default_result (some d) = some (record { scenario = d; captures = [] })

    unfoldable pub scan :
        List (Scenario R)
        → UserTurn
        → String
        → Option (Scenario R)
        → ScenarioMatcher
        → ScenarioMatcher × Option (MatchResult R)
    scan [] msg lower_message default m = (m, default_result default)
    scan (sc ∷ scs) msg lower_message default m = elim sc.match_rule [
      | none ↦ scan scs msg lower_message (first_default default sc) m
      | some rule ↦
          let r = evaluate rule msg lower_message m in
          elim r.1 [
            | some captures ↦ (r.0, some (record { scenario = sc; captures = captures }))
            | none ↦ scan scs msg lower_message default r.0
          ]
    ]

    unfoldable pub match_with_captures :
        List (Scenario R) → UserTurn → ScenarioMatcher → ScenarioMatcher × Option (MatchResult R)
    match_with_captures scs msg m = scan scs msg (to_lower msg.user_message) none m
