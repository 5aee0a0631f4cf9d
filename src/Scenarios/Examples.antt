-- ===== src/Scenarios/Examples.antt =====
-- An agent with a refund rule, a default and a rule for the third turn.
use mock_agents.Prelude.{String, none, some, List, [], ◌∷◌, ◌≡◌, pos}
use mock_agents.Samples.{plain}
use mock_agents.Scenarios.{
  Scenario, UserTurn, ScenarioMatcher, new_scenario_matcher, match_with_captures,
}
use mock_agents.Scenarios.Caches.{
  IsCached, first_match, match_with_captures_lem, new_scenario_matcher-IsCached,
}
use mock_agents.Scenarios.Order.{Verdict, match_with_captures-Verdict}

abbrev scenarios : List (Scenario String)
scenarios =
    record { name = "default"; match_rule = none; response = "hello" }
    ∷ record {
      name = "broken";
      match_rule = some (record {
        content_contains = "";
        content_regex = "[";
        turn_number = none;
        has_image = none;
      });
      response = "never";
    }
    ∷ record {
      name = "refund";
      match_rule = some (record {
        content_contains = "refund";
        content_regex = "refund please";
        turn_number = some (pos 3);
        has_image = none;
      });
      response = "sure";
    }
    ∷ []

abbrev third_turn : UserTurn
third_turn = record { user_message = "refund please"; turn_number = 3; image_count = 0 }

abbrev matcher : ScenarioMatcher plain
matcher = new_scenario_matcher plain

match_with_captures_lem_example :
    let r = match_with_captures plain scenarios third_turn matcher in
    IsCached plain r.0 × (r.1 ≡ first_match plain scenarios third_turn none)
match_with_captures_lem_example =
    match_with_captures_lem plain scenarios third_turn matcher (new_scenario_matcher-IsCached plain)

match_with_captures-Verdict_example :
    Verdict plain third_turn scenarios (match_with_captures plain scenarios third_turn matcher).1
match_with_captures-Verdict_example =
    match_with_captures-Verdict plain third_turn scenarios matcher
      (new_scenario_matcher-IsCached plain)
