-- ===== src/Scenarios/Order.antt =====
-- Which scenario wins, said of the list of scenarios.
use mock_agents.Prelude.{
  ◌⊎◌, inl, inr, String, Option, none, some, List, [], ◌∷◌, ◌++◌, ◌≡◌, refl, sym, ap, ◌∙◌, subst,
  Option-cases, Assoc, All,
}
use mock_agents.Scenarios.{
  Text, MatchRule, Scenario, MatchResult, UserTurn, ScenarioMatcher, match_with_captures,
}
use mock_agents.Scenarios.Caches.{
  IsCached, rule_captures, first_match, first_match_always, first_match_asks,
  match_with_captures_lem,
}

module _ (t : Text) {R : Type 0} (msg : UserTurn) where
  abbrev pub Fits : Scenario R → Assoc String → Type 0
  Fits sc captures =
      (rule : MatchRule) × (sc.match_rule ≡ some rule) × (rule_captures t rule msg ≡ some captures)

  -- A default, or a rule that the message does not meet.
  abbrev pub IsPassed : Scenario R → Type 0
  IsPassed sc =
      (sc.match_rule ≡ none)
      ⊎ (rule : MatchRule) × (sc.match_rule ≡ some rule) × (rule_captures t rule msg ≡ none)

  abbrev pub HasRule : Scenario R → Type 0
  HasRule sc = (rule : MatchRule) × (sc.match_rule ≡ some rule)

  pub data Verdict (scs : List (Scenario R)) (answer : Option (MatchResult R)) : Type 0 where
    chosen :
        (before after : List (Scenario R)) (sc : Scenario R) (captures : Assoc String)
        → scs ≡ before ++ sc ∷ after
        → All IsPassed before
        → Fits sc captures
        → answer ≡ some (record { scenario = sc; captures = captures })
        → Verdict scs answer
    fallback :
        (before after : List (Scenario R)) (sc : Scenario R)
        → scs ≡ before ++ sc ∷ after
        → All HasRule before
        → sc.match_rule ≡ none
        → All IsPassed scs
        → answer ≡ some (record { scenario = sc; captures = [] })
        → Verdict scs answer
    unanswered : All IsPassed scs → All HasRule scs → answer ≡ none → Verdict scs answer

  -- With a default at hand, that one wins unless a later scenario is chosen.
  after_default :
      (scs : List (Scenario R)) (d : Scenario R)
      → let answer = first_match t scs msg (some d) in
        ((before : List (Scenario R)) × (after : List (Scenario R)) × (sc : Scenario R)
          × (captures : Assoc String) × (scs ≡ before ++ sc ∷ after)
          × All IsPassed before
          × Fits sc captures
          × (answer ≡ some (record { scenario = sc; captures = captures })))
        ⊎ All IsPassed scs × (answer ≡ some (record { scenario = d; captures = [] }))
  unfolding first_match
  after_default [] d = inr (tt, refl)
  after_default (sc ∷ scs) d = elim (Option-cases sc.match_rule) [
    | inl always ↦ elim (after_default scs d) [
      | inl (before, after, won, captures, e, passed, fits, same) ↦ inl (
        sc ∷ before,
        after,
        won,
        captures,
        ap (λ rest. sc ∷ rest) e,
        (inl always, passed),
        fits,
        first_match_always t sc scs msg (some d) always ∙ same,
      )
      | inr (passed, same) ↦
          inr ((inl always, passed), first_match_always t sc scs msg (some d) always ∙ same)
    ]
    | inr (rule, asks) ↦ elim (Option-cases (rule_captures t rule msg)) [
      | inr (captures, fits) ↦ inl (
        [],
        scs,
        sc,
        captures,
        refl,
        tt,
        (rule, asks, fits),
        first_match_asks t sc scs msg (some d) rule (some captures) asks fits,
      )
      | inl fails ↦ elim (after_default scs d) [
        | inl (before, after, won, captures, e, passed, fits, same) ↦ inl (
          sc ∷ before,
          after,
          won,
          captures,
          ap (λ rest. sc ∷ rest) e,
          (inr (rule, asks, fails), passed),
          fits,
          first_match_asks t sc scs msg (some d) rule none asks fails ∙ same,
        )
        | inr (passed, same) ↦ inr (
          (inr (rule, asks, fails), passed),
          first_match_asks t sc scs msg (some d) rule none asks fails ∙ same,
        )
      ]
    ]
  ]

  -- Behind a rule that is not met, the verdict is that of the rest.
  behind :
      (sc : Scenario R) (scs : List (Scenario R)) (answer : Option (MatchResult R))
      (rule : MatchRule)
      → sc.match_rule ≡ some rule
      → rule_captures t rule msg ≡ none
      → Verdict scs answer
      → Verdict (sc ∷ scs) answer
  behind sc scs answer rule asks fails (chosen before after won captures e passed fits same) =
      chosen (sc ∷ before) after won captures (ap (λ rest. sc ∷ rest) e)
        (inr (rule, asks, fails), passed) fits same
  behind sc scs answer rule asks fails (fallback before after d e ruled always passed same) =
      fallback (sc ∷ before) after d (ap (λ rest. sc ∷ rest) e) ((rule, asks), ruled) always
        (inr (rule, asks, fails), passed) same
  behind sc scs answer rule asks fails (unanswered passed ruled same) =
      unanswered (inr (rule, asks, fails), passed) ((rule, asks), ruled) same

  first_match-Verdict : (scs : List (Scenario R)) → Verdict scs (first_match t scs msg none)
  unfolding first_match
  first_match-Verdict [] = unanswered tt tt refl
  first_match-Verdict (sc ∷ scs) = elim (Option-cases sc.match_rule) [
    | inl always ↦ elim (after_default scs sc) [
      | inl (before, after, won, captures, e, passed, fits, same) ↦
          chosen (sc ∷ before) after won captures (ap (λ rest. sc ∷ rest) e) (inl always, passed)
            fits (first_match_always t sc scs msg none always ∙ same)
      | inr (passed, same) ↦
          fallback [] scs sc refl tt always (inl always, passed)
            (first_match_always t sc scs msg none always ∙ same)
    ]
    | inr (rule, asks) ↦ elim (Option-cases (rule_captures t rule msg)) [
      | inr (captures, fits) ↦
          chosen [] scs sc captures refl tt (rule, asks, fits)
            (first_match_asks t sc scs msg none rule (some captures) asks fits)
      | inl fails ↦
          subst (Verdict (sc ∷ scs)) (sym (first_match_asks t sc scs msg none rule none asks fails))
            (behind sc scs (first_match t scs msg none) rule asks fails (first_match-Verdict scs))
    ]
  ]

  -- Whatever the caches hold of earlier matches: the first scenario whose rule the message meets
  -- wins, with its captures, wherever the defaults stand; without one, the first default wins,
  -- without captures; there is no answer only when there is no default and no rule is met.
  pub match_with_captures-Verdict :
      (scs : List (Scenario R)) (m : ScenarioMatcher t)
      → IsCached t m
      → Verdict scs (match_with_captures t scs msg m).1
  match_with_captures-Verdict scs m c =
      subst (Verdict scs) (sym (match_with_captures_lem t scs msg m c).1) (first_match-Verdict scs)
