-- ===== src/Scenarios/Caches.antt =====
-- The matcher's caches hold what they memoize, so they do not show.
use mock_agents.Prelude.{
  Bool, true, ◌&&◌, inl, inr, String, Option, none, some, List, [], ◌∷◌, ◌≡◌, refl, sym, ap, ◌∙◌,
  if◌then◌else◌, str_eq, str_eq→eq, Bool-cases, Option-cases, Assoc, lookup, insert, lookup-insert,
  lookup-insert_other, some-injective,
}
use mock_agents.Scenarios.{
  Text, MatchRule, Scenario, MatchResult, UserTurn, ScenarioMatcher, new_scenario_matcher,
  lower_contains, compile_regex, submatches, image_fits, at_turn, match_regex, match_content,
  evaluate, first_default, default_result, scan, match_with_captures,
}

module _ {A : Type 0} (f : String → A) where
  -- A cache that answers as the function does.
  abbrev pub Caches : Assoc A → Type 0
  Caches cache = (k : String) (v : A) → lookup k cache ≡ some v → v ≡ f k

  Caches-insert : (k : String) (cache : Assoc A) → Caches cache → Caches (insert k (f k) cache)
  Caches-insert k cache h j v there = elim (Bool-cases (str_eq k j)) [
    | inl same ↦
        sym (
          some-injective (f k) v (
            sym (
              lookup-insert k j (f k) cache
              ∙ ap (λ b. if b then some (f k) else lookup j cache) same)
            ∙ there))
        ∙ ap f (str_eq→eq k j same)
    | inr other ↦ h j v (sym (lookup-insert_other k j (f k) cache other) ∙ there)
  ]

module _ (t : Text) where
  open t use {Regexp, to_lower, contains, compile, find_submatch, subexp_names}

  pub record IsCached (m : ScenarioMatcher t) : Type 0 where
    pub regexes : Caches compile m.regex_cache
    pub lowers : Caches to_lower m.lower_cache

  pub new_scenario_matcher-IsCached : IsCached (new_scenario_matcher t)
  unfolding new_scenario_matcher lookup
  new_scenario_matcher-IsCached = record {
    regexes = λ k v there. absurd (cc);
    lowers = λ k v there. absurd (cc);
  }

  -- The conditions of a rule, without caches.
  abbrev pub content_fits : String → String → Bool
  content_fits wanted lower_message =
      if str_eq wanted "" then true else contains lower_message (to_lower wanted)

  abbrev pub regex_captures : String → UserTurn → Option (Assoc String)
  regex_captures pattern msg =
      if str_eq pattern ""
      then some []
      else elim (compile pattern) [ none ↦ none | some re ↦ submatches t re msg.user_message ]

  unfoldable pub rule_captures : MatchRule → UserTurn → Option (Assoc String)
  rule_captures rule msg =
      if image_fits t rule.has_image msg.image_count
        && content_fits rule.content_contains (to_lower msg.user_message)
      then at_turn t rule.turn_number msg.turn_number (regex_captures rule.content_regex msg)
      else none

  lower_contains_lem :
      (s : String) (m : ScenarioMatcher t)
      → IsCached m
      → IsCached (lower_contains t s m).0 × ((lower_contains t s m).1 ≡ to_lower s)
  unfolding lower_contains
  lower_contains_lem s m c = elim (Option-cases (lookup s m.lower_cache)) [
    | inl absent ↦
        rw (absent, lower_contains)
          (
            record {
              regexes = c.regexes;
              lowers = Caches-insert to_lower s m.lower_cache c.lowers;
            },
            refl,
          )
    | inr (v, there) ↦ rw (there, lower_contains) (c, c.lowers s v there)
  ]

  compile_regex_lem :
      (s : String) (m : ScenarioMatcher t)
      → IsCached m
      → IsCached (compile_regex t s m).0 × ((compile_regex t s m).1 ≡ compile s)
  unfolding compile_regex
  compile_regex_lem s m c = elim (Option-cases (lookup s m.regex_cache)) [
    | inl absent ↦
        rw (absent, compile_regex)
          (
            record { regexes = Caches-insert compile s m.regex_cache c.regexes; lowers = c.lowers },
            refl,
          )
    | inr (v, there) ↦ rw (there, compile_regex) (c, c.regexes s v there)
  ]

  match_content_lem :
      (wanted lower_message : String) (m : ScenarioMatcher t)
      → IsCached m
      → IsCached (match_content t wanted lower_message m).0
        × ((match_content t wanted lower_message m).1 ≡ content_fits wanted lower_message)
  match_content_lem wanted lower_message m c = elim (Bool-cases (str_eq wanted "")) [
    | inl empty ↦ rw empty (c, refl)
    | inr asked ↦
        let r = lower_contains_lem wanted m c in rw asked (r.0, ap (contains lower_message) r.1)
  ]

  match_regex_lem :
      (pattern : String) (msg : UserTurn) (m : ScenarioMatcher t)
      → IsCached m
      → IsCached (match_regex t pattern msg m).0
        × ((match_regex t pattern msg m).1 ≡ regex_captures pattern msg)
  match_regex_lem pattern msg m c = elim (Bool-cases (str_eq pattern "")) [
    | inl empty ↦ rw empty (c, refl)
    | inr asked ↦ let r = compile_regex_lem pattern m c in rw asked (r.0, rw r.1)
  ]

  evaluate_lem :
      (rule : MatchRule) (msg : UserTurn) (m : ScenarioMatcher t)
      → IsCached m
      → let r = evaluate t rule msg (to_lower msg.user_message) m in
        IsCached r.0 × (r.1 ≡ rule_captures rule msg)
  unfolding evaluate rule_captures
  evaluate_lem rule msg m c =
      let content = match_content t rule.content_contains (to_lower msg.user_message) m in
      let h = match_content_lem rule.content_contains (to_lower msg.user_message) m c in
      let g = match_regex_lem rule.content_regex msg content.0 h.0 in
      elim (Bool-cases (image_fits t rule.has_image msg.image_count)) [
        | inr unfit ↦ rw unfit (c, refl)
        | inl seen ↦ elim (Bool-cases content.1) [
          | inl fits ↦
              rw (seen, fits, sym h.1 ∙ fits)
                (g.0, ap (at_turn t rule.turn_number msg.turn_number) g.1)
          | inr differs ↦ rw (seen, differs, sym h.1 ∙ differs) (h.0, refl)
        ]
      ]

  module _ {R : Type 0} where
    abbrev pub won_or :
        Scenario R → Option (MatchResult R) → Option (Assoc String) → Option (MatchResult R)
    won_or sc others none = others
    won_or sc others (some captures) = some (record { scenario = sc; captures = captures })

    -- The definition order, without caches: the first conditional scenario that matches, else the
    -- first default.
    unfoldable pub first_match :
        List (Scenario R) → UserTurn → Option (Scenario R) → Option (MatchResult R)
    first_match [] msg default = default_result t default
    first_match (sc ∷ scs) msg default = elim sc.match_rule [
      | none ↦ first_match scs msg (first_default t default sc)
      | some rule ↦ won_or sc (first_match scs msg default) (rule_captures rule msg)
    ]

    pub first_match_always :
        (sc : Scenario R) (scs : List (Scenario R)) (msg : UserTurn) (default : Option (Scenario R))
        → sc.match_rule ≡ none
        → first_match (sc ∷ scs) msg default ≡ first_match scs msg (first_default t default sc)
    unfolding first_match
    first_match_always sc scs msg default always =
        ap
          (λ (o : Option MatchRule). elim o as (λ _. Option (MatchResult R)) [
            | none ↦ first_match scs msg (first_default t default sc)
            | some rule ↦ won_or sc (first_match scs msg default) (rule_captures rule msg)
          ])
          always

    pub first_match_asks :
        (sc : Scenario R) (scs : List (Scenario R)) (msg : UserTurn) (default : Option (Scenario R))
        (rule : MatchRule) (met : Option (Assoc String))
        → sc.match_rule ≡ some rule
        → rule_captures rule msg ≡ met
        → first_match (sc ∷ scs) msg default ≡ won_or sc (first_match scs msg default) met
    unfolding first_match
    first_match_asks sc scs msg default rule met asks same =
        ap
          (λ (o : Option MatchRule). elim o as (λ _. Option (MatchResult R)) [
            | none ↦ first_match scs msg (first_default t default sc)
            | some r ↦ won_or sc (first_match scs msg default) (rule_captures r msg)
          ])
          asks
        ∙ ap (won_or sc (first_match scs msg default)) same

    scan_lem :
        (scs : List (Scenario R)) (msg : UserTurn) (default : Option (Scenario R))
        (m : ScenarioMatcher t)
        → IsCached m
        → let r = scan t scs msg (to_lower msg.user_message) default m in
          IsCached r.0 × (r.1 ≡ first_match scs msg default)
    unfolding scan first_match
    scan_lem [] msg default m c = (c, refl)
    scan_lem (sc ∷ scs) msg default m c = elim (Option-cases sc.match_rule) [
      | inl always ↦
          rw (always, scan, first_match) (scan_lem scs msg (first_default t default sc) m c)
      | inr (rule, asks) ↦
          let h = evaluate_lem rule msg m c in
          elim (Option-cases (rule_captures rule msg)) [
            | inl fails ↦
                rw (asks, scan, first_match, h.1 ∙ fails, fails)
                  (scan_lem scs msg default (evaluate t rule msg (to_lower msg.user_message) m).0
                    h.0)
            | inr (captures, fits) ↦ rw (asks, scan, first_match, h.1 ∙ fits, fits) (h.0, refl)
          ]
    ]

    -- With caches that hold what they memoize, a match gives what the definition order gives, and
    -- the caches it leaves hold what they memoize.
    pub match_with_captures_lem :
        (scs : List (Scenario R)) (msg : UserTurn) (m : ScenarioMatcher t)
        → IsCached m
        → let r = match_with_captures t scs msg m in IsCached r.0 × (r.1 ≡ first_match scs msg none)
    unfolding match_with_captures
    match_with_captures_lem scs msg m c = scan_lem scs msg none m c
