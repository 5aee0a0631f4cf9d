-- ===== src/Sessions/Examples.antt =====
-- A store with one conversation, kept alive by its turns.
use mock_agents.Prelude.{
  ℕ, false, ◌⊎◌, inl, inr, String, Option, none, some, List, [], ◌∷◌, ◌++◌, ◌≡◌, refl, sym, ap, ◌∙◌,
  ◌≢◌, ◌<◌, Bool-cases, some-injective, str_eq→eq, arith, if◌then◌else◌, ◌==◌, str_eq, pos, lookup,
}
use mock_agents.Sessions.{
  ToolCallMsg, Build, Session, new_session, new_memory_store, apply_turn, get, get_or_create,
  cleanup, is_expired, delete_if_same, delete_expired, latest_user_message, turn_at,
}
use mock_agents.Sessions.Turns.{apply_turn_lem, user_message, reply_message}
use mock_agents.Sessions.Lifetime.{Store, IsWellFormed, find}
use mock_agents.Sessions.Calls.{
  Call, run, run-IsWellFormed, gets_or_creates, evicts, turns, sweeps, get_or_create_lem,
}
use mock_agents.Sessions.Eviction.{cleanup_lem, get-cleanup, late_eviction}

-- It greets once, and then fails.
abbrev greet : Build ℕ String
greet n vars = if n == 1 then (vars, inr ("hello", [])) else (vars, inl "no rule")

abbrev history : List (Call ℕ String)
history =
    gets_or_creates "s1" "greeter" 100
    ∷ turns 0 "hi" greet 110
    ∷ gets_or_creates "s2" "greeter" 115
    ∷ evicts "s2" 0
    ∷ turns 0 "hi again" greet 120
    ∷ sweeps 125 (0 ∷ 1 ∷ [])
    ∷ []

abbrev store : Store ℕ String
store = run ℕ String history (new_memory_store ℕ String (pos 10))

run-IsWellFormed_example : IsWellFormed ℕ String store
run-IsWellFormed_example = run-IsWellFormed ℕ String history (pos 10)

abbrev asked_once : Session ℕ String
asked_once = record {
  id = "s1";
  agent_name = "greeter";
  messages =
      record { role = "user"; content = "hi"; tool_calls = []; timestamp = 110 }
      ∷ record { role = "assistant"; content = "hello"; tool_calls = []; timestamp = 110 }
      ∷ [];
  turn_count = 1;
  variables = [];
  created_at = 100;
  last_access = 110;
  ttl = pos 10;
}

apply_turn_lem_example :
    let r = apply_turn ℕ String "hi again" greet 120 asked_once in
    (r.0.turn_count ≡ 2)
    × (r.0.variables ≡ [])
    × (r.0.last_access ≡ 120)
    × (latest_user_message ℕ String r.0 ≡ "hi again")
    × ((err : String)
        → ◌≡◌ {A = String ⊎ (String × List (ToolCallMsg ℕ String))} (inl "no rule") (inl err)
        → (r.0.messages ≡ asked_once.messages ++ user_message ℕ String "hi again" 120 ∷ [])
          × (r.1 ≡ some err))
    × ((reply : String) (calls : List (ToolCallMsg ℕ String))
        → ◌≡◌ {A = String ⊎ (String × List (ToolCallMsg ℕ String))}
            (inl "no rule")
            (inr (reply, calls))
        → (r.0.messages
            ≡ asked_once.messages
              ++ user_message ℕ String "hi again" 120 ∷ reply_message ℕ String reply calls 120 ∷ [])
          × (r.1 ≡ none))
apply_turn_lem_example =
    apply_turn_lem ℕ String "hi again" greet 120 asked_once [] (inl "no rule") refl

clash : (p : ℕ) → ◌≢◌ {A = Option ℕ} none (some p)
clash p h = cc

abbrev one_session : Store ℕ String
one_session = record {
  next = 1;
  heap = λ _. asked_once;
  sessions = record { key = "s1"; val = 0 } ∷ [];
  ttl = 10;
}

only_entry : (id : String) (p : ℕ) → find ℕ String id one_session ≡ some p → (0 ≡ p) × ("s1" ≡ id)
unfolding lookup
only_entry id p h = elim (Bool-cases (str_eq "s1" id)) [
  | inl same ↦ (
    some-injective 0 p (sym (ap (λ b. if b then some 0 else none) same) ∙ h),
    str_eq→eq "s1" id same,
  )
  | inr other ↦ absurd (clash p (sym (ap (λ b. if b then some 0 else none) other) ∙ h))
]

first_entry : (p : ℕ) → 0 ≡ p → p < 1
first_entry p h = omega arith

one_session-IsWellFormed : IsWellFormed ℕ String one_session
unfolding lookup
one_session-IsWellFormed = record {
  allocated = λ id p h. first_entry p (only_entry id p h).0;
  own_id = λ id p h. (only_entry id p h).1;
  counted = λ p. refl;
}

get_or_create_lem_example :
    let r = get_or_create ℕ String "s1" "greeter" 130 one_session in
    (find ℕ String "s1" r.0 ≡ some r.1)
    × (is_expired ℕ String 130 (r.0.heap r.1) ≡ false)
    × ((p : ℕ)
        → find ℕ String "s1" one_session ≡ some p
        → is_expired ℕ String 130 (one_session.heap p) ≡ false
        → r ≡ (one_session, p))
    × ((r ≡ (one_session, r.1))
        ⊎ (r.0.heap r.1 ≡ new_session ℕ String "s1" "greeter" (pos 10) 130) × (r.1 ≡ 1))
    × ((other : String)
        → str_eq "s1" other ≡ false
        → find ℕ String other r.0 ≡ find ℕ String other one_session)
get_or_create_lem_example = get_or_create_lem ℕ String "s1" "greeter" 130 one_session

cleanup_lem_example : find ℕ String "s1" (cleanup ℕ String 130 one_session) ≡ none
unfolding is_expired lookup
cleanup_lem_example = cleanup_lem ℕ String 130 one_session "s1" one_session-IsWellFormed

get-cleanup_example :
    (get ℕ String "s1" 120 (cleanup ℕ String 120 one_session)).1
    ≡ (get ℕ String "s1" 120 one_session).1
get-cleanup_example = get-cleanup ℕ String 120 one_session "s1" one_session-IsWellFormed

late_eviction_example :
    let after = (turn_at ℕ String 0 "hi again" greet 130 one_session).0 in
    (is_expired ℕ String 130 (after.heap 0) ≡ false)
    × (find ℕ String "s1" (delete_expired ℕ String 130 (0 ∷ []) after) ≡ some 0)
    × (find ℕ String "s1" (delete_if_same ℕ String "s1" 0 after) ≡ none)
unfolding lookup
late_eviction_example =
    late_eviction ℕ String "s1" "hi again" greet 130 0 one_session one_session-IsWellFormed refl
