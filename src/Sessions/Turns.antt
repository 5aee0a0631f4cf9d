-- ===== src/Sessions/Turns.antt =====
-- What one turn of a conversation leaves in its session.
use mathlib.Core.List.{reverse-append, append_assoc}
use mock_agents.Prelude.{
  ℕ, ◌+◌, ◌⊎◌, inl, inr, String, none, some, List, [], ◌∷◌, ◌++◌, ◌≡◌, refl, ap, ◌∙◌, arith,
  if◌then◌else◌, str_eq, Assoc, ℤ,
}
use mock_agents.Sessions.{
  ToolCallMsg, Message, Session, Build, finish_turn, new_session, append_user_message,
  append_assistant_message, apply_turn, first_user, latest_user_message,
}

module _ (V E : Type 0) where
  abbrev pub Conversation : Type 0
  Conversation = Session V E

  abbrev pub user_message : String → ℕ → Message V E
  user_message content now = record {
    role = "user";
    content = content;
    tool_calls = [];
    timestamp = now;
  }

  abbrev pub reply_message : String → List (ToolCallMsg V E) → ℕ → Message V E
  reply_message content calls now = record {
    role = "assistant";
    content = content;
    tool_calls = calls;
    timestamp = now;
  }

  abbrev pub users : List (Message V E) → ℕ
  users [] = 0
  users (m ∷ ms) = (if str_eq m.role "user" then 1 else 0) + users ms

  users-append : (xs ys : List (Message V E)) → users (xs ++ ys) ≡ users xs + users ys
  users-append [] ys = omega arith
  users-append (x ∷ xs) ys = omega (arith, users-append xs ys)

  -- The turn count is the number of user messages.
  abbrev pub IsCounted : Conversation → Type 0
  IsCounted s = s.turn_count ≡ users s.messages

  pub new_session-IsCounted :
      (id agent : String) (ttl : ℤ) (now : ℕ) → IsCounted (new_session V E id agent ttl now)
  unfolding new_session
  new_session-IsCounted id agent ttl now = refl

  finish_turn-IsCounted :
      (now : ℕ) (s : Conversation) (outcome : E ⊎ (String × List (ToolCallMsg V E)))
      → IsCounted s
      → IsCounted (finish_turn V E now s outcome).0
  unfolding append_assistant_message
  finish_turn-IsCounted now s (inl err) h = h
  finish_turn-IsCounted now s (inr (content, calls)) h =
      omega (arith, h, users-append s.messages (reply_message content calls now ∷ []))

  pub apply_turn-IsCounted :
      (content : String) (build : Build V E) (now : ℕ) (s : Conversation)
      → IsCounted s
      → IsCounted (apply_turn V E content build now s).0
  unfolding apply_turn append_user_message
  apply_turn-IsCounted content build now s h =
      let asked = append_user_message V E content now s in
      let built = build asked.turn_count asked.variables in
      finish_turn-IsCounted now (record asked { variables = built.0 }) built.1
        (omega (arith, h, users-append s.messages (user_message content now ∷ [])))

  same_reply :
      (reply r : String) (calls c : List (ToolCallMsg V E)) (now : ℕ)
      → ◌≡◌ {A = E ⊎ (String × List (ToolCallMsg V E))} (inr (reply, calls)) (inr (r, c))
      → reply_message reply calls now ≡ reply_message r c now
  same_reply reply r calls c now same = cc

  -- A turn adds the user's message, which is then the latest one, and counts; the callback is given
  -- the new count. With an answer the reply is added too; with an error it is not, and the error is
  -- returned, but the user's message and the changed variables stay.
  pub apply_turn_lem :
      (content : String) (build : Build V E) (now : ℕ) (s : Conversation) (vars : Assoc V)
      (outcome : E ⊎ (String × List (ToolCallMsg V E)))
      → build (s.turn_count + 1) s.variables ≡ (vars, outcome)
      → let r = apply_turn V E content build now s in
        (r.0.turn_count ≡ s.turn_count + 1)
        × (r.0.variables ≡ vars)
        × (r.0.last_access ≡ now)
        × (latest_user_message V E r.0 ≡ content)
        × ((err : E)
            → outcome ≡ inl err
            → (r.0.messages ≡ s.messages ++ user_message content now ∷ []) × (r.1 ≡ some err))
        × ((reply : String) (calls : List (ToolCallMsg V E))
            → outcome ≡ inr (reply, calls)
            → (r.0.messages
                ≡ s.messages ++ user_message content now ∷ reply_message reply calls now ∷ [])
              × (r.1 ≡ none))
  unfolding apply_turn append_user_message append_assistant_message latest_user_message first_user
  apply_turn_lem content build now s vars (inl err) h = rw h (
    refl,
    refl,
    refl,
    rw (reverse-append s.messages (user_message content now ∷ [])),
    (λ e same. (refl, cc)),
    (λ reply calls same. absurd (cc)),
  )
  apply_turn_lem content build now s vars (inr (reply, calls)) h = rw h (
    refl,
    refl,
    refl,
    rw (
      reverse-append (s.messages ++ user_message content now ∷ [])
          (reply_message reply calls now ∷ []),
      reverse-append s.messages (user_message content now ∷ []),
    ),
    (λ e same. absurd (cc)),
    (λ r c same. (
      append_assoc s.messages (user_message content now ∷ []) (reply_message reply calls now ∷ [])
          ∙ ap (λ (m : Message V E). s.messages ++ user_message content now ∷ m ∷ [])
              (same_reply reply r calls c now same),
      refl,
    )),
  )
