-- ===== src/Sessions.antt =====
-- internal/engine/state/session.go and store.go: conversations and the store that keeps them.
-- A `*Session` is a pointer that callers share, so sessions stand on a heap and the store maps ids to
-- addresses. Each method is a step; a Get and a Cleanup, which release the store's lock between their
-- phases, are given by phases too. A method reads the clock as its argument `now` (nanoseconds), so the
-- two reads of an ApplyTurn, before and after the turn is built, are one.
pub mod Turns
pub mod Lifetime
pub mod Calls
pub mod Eviction
pub mod Isolation
mod Examples
use mock_agents.Prelude.{
  ℕ, zero, suc, ◌+◌, ◌-◌, ◌*◌, Bool, true, false, ◌&&◌, ◌⊎◌, inl, inr, String, Option, none, some,
  List, [], ◌∷◌, ◌++◌, map, reverse, if◌then◌else◌, ltb, ◌==◌, str_eq, ℤ, pos, negsuc, positive_or,
  Assoc, Entry, lookup, insert, delete, length, update,
}

-- 30 minutes.
abbrev pub default_session_ttl : ℕ
default_session_ttl = 30 * 60 * 1_000_000_000

-- `V` is Go's `any`, `E` its `error`.
module _ (V E : Type 0) where
  pub record ToolCallMsg : Type 0 where
    pub name : String
    pub arguments : Assoc V

  pub record Message : Type 0 where
    pub role : String
    pub content : String
    pub tool_calls : List ToolCallMsg
    pub timestamp : ℕ

  pub record Session : Type 0 where
    pub id : String
    pub agent_name : String
    pub messages : List Message
    pub turn_count : ℕ
    pub variables : Assoc V
    pub created_at : ℕ
    pub last_access : ℕ
    pub ttl : ℤ

  unfoldable pub new_session : String → String → ℤ → ℕ → Session
  new_session id agent_name ttl now = record {
    id = id;
    agent_name = agent_name;
    messages = [];
    turn_count = 0;
    variables = [];
    created_at = now;
    last_access = now;
    ttl = ttl;
  }

  unfoldable pub append_user_message : String → ℕ → Session → Session
  append_user_message content now s = record s {
    messages =
        s.messages
        ++ record { role = "user"; content = content; tool_calls = []; timestamp = now } ∷ [];
    turn_count = s.turn_count + 1;
    last_access = now;
  }

  unfoldable pub append_assistant_message : String → List ToolCallMsg → ℕ → Session → Session
  append_assistant_message content tool_calls now s = record s {
    messages =
        s.messages
        ++ record {
          role = "assistant";
          content = content;
          tool_calls = tool_calls;
          timestamp = now;
        }
          ∷ [];
    last_access = now;
  }

  -- The callback of a turn: it may change the variables, and gives an error or an answer.
  abbrev pub Build : Type 0
  Build = ℕ → Assoc V → Assoc V × (E ⊎ (String × List ToolCallMsg))

  abbrev finish_turn : ℕ → Session → E ⊎ (String × List ToolCallMsg) → Session × Option E
  finish_turn now s (inl err) = (s, some err)
  finish_turn now s (inr (content, calls)) = (append_assistant_message content calls now s, none)

  unfoldable pub apply_turn : String → Build → ℕ → Session → Session × Option E
  apply_turn user_content build now s =
      let asked = append_user_message user_content now s in
      let built = build asked.turn_count asked.variables in
      finish_turn now (record asked { variables = built.0 }) built.1

  -- `TTL <= 0` never expires.
  abbrev outlived : ℤ → ℕ → Bool
  outlived (pos ttl) age = ltb 0 ttl && ltb ttl age
  outlived (negsuc ttl) age = false

  unfoldable pub is_expired : ℕ → Session → Bool
  is_expired now s = outlived s.ttl (now - s.last_access)

  -- From the last message on.
  unfoldable pub first_user : List Message → String
  first_user [] = ""
  first_user (m ∷ ms) = if str_eq m.role "user" then m.content else first_user ms

  unfoldable pub latest_user_message : Session → String
  latest_user_message s = first_user (reverse s.messages)

  pub record MemoryStore : Type 0 where
    pub next : ℕ
    pub heap : ℕ → Session
    pub sessions : Assoc ℕ
    pub ttl : ℕ

  unfoldable pub new_memory_store : ℤ → MemoryStore
  new_memory_store ttl = record {
    next = 0;
    heap = λ _. new_session "" "" (pos 0) 0;
    sessions = [];
    ttl = positive_or ttl default_session_ttl;
  }

  -- The entry is removed only if it still holds this pointer.
  unfoldable pub delete_if_same : String → ℕ → MemoryStore → MemoryStore
  delete_if_same id p st = elim (lookup id st.sessions) [
    | none ↦ st
    | some q ↦ if q == p then record st { sessions = delete id st.sessions } else st
  ]

  unfoldable pub get : String → ℕ → MemoryStore → MemoryStore × Option ℕ
  get id now st = elim (lookup id st.sessions) [
    | none ↦ (st, none)
    | some p ↦ if is_expired now (st.heap p) then (delete_if_same id p st, none) else (st, some p)
  ]

  abbrev create : String → String → ℕ → MemoryStore → MemoryStore × ℕ
  create id agent_name now st = (
    record st {
      next = suc st.next;
      heap = update st.heap st.next (new_session id agent_name (pos st.ttl) now);
      sessions = insert id st.next st.sessions;
    },
    st.next,
  )

  unfoldable pub get_or_create : String → String → ℕ → MemoryStore → MemoryStore × ℕ
  get_or_create id agent_name now st = elim (lookup id st.sessions) [
    | none ↦ create id agent_name now st
    | some p ↦
        if is_expired now (st.heap p)
        then create id agent_name now (record st { sessions = delete id st.sessions })
        else (st, p)
  ]

  unfoldable pub remove : String → MemoryStore → MemoryStore
  remove id st = record st { sessions = delete id st.sessions }

  unfoldable pub count : MemoryStore → ℕ
  count st = length st.sessions

  -- A turn of the session at an address, which a caller holds.
  unfoldable pub turn_at : ℕ → String → Build → ℕ → MemoryStore → MemoryStore × Option E
  turn_at p user_content build now st =
      let r = apply_turn user_content build now (st.heap p) in
      (record st { heap = update st.heap p r.0 }, r.1)

  -- Cleanup's first phase: the expired ones among the sessions of the store.
  unfoldable pub find_expired : ℕ → MemoryStore → Assoc ℕ → List ℕ
  find_expired now st [] = []
  find_expired now st (e ∷ rest) =
      let later = find_expired now st rest in
      if is_expired now (st.heap e.val) then e.val ∷ later else later

  -- Its second phase, under the lock: what is still the same and still expired is removed.
  unfoldable pub sweep : ℕ → ℕ → MemoryStore → MemoryStore
  sweep now p st =
      let id = (st.heap p).id in
      elim (lookup id st.sessions) [
        | none ↦ st
        | some q ↦
            if q == p && is_expired now (st.heap p)
            then record st { sessions = delete id st.sessions }
            else st
      ]

  unfoldable pub delete_expired : ℕ → List ℕ → MemoryStore → MemoryStore
  delete_expired now [] st = st
  delete_expired now (p ∷ ps) st = delete_expired now ps (sweep now p st)

  unfoldable pub cleanup : ℕ → MemoryStore → MemoryStore
  cleanup now st = delete_expired now (find_expired now st st.sessions) st
