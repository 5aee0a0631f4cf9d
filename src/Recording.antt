-- ===== src/Recording.antt =====
-- internal/recording/cassette.go, replay.go, matcher.go and mode.go: recorded interactions and their
-- replay. HashRequest and the matcher's Key, which decode JSON and hash, are the parameters
-- `hash_request` and `match_key`; an interaction is shared by pointer but never written after it is recorded.
pub mod Index
pub mod MatchIndex
pub mod Cursor
pub mod Modes
mod Examples
use mock_agents.Prelude.{
  ℕ, zero, suc, ◌+◌, ◌-◌, ◌<◌, Bool, true, false, ◌||◌, not, String, Option, none, some, List, [],
  ◌∷◌, ◌++◌, if◌then◌else◌, ltb, leb, ◌==◌, str_eq, Assoc, lookup, insert, length, drop, get_elem?,
}

-- `B` is a body with its headers, status and events.
pub record Interaction (B : Type 0) : Type 0 where
  pub recorded_at : ℕ
  pub hash : String
  pub method : String
  pub path : String
  pub body : B

-- Go's `m[k]` of a map of slices: nil if there is none.
abbrev pub sequence_of {ℓ} : {A : Type ℓ} → String → Assoc (List A) → List A
sequence_of k m = elim (lookup k m) [ none ↦ [] | some s ↦ s ]

-- `m[k] = append(m[k], a)`
abbrev pub append_to {ℓ} : {A : Type ℓ} → String → A → Assoc (List A) → Assoc (List A)
append_to k a m = insert k (sequence_of k m ++ a ∷ []) m

module _ {B : Type 0} (hash_request : String → String → B → String) where
  pub record Cassette : Type 0 where
    pub path : String
    pub interactions : List (Interaction B)
    pub by_hash : Assoc (List (Interaction B))

  unfoldable pub new : String → Cassette
  new path = record { path = path; interactions = []; by_hash = [] }

  -- The hash and the time of a new interaction, if they are not there.
  abbrev pub completed : ℕ → Interaction B → Interaction B
  completed now it = record it {
    hash = if str_eq it.hash "" then hash_request it.method it.path it.body else it.hash;
    recorded_at = if it.recorded_at == 0 then now else it.recorded_at;
  }

  abbrev pub index_one : Interaction B → Cassette → Cassette
  index_one it c = record c {
    interactions = c.interactions ++ it ∷ [];
    by_hash = append_to it.hash it c.by_hash;
  }

  -- Append, apart from the file.
  unfoldable pub append_one : ℕ → Interaction B → Cassette → Cassette
  append_one now it c = index_one (completed now it) c

  unfoldable pub append_all : ℕ → List (Interaction B) → Cassette → Cassette
  append_all now [] c = c
  append_all now (it ∷ its) c = append_all now its (index_one (completed now it) c)

  unfoldable pub load : List (Interaction B) → Cassette → Cassette
  load [] c = c
  load (it ∷ its) c = load its (index_one it c)

  unfoldable pub len : Cassette → ℕ
  len c = length c.interactions

  unfoldable pub lookup_first : String → Cassette → Option (Interaction B)
  lookup_first hash c = get_elem? (sequence_of hash c.by_hash) 0

  unfoldable pub lookup_sequence : String → Cassette → List (Interaction B)
  lookup_sequence hash c = sequence_of hash c.by_hash

  -- The replay's own state; `Option` for a map that may be nil.
  pub record Replay : Type 0 where
    pub cursor : Assoc ℕ
    pub built_len : ℕ
    pub by_match_key : Option (Assoc (List (Interaction B)))

  unfoldable pub new_replay : Replay
  new_replay = record { cursor = []; built_len = 0; by_match_key = none }

  abbrev pub position : String → Assoc ℕ → ℕ
  position key cursor = elim (lookup key cursor) [ none ↦ 0 | some n ↦ n ]

  unfoldable pub advance : String → List (Interaction B) → Replay → Replay × Option (Interaction B)
  advance key seq rp =
      let idx = position key rp.cursor in
      if length seq == 0
      then (rp, none)
      else if leb (length seq) idx
      then (rp, get_elem? seq (length seq - 1))
      else (record rp { cursor = insert key (idx + 1) rp.cursor }, get_elem? seq idx)

  unfoldable pub next : String → Cassette → Replay → Replay × Option (Interaction B)
  next hash c rp = advance hash (lookup_sequence hash c) rp

  module _ (match_key : String → String → B → String) where
    abbrev pub key_of : Interaction B → String
    key_of it = match_key it.method it.path it.body

    abbrev pub index_all :
        List (Interaction B) → Assoc (List (Interaction B)) → Assoc (List (Interaction B))
    index_all [] index = index
    index_all (it ∷ its) index = index_all its (append_to (key_of it) it index)

    abbrev pub index_of : Option (Assoc (List (Interaction B))) → Assoc (List (Interaction B))
    index_of none = []
    index_of (some index) = index

    unfoldable pub extend_match_index : Cassette → Replay → Replay
    extend_match_index c rp = record rp {
      by_match_key = some (index_all (drop rp.built_len c.interactions) (index_of rp.by_match_key));
      built_len = length c.interactions;
    }

    abbrev pub is_nil : Option (Assoc (List (Interaction B))) → Bool
    is_nil none = true
    is_nil (some index) = false

    unfoldable pub next_from_match_index :
        String → Cassette → Replay → Replay × Option (Interaction B)
    next_from_match_index key c rp =
        let extended =
          if is_nil rp.by_match_key || ltb rp.built_len (len c)
          then extend_match_index c rp
          else rp in
        advance key (sequence_of key (index_of extended.by_match_key)) extended
