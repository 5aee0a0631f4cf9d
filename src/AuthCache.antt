-- ===== src/AuthCache.antt =====
-- internal/tenancy/auth_cache.go: the bounded cache of resolved API keys. SHA-256 is the parameter
-- `hash_key`, `P` the principal. A call is one step that reads the clock as `now`; the entries stand
-- in the order in which the eviction visits them.
pub mod Bound
pub mod Entries
mod Examples
use mock_agents.Prelude.{
  ℕ, zero, suc, ◌+◌, ◌*◌, Bool, true, false, not, ◌&&◌, ◌||◌, String, Option, none, some, List, [],
  ◌∷◌, if◌then◌else◌, ltb, leb, str_eq, ℤ, positive_or, Assoc, Entry, lookup, insert, delete, has,
  length,
}

module _ (P : Type 0) (hash_key : String → String) where
  pub record AuthCacheEntry : Type 0 where
    pub principal : P
    pub expiry : ℕ

  pub record AuthCache : Type 0 where
    pub entries : Assoc AuthCacheEntry
    pub ttl : ℕ
    pub max_size : ℕ

  unfoldable pub new_auth_cache : ℤ → ℤ → AuthCache
  new_auth_cache ttl max_size = record {
    entries = [];
    ttl = positive_or ttl (5 * 60 * 1_000_000_000);
    max_size = positive_or max_size 1024;
  }

  -- `now.After(e.expiry)`
  abbrev pub is_past : ℕ → AuthCacheEntry → Bool
  is_past now e = ltb e.expiry now

  abbrev pub without : String → AuthCache → AuthCache
  without k c = record c { entries = delete k c.entries }

  unfoldable pub get : String → ℕ → AuthCache → AuthCache × Option P
  get plaintext now c =
      if str_eq plaintext "" then (c, none) else elim (lookup (hash_key plaintext) c.entries) [
        | none ↦ (c, none)
        | some e ↦
            if is_past now e then (without (hash_key plaintext) c, none) else (c, some e.principal)
      ]

  -- The first loop of the eviction: the key of an expired entry.
  abbrev pub expired_key : ℕ → Assoc AuthCacheEntry → Option String
  expired_key now [] = none
  expired_key now (e ∷ rest) = if is_past now e.val then some e.key else expired_key now rest

  -- The second loop takes the key that `range` visits first. Go leaves that order open; here it is
  -- the order of the list, so an eviction from a given list is one of those that Go may do.
  abbrev pub any_key : Assoc AuthCacheEntry → Option String
  any_key [] = none
  any_key (e ∷ rest) = some e.key

  abbrev pub victim : ℕ → Assoc AuthCacheEntry → Option String
  victim now entries = elim (expired_key now entries) [ none ↦ any_key entries | some k ↦ some k ]

  unfoldable pub evict_one : ℕ → AuthCache → AuthCache
  evict_one now c = elim (victim now c.entries) [ none ↦ c | some k ↦ without k c ]

  abbrev pub room_for : String → ℕ → AuthCache → AuthCache
  room_for k now c =
      if not (has k c.entries) && leb c.max_size (length c.entries) then evict_one now c else c

  abbrev pub store : String → P → ℕ → AuthCache → AuthCache
  store k p now c = record c {
    entries = insert k (record { principal = p; expiry = now + c.ttl }) c.entries;
  }

  -- A nil principal or an empty key is not recorded.
  unfoldable pub set : String → Option P → ℕ → AuthCache → AuthCache
  set plaintext none now c = c
  set plaintext (some p) now c =
      if str_eq plaintext ""
      then c
      else store (hash_key plaintext) p now (room_for (hash_key plaintext) now c)

  unfoldable pub invalidate : AuthCache → AuthCache
  invalidate c = record c { entries = [] }

  pub data Use : Type 0 where
    gets : String → ℕ → Use
    sets : String → Option P → ℕ → Use
    invalidates : Use

  unfoldable pub run_uses : List Use → AuthCache → AuthCache
  run_uses [] c = c
  run_uses (gets key now ∷ rest) c = run_uses rest (get key now c).0
  run_uses (sets key p now ∷ rest) c = run_uses rest (set key p now c)
  run_uses (invalidates ∷ rest) c = run_uses rest (invalidate c)
