-- ===== src/AuthCache/Examples.antt =====
-- A cache for two keys.
use mock_agents.Prelude.{arith, ℕ, String, none, some, List, [], ◌∷◌, ◌≡◌, refl, pos}
use mock_agents.AuthCache.{
  AuthCache, new_auth_cache, get, set, invalidate, Use, gets, sets, run_uses,
}
use mock_agents.AuthCache.Bound.{IsBounded, run_uses-IsBounded}
use mock_agents.AuthCache.Entries.{get_all, get-set}

abbrev digest : String → String
digest s = s

abbrev uses : List (Use ℕ digest)
uses =
    sets "k1" (some 1) 10
    ∷ sets "k2" (some 2) 20
    ∷ sets "k3" (some 3) 30
    ∷ gets "k2" 45
    ∷ sets "" (some 4) 50
    ∷ []

run_uses-IsBounded_example :
    IsBounded ℕ digest (run_uses ℕ digest uses (new_auth_cache ℕ digest (pos 20) (pos 2)))
run_uses-IsBounded_example = run_uses-IsBounded ℕ digest uses (pos 20) (pos 2)

abbrev full : AuthCache ℕ digest
full = record {
  entries =
      record { key = "k1"; val = record { principal = 1; expiry = 30 } }
      ∷ record { key = "k2"; val = record { principal = 2; expiry = 40 } }
      ∷ [];
  ttl = 20;
  max_size = 2;
}

get-set_example :
    let after =
      get_all ℕ digest (("k2", 45) ∷ ("k3", 50) ∷ []) (set ℕ digest "k3" (some 3) 30 full) in
    ((get ℕ digest "k3" 50 after).1 ≡ some 3)
    × ((get ℕ digest "k3" 50 (invalidate ℕ digest after)).1 ≡ none)
get-set_example =
    get-set ℕ digest "k3" 3 30 50 full (("k2", 45) ∷ ("k3", 50) ∷ []) refl
      (omega arith, (omega arith, tt))
