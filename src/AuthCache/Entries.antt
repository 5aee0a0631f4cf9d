-- ===== src/AuthCache/Entries.antt =====
-- What the cache answers for a key that was recorded.
use mock_agents.Prelude.{
  ℕ, ◌+◌, ◌≤◌, true, List, [], ◌∷◌, All, sym, arith, str_eq→eq, some-injective, lookup-delete_other,
  inl, inr, Bool-cases, false, not, ◌&&◌, String, Option, none, some, ◌≡◌, refl, ap, ◌∙◌,
  if◌then◌else◌, ltb, leb, str_eq, by_test, lookup, has, length, lookup-insert_self,
}
use mock_agents.AuthCache.{
  AuthCacheEntry, AuthCache, is_past, without, get, victim, evict_one, room_for, store, set,
  invalidate,
}

module _ (P : Type 0) (hash_key : String → String) where
  abbrev Cache : Type 0
  Cache = AuthCache P hash_key

  abbrev answer : ℕ → Option (AuthCacheEntry P hash_key) → Option P
  answer now none = none
  answer now (some e) = if is_past P hash_key now e then none else some e.principal

  get-answer :
      (key : String) (now : ℕ) (c : Cache)
      → str_eq key "" ≡ false
      → (get P hash_key key now c).1 ≡ answer now (lookup (hash_key key) c.entries)
  unfolding get
  get-answer key now c named =
      ap
        (λ b.
          let r : Cache × Option P =
            if b then (c, none) else at_entry (lookup (hash_key key) c.entries) in
          r.1)
        named
      ∙ same (lookup (hash_key key) c.entries)
    where
      at_entry : Option (AuthCacheEntry P hash_key) → Cache × Option P
      at_entry o = elim o as (λ _. Cache × Option P) [
        | none ↦ (c, none)
        | some e ↦
            if is_past P hash_key now e
            then (without P hash_key (hash_key key) c, none)
            else (c, some e.principal)
      ]

      same : (o : Option (AuthCacheEntry P hash_key)) → (at_entry o).1 ≡ answer now o
      same none = refl
      same (some e) = elim (Bool-cases (is_past P hash_key now e)) [
        | inl past ↦ rw past refl
        | inr live ↦ rw live refl
      ]

  room_for-ttl : (k : String) (now : ℕ) (c : Cache) → (room_for P hash_key k now c).ttl ≡ c.ttl
  unfolding evict_one
  room_for-ttl k now c =
      by_test (λ (r : Cache). r.ttl ≡ c.ttl)
        (not (has k c.entries) && leb c.max_size (length c.entries)) _ _
        (λ _. either (victim P hash_key now c.entries)) (λ _. refl)
    where
      either :
          (o : Option String)
          → (elim o as (λ _. Cache) [ none ↦ c | some j ↦ without P hash_key j c ]).ttl ≡ c.ttl
      either none = refl
      either (some k) = refl

  -- Gets, each at its time.
  unfoldable pub get_all : List (String × ℕ) → Cache → Cache
  get_all [] c = c
  get_all ((key, at) ∷ gs) c = get_all gs (get P hash_key key at c).0

  -- A Get of whatever key leaves an entry that has not expired.
  get-keeps :
      (k key : String) (at : ℕ) (e : AuthCacheEntry P hash_key) (c : Cache)
      → lookup k c.entries ≡ some e
      → at ≤ e.expiry
      → lookup k (get P hash_key key at c).0.entries ≡ some e
  unfolding get
  get-keeps k key at e c there live =
      by_test (λ (r : Cache × Option P). lookup k r.0.entries ≡ some e) (str_eq key "") _ _
        (λ _. there) (λ _. at_entry (lookup (hash_key key) c.entries) refl)
    where
      alone :
          (x : AuthCacheEntry P hash_key)
          → lookup (hash_key key) c.entries ≡ some x
          → is_past P hash_key at x ≡ true
          → str_eq (hash_key key) k ≡ false
      alone x found past = elim (Bool-cases (str_eq (hash_key key) k)) [
        | inl same ↦
            let one : some x ≡ some e =
              sym found ∙ ap (λ j. lookup j c.entries) (str_eq→eq (hash_key key) k same) ∙ there in
            absurd (ground (arith, live, past, ap (λ z. z.expiry) (some-injective x e one)))
        | inr other ↦ other
      ]

      at_entry :
          (o : Option (AuthCacheEntry P hash_key))
          → lookup (hash_key key) c.entries ≡ o
          → lookup k
              (elim o as (λ _. Cache × Option P) [
                | none ↦ (c, none)
                | some x ↦
                    if is_past P hash_key at x
                    then (without P hash_key (hash_key key) c, none)
                    else (c, some x.principal)
              ]).0.entries
            ≡ some e
      at_entry none found = there
      at_entry (some x) found =
          by_test (λ (r : Cache × Option P). lookup k r.0.entries ≡ some e)
            (is_past P hash_key at x) _ _
            (λ past. lookup-delete_other (hash_key key) k c.entries (alone x found past) ∙ there)
            (λ _. there)

  get_all-keeps :
      (gs : List (String × ℕ)) (k : String) (e : AuthCacheEntry P hash_key) (c : Cache)
      → lookup k c.entries ≡ some e
      → All (λ g. g.1 ≤ e.expiry) gs
      → lookup k (get_all gs c).entries ≡ some e
  unfolding get_all
  get_all-keeps [] k e c there all = there
  get_all-keeps ((key, at) ∷ gs) k e c there (live, all) =
      get_all-keeps gs k e (get P hash_key key at c).0 (get-keeps k key at e c there live) all

  set-lookup :
      (key : String) (p : P) (now : ℕ) (c : Cache)
      → str_eq key "" ≡ false
      → lookup (hash_key key) (set P hash_key key (some p) now c).entries
        ≡ some (record { principal = p; expiry = now + c.ttl })
  unfolding set
  set-lookup key p now c named =
      let k = hash_key key in
      let roomy = room_for P hash_key k now c in
      ap (λ b. lookup k (if b then c else store P hash_key k p now roomy).entries) named
      ∙ lookup-insert_self k (record { principal = p; expiry = now + roomy.ttl }) roomy.entries
      ∙ ap (λ t. some (record { principal = p; expiry = now + t })) (room_for-ttl k now c)

  -- A key that was recorded, also into a full cache, is answered with its principal up to the time to
  -- live and with none past it, whatever Gets, of any keys and within that time to live, come in
  -- between; and with none if the cache is then invalidated.
  pub get-set :
      (key : String) (p : P) (now later : ℕ) (c : Cache) (gs : List (String × ℕ))
      → str_eq key "" ≡ false
      → All (λ g. g.1 ≤ now + c.ttl) gs
      → let after = get_all gs (set P hash_key key (some p) now c) in
        ((get P hash_key key later after).1 ≡ (if ltb (now + c.ttl) later then none else some p))
        × ((get P hash_key key later (invalidate P hash_key after)).1 ≡ none)
  unfolding invalidate lookup
  get-set key p now later c gs named all =
      let after = get_all gs (set P hash_key key (some p) now c) in
      (
        get-answer key later after named
            ∙ ap (answer later) (
                get_all-keeps gs (hash_key key) (record { principal = p; expiry = now + c.ttl })
                  (set P hash_key key (some p) now c) (set-lookup key p now c named) all),
        get-answer key later (invalidate P hash_key after) named,
      )
