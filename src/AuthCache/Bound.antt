-- ===== src/AuthCache/Bound.antt =====
-- The cache never holds more than its maximum.
use mock_agents.Prelude.{
  ℕ, suc, ◌+◌, ◌≤◌, ◌<◌, Bool, true, false, not, ◌&&◌, ◌⊎◌, inl, inr, String, Option, none, some,
  List, [], ◌∷◌, ◌≡◌, some-injective, refl, sym, ap, ◌∙◌, subst, arith, if◌then◌else◌, leb, str_eq,
  str_eq_refl, by_test, Bool-cases, Option-cases, ℤ, positive_or-pos, Assoc, lookup, insert, delete,
  has, length, length-insert, length-delete-le,
}
use mock_agents.AuthCache.{
  AuthCacheEntry, AuthCache, new_auth_cache, is_past, without, get, expired_key, any_key, victim,
  evict_one, room_for, store, set, invalidate, Use, gets, sets, invalidates, run_uses,
}

module _ (P : Type 0) (hash_key : String → String) where
  abbrev pub Cache : Type 0
  Cache = AuthCache P hash_key

  pub record IsBounded (c : Cache) : Type 0 where
    pub some_room : 0 < c.max_size
    pub bounded : length c.entries ≤ c.max_size

  abbrev Table : Type 0
  Table = Assoc (AuthCacheEntry P hash_key)

  length-delete-has : (k : String) (t : Table) → has k t ≡ true → length (delete k t) < length t
  unfolding has delete
  length-delete-has k [] h = absurd (cc)
  length-delete-has k (e ∷ rest) h = elim (Bool-cases (str_eq e.key k)) [
    | inl same ↦ rw same (omega (arith, length-delete-le k rest))
    | inr other ↦ rw other (
        omega (
          arith,
          length-delete-has k rest (sym (ap (λ b. if b then true else has k rest) other) ∙ h),
        ))
  ]

  expired_key-has :
      (now : ℕ) (t : Table) (k : String) → expired_key P hash_key now t ≡ some k → has k t ≡ true
  unfolding has
  expired_key-has now [] k h = absurd (cc)
  expired_key-has now (e ∷ rest) k h = elim (Bool-cases (is_past P hash_key now e.val)) [
    | inl past ↦
        let here : e.key ≡ k =
          some-injective e.key k
            (sym (ap (λ b. if b then some e.key else expired_key P hash_key now rest) past) ∙ h) in
        ap (λ b. if b then true else has k rest)
          (ap (λ j. str_eq e.key j) (sym here) ∙ str_eq_refl e.key)
    | inr live ↦ elim (Bool-cases (str_eq e.key k)) [
      | inl same ↦ ap (λ b. if b then true else has k rest) same
      | inr other ↦
          ap (λ b. if b then true else has k rest) other
          ∙ expired_key-has now rest k
              (sym (ap (λ b. if b then some e.key else expired_key P hash_key now rest) live) ∙ h)
    ]
  ]

  any_key-has :
      (t : Table)
      → (length t ≡ 0) ⊎ (k : String) × (any_key P hash_key t ≡ some k) × (has k t ≡ true)
  unfolding has
  any_key-has [] = inl refl
  any_key-has (e ∷ rest) =
      inr (e.key, refl, ap (λ b. if b then true else has e.key rest) (str_eq_refl e.key))

  -- The key that the eviction picks is there; it picks none only from an empty cache.
  victim-has :
      (now : ℕ) (t : Table)
      → (length t ≡ 0) ⊎ (k : String) × (victim P hash_key now t ≡ some k) × (has k t ≡ true)
  victim-has now t = elim (Option-cases (expired_key P hash_key now t)) [
    | inr (k, found) ↦ inr (
      k,
      ap
          (λ (o : Option String). elim o as (λ _. Option String) [
            | none ↦ any_key P hash_key t
            | some j ↦ some j
          ])
          found,
      expired_key-has now t k found,
    )
    | inl fresh ↦ elim (any_key-has t) [
      | inl empty ↦ inl empty
      | inr (k, found, there) ↦ inr (
        k,
        ap
              (λ (o : Option String). elim o as (λ _. Option String) [
                | none ↦ any_key P hash_key t
                | some j ↦ some j
              ])
              fresh
            ∙ found,
        there,
      )
    ]
  ]

  evict_one-length :
      (now : ℕ) (c : Cache)
      → 0 < length c.entries
      → length (evict_one P hash_key now c).entries < length c.entries
  unfolding evict_one
  evict_one-length now c some_entry = elim (victim-has now c.entries) [
    | inl empty ↦ absurd (omega (arith, some_entry, empty))
    | inr (k, picked, there) ↦
        subst
          (λ (o : Option String).
            length (elim o as (λ _. Cache) [ none ↦ c | some j ↦ without P hash_key j c ]).entries
            < length c.entries)
          (sym picked) (length-delete-has k c.entries there)
  ]

  evict_one-max_size : (now : ℕ) (c : Cache) → (evict_one P hash_key now c).max_size ≡ c.max_size
  unfolding evict_one
  evict_one-max_size now c = either (victim P hash_key now c.entries)
    where
      either :
          (o : Option String)
          → (elim o as (λ _. Cache) [ none ↦ c | some j ↦ without P hash_key j c ]).max_size
            ≡ c.max_size
      either none = refl
      either (some k) = refl

  insert-le :
      (k : String) (v : AuthCacheEntry P hash_key) (t : Table)
      → length (insert k v t) ≤ suc (length t)
  insert-le k v t = ground (arith, length-insert k v t)

  full_at_max : (h : Bool) (m n : ℕ) → (not h && leb m n) ≡ true → m ≤ n
  full_at_max true m n full = absurd (cc)
  full_at_max false m n full = ground arith

  room_cases : (h : Bool) (m n : ℕ) → (not h && leb m n) ≡ false → (h ≡ true) ⊎ (n < m)
  room_cases true m n room = inl refl
  room_cases false m n room = inr (ground arith)

  store-IsBounded :
      (k : String) (p : P) (now : ℕ) (c : Cache)
      → IsBounded c
      → IsBounded (store P hash_key k p now (room_for P hash_key k now c))
  store-IsBounded k p now c b =
      let v : AuthCacheEntry P hash_key = record { principal = p; expiry = now + c.ttl } in
      by_test (λ (r : Cache). IsBounded (store P hash_key k p now r))
        (not (has k c.entries) && leb c.max_size (length c.entries)) _ _
        (λ full.
          let at_max = full_at_max (has k c.entries) c.max_size (length c.entries) full in
          let shorter = evict_one-length now c (omega (arith, at_max, b.some_room)) in
          record {
            some_room = omega (arith, b.some_room, evict_one-max_size now c);
            bounded = omega (
              arith,
              b.bounded,
              shorter,
              evict_one-max_size now c,
              insert-le k
                  (record { principal = p; expiry = now + (evict_one P hash_key now c).ttl })
                  (evict_one P hash_key now c).entries,
            );
          })
        (λ room. elim (room_cases (has k c.entries) c.max_size (length c.entries) room) [
          | inl there ↦ record {
            some_room = b.some_room;
            bounded = omega (
              arith,
              b.bounded,
              length-insert k v c.entries
                  ∙ ap (λ h. if h then length c.entries else suc (length c.entries)) there,
            );
          }
          | inr below ↦ record {
            some_room = b.some_room;
            bounded = omega (arith, below, insert-le k v c.entries);
          }
        ])

  set-IsBounded :
      (plaintext : String) (p : Option P) (now : ℕ) (c : Cache)
      → IsBounded c
      → IsBounded (set P hash_key plaintext p now c)
  unfolding set
  set-IsBounded plaintext none now c b = b
  set-IsBounded plaintext (some p) now c b =
      by_test IsBounded (str_eq plaintext "") _ _ (λ _. b)
        (λ _. store-IsBounded (hash_key plaintext) p now c b)

  without-IsBounded : (k : String) (c : Cache) → IsBounded c → IsBounded (without P hash_key k c)
  without-IsBounded k c b = record {
    some_room = b.some_room;
    bounded = omega (arith, b.bounded, length-delete-le k c.entries);
  }

  get-IsBounded :
      (plaintext : String) (now : ℕ) (c : Cache)
      → IsBounded c
      → IsBounded (get P hash_key plaintext now c).0
  unfolding get
  get-IsBounded plaintext now c b =
      by_test (λ (r : Cache × Option P). IsBounded r.0) (str_eq plaintext "") _ _ (λ _. b)
        (λ _. at_entry (lookup (hash_key plaintext) c.entries))
    where
      at_entry :
          (o : Option (AuthCacheEntry P hash_key))
          → IsBounded
              (elim o as (λ _. Cache × Option P) [
                | none ↦ (c, none)
                | some e ↦
                    if is_past P hash_key now e
                    then (without P hash_key (hash_key plaintext) c, none)
                    else (c, some e.principal)
              ]).0
      at_entry none = b
      at_entry (some e) =
          by_test (λ (r : Cache × Option P). IsBounded r.0) (is_past P hash_key now e) _ _
            (λ _. without-IsBounded (hash_key plaintext) c b) (λ _. b)

  uses-IsBounded :
      (uses : List (Use P hash_key)) (c : Cache)
      → IsBounded c
      → IsBounded (run_uses P hash_key uses c)
  unfolding run_uses invalidate
  uses-IsBounded [] c b = b
  uses-IsBounded (gets key now ∷ rest) c b =
      uses-IsBounded rest (get P hash_key key now c).0 (get-IsBounded key now c b)
  uses-IsBounded (sets key p now ∷ rest) c b =
      uses-IsBounded rest (set P hash_key key p now c) (set-IsBounded key p now c b)
  uses-IsBounded (invalidates ∷ rest) c b =
      uses-IsBounded rest (invalidate P hash_key c)
        (record { some_room = b.some_room; bounded = omega arith })

  -- After any uses of a new cache it has no more entries than its maximum, which is positive.
  pub run_uses-IsBounded :
      (uses : List (Use P hash_key)) (ttl max_size : ℤ)
      → IsBounded (run_uses P hash_key uses (new_auth_cache P hash_key ttl max_size))
  unfolding new_auth_cache
  run_uses-IsBounded uses ttl max_size =
      uses-IsBounded uses (new_auth_cache P hash_key ttl max_size)
        (record { some_room = positive_or-pos max_size 1024 (omega arith); bounded = omega arith })
