-- ===== src/Recording/Cursor.antt =====
-- The place of a replay in each sequence of recorded interactions.
use mock_agents.Prelude.{
  ℕ, ◌+◌, ◌-◌, ◌≤◌, Bool, true, false, inl, inr, String, Option, none, some, List, [], ◌∷◌, ◌≡◌,
  refl, sym, ap, ◌∙◌, arith, if◌then◌else◌, leb, ◌==◌, by_test, str_eq, str_eq→eq, Bool-cases,
  subst, lookup, lookup-insert_self, lookup-insert_other, length, get_elem?,
}
use mock_agents.Recording.{Interaction, Replay, position, advance, new_replay}

module _ {B : Type 0} (hash_request : String → String → B → String)
    (seqs : String → List (Interaction B)) where
  abbrev Player : Type 0
  Player = Replay hash_request

  -- Requests for some keys, one after the other.
  unfoldable pub play : List String → Player → Player
  play [] rp = rp
  play (k ∷ ks) rp = play ks (advance hash_request k (seqs k) rp).0

  abbrev pub requests : String → List String → ℕ
  requests key [] = 0
  requests key (k ∷ ks) = (if str_eq k key then 1 else 0) + requests key ks

  abbrev pub least : ℕ → ℕ → ℕ
  least a b = if leb a b then a else b

  least_past : (p n : ℕ) → p ≤ n → leb n p ≡ true → p ≡ least (p + 1) n
  least_past p n h past = ground arith

  least_inside : (p n : ℕ) → leb n p ≡ false → p + 1 ≡ least (p + 1) n
  least_inside p n inside = ground arith

  least_empty : (p n : ℕ) → p ≤ n → (n == 0) ≡ true → p ≡ least (p + 1) n
  least_empty p n h empty = ground arith

  least_kept : (p n : ℕ) → p ≤ n → p ≡ least p n
  least_kept p n h = ground arith

  least-le : (p n : ℕ) → least p n ≤ n
  least-le p n = ground arith

  least_start : (p n : ℕ) → p ≤ n → p ≡ least (0 + p) n
  least_start p n h = ground arith

  least_step : (a d p n : ℕ) → least (a + least (d + p) n) n ≡ least (d + a + p) n
  least_step a d p n = ground arith

  abbrev place : String → Player → ℕ
  place key rp = position hash_request key rp.cursor

  place_here :
      (key : String) (rp : Player)
      → place key rp ≤ length (seqs key)
      → place key (advance hash_request key (seqs key) rp).0
        ≡ least (place key rp + 1) (length (seqs key))
  unfolding advance
  place_here key rp h =
      by_test
        (λ (r : Player × Option (Interaction B)).
          place key r.0 ≡ least (place key rp + 1) (length (seqs key)))
        (length (seqs key) == 0) _ _
        (λ empty. least_empty (place key rp) (length (seqs key)) h empty)
        (λ _.
          by_test
            (λ (r : Player × Option (Interaction B)).
              place key r.0 ≡ least (place key rp + 1) (length (seqs key)))
            (leb (length (seqs key)) (place key rp)) _ _
            (λ past. least_past (place key rp) (length (seqs key)) h past)
            (λ inside.
              ap (λ (o : Option ℕ). elim o as (λ _. ℕ) [ none ↦ 0 | some n ↦ n ])
                (lookup-insert_self key (place key rp + 1) rp.cursor)
              ∙ least_inside (place key rp) (length (seqs key)) inside))

  place_elsewhere :
      (k key : String) (rp : Player)
      → str_eq k key ≡ false
      → place key (advance hash_request k (seqs k) rp).0 ≡ place key rp
  unfolding advance
  place_elsewhere k key rp other =
      by_test (λ (r : Player × Option (Interaction B)). place key r.0 ≡ place key rp)
        (length (seqs k) == 0) _ _ (λ _. refl)
        (λ _.
          by_test (λ (r : Player × Option (Interaction B)). place key r.0 ≡ place key rp)
            (leb (length (seqs k)) (place k rp)) _ _ (λ _. refl)
            (λ _.
              ap (λ (o : Option ℕ). elim o as (λ _. ℕ) [ none ↦ 0 | some n ↦ n ])
                (lookup-insert_other k key (place k rp + 1) rp.cursor other)))

  place_next :
      (k key : String) (rp : Player)
      → place key rp ≤ length (seqs key)
      → place key (advance hash_request k (seqs k) rp).0
        ≡ least ((if str_eq k key then 1 else 0) + place key rp) (length (seqs key))
  place_next k key rp h = elim (Bool-cases (str_eq k key)) [
    | inl same ↦
        subst
          (λ j.
            place key (advance hash_request j (seqs j) rp).0
            ≡ least (place key rp + 1) (length (seqs key)))
          (sym (str_eq→eq k key same)) (place_here key rp h)
        ∙ ap (λ n. least n (length (seqs key))) (one_more (str_eq k key) (place key rp) same)
    | inr other ↦
        place_elsewhere k key rp other
        ∙ least_start (place key rp) (length (seqs key)) h
        ∙ ap (λ b. least ((if b then 1 else 0) + place key rp) (length (seqs key))) (sym other)
  ]
    where
      one_more : (b : Bool) (p : ℕ) → b ≡ true → p + 1 ≡ (if b then 1 else 0) + p
      one_more b p same = ground arith

  place-play :
      (ks : List String) (key : String) (rp : Player)
      → place key rp ≤ length (seqs key)
      → place key (play ks rp) ≡ least (requests key ks + place key rp) (length (seqs key))
  unfolding play
  place-play [] key rp h = least_start (place key rp) (length (seqs key)) h
  place-play (k ∷ ks) key rp h =
      let d : ℕ = if str_eq k key then 1 else 0 in
      let n = length (seqs key) in
      let moved = place_next k key rp h in
      place-play ks key (advance hash_request k (seqs k) rp).0
        (subst (λ p. p ≤ n) (sym moved) (least-le (d + place key rp) n))
      ∙ ap (λ p. least (requests key ks + p) n) moved
      ∙ least_step (requests key ks) d (place key rp) n

  -- The answer to a request, from its place in the sequence; there is none without a sequence.
  served :
      (key : String) (rp : Player)
      → (advance hash_request key (seqs key) rp).1
        ≡ get_elem? (seqs key) (least (place key rp) (length (seqs key) - 1))
  unfolding advance
  served key rp =
      by_test
        (λ (r : Player × Option (Interaction B)).
          r.1 ≡ get_elem? (seqs key) (least (place key rp) (length (seqs key) - 1)))
        (length (seqs key) == 0) _ _
        (λ empty.
          sym (nothing_there (seqs key) (least (place key rp) (length (seqs key) - 1)) empty))
        (λ full.
          by_test
            (λ (r : Player × Option (Interaction B)).
              r.1 ≡ get_elem? (seqs key) (least (place key rp) (length (seqs key) - 1)))
            (leb (length (seqs key)) (place key rp)) _ _
            (λ past.
              ap (get_elem? (seqs key)) (last_one (place key rp) (length (seqs key)) past full))
            (λ inside.
              ap (get_elem? (seqs key)) (this_one (place key rp) (length (seqs key)) inside)))
    where
      nothing_there :
          (xs : List (Interaction B)) (i : ℕ) → (length xs == 0) ≡ true → get_elem? xs i ≡ none
      nothing_there [] i empty = refl
      nothing_there (x ∷ xs) i empty = absurd (ground arith)

      last_one : (p n : ℕ) → leb n p ≡ true → (n == 0) ≡ false → n - 1 ≡ least p (n - 1)
      last_one p n past full = ground arith

      this_one : (p n : ℕ) → leb n p ≡ false → p ≡ least p (n - 1)
      this_one p n inside = ground arith

  -- After any requests for any keys on a new replay, a request for a key is answered by the recorded
  -- interaction of that key with the number of the requests for it before, the last one from there
  -- on; there is no answer only for a key without interactions.
  pub replay_lem :
      (ks : List String) (key : String)
      → (advance hash_request key (seqs key) (play ks (new_replay hash_request))).1
        ≡ get_elem? (seqs key) (least (requests key ks) (length (seqs key) - 1))
  unfolding new_replay lookup
  replay_lem ks key =
      served key (play ks (new_replay hash_request))
      ∙ ap (λ p. get_elem? (seqs key) (least p (length (seqs key) - 1)))
          (place-play ks key (new_replay hash_request) (start key))
      ∙ ap (get_elem? (seqs key)) (
          from_start (requests key ks) (length (seqs key)) (place key (new_replay hash_request))
            (start_zero key))
    where
      start_zero : (k : String) → place k (new_replay hash_request) ≡ 0
      start_zero k = refl

      start : (k : String) → place k (new_replay hash_request) ≤ length (seqs k)
      start k = omega (arith, start_zero k)

      from_start : (a n z : ℕ) → z ≡ 0 → least (least (a + z) n) (n - 1) ≡ least a (n - 1)
      from_start a n z h = ground arith
