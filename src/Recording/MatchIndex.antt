-- ===== src/Recording/MatchIndex.antt =====
-- The replay's index by match keys, which grows with the cassette.
use mathlib.Core.List.{append_assoc}
use mock_agents.Prelude.{
  ℕ, zero, suc, ◌≤◌, ◌-◌, ◌==◌, leb, get_elem?, Bool, true, false, ◌||◌, inl, inr, String, Option,
  none, List, [], ◌∷◌, ◌++◌, ◌≡◌, refl, sym, ap, ◌∙◌, arith, if◌then◌else◌, ltb, by_test,
  Bool-cases, Assoc, length, length-append, take, drop, take-append-drop,
}
use mock_agents.Recording.{
  Interaction, sequence_of, Cassette, append_all, len, Replay, position, advance, key_of, index_all,
  index_of, is_nil, extend_match_index, next_from_match_index,
}
use mock_agents.Recording.Index.{
  select, Indexes, Indexes-append_to, all_completed, append-nil, append_all-interactions,
}

module _ {B : Type 0} (hash_request : String → String → B → String) where
  module _ (match_key : String → String → B → String) where
    abbrev keyed : Interaction B → String
    keyed it = key_of hash_request match_key it

    -- The match index covers the first `built_len` interactions.
    pub record IsBuilt (c : Cassette hash_request) (rp : Replay hash_request) : Type 0 where
      pub within : rp.built_len ≤ len hash_request c
      pub unbuilt : is_nil hash_request match_key rp.by_match_key ≡ true → rp.built_len ≡ 0
      pub indexed :
          Indexes keyed
            (index_of hash_request match_key rp.by_match_key)
            (take rp.built_len c.interactions)

    index_all-Indexes :
        (its xs : List (Interaction B)) (m : Assoc (List (Interaction B)))
        → Indexes keyed m xs
        → Indexes keyed (index_all hash_request match_key its m) (xs ++ its)
    index_all-Indexes [] xs m h k = h k ∙ ap (select keyed k) (sym (append-nil xs))
    index_all-Indexes (it ∷ its) xs m h k =
        index_all-Indexes its (xs ++ it ∷ []) _ (Indexes-append_to keyed m xs it h) k
        ∙ ap (select keyed k) (append_assoc xs (it ∷ []) its)

    take_all : (xs : List (Interaction B)) → take (length xs) xs ≡ xs
    take_all [] = refl
    take_all (x ∷ xs) = ap (λ r. x ∷ r) (take_all xs)

    extend-IsBuilt :
        (c : Cassette hash_request) (rp : Replay hash_request)
        → IsBuilt c rp
        → IsBuilt c (extend_match_index hash_request match_key c rp)
    unfolding extend_match_index len
    extend-IsBuilt c rp b = record {
      within = omega arith;
      unbuilt = λ nil. absurd (cc);
      indexed = λ k.
          index_all-Indexes (drop rp.built_len c.interactions) (take rp.built_len c.interactions) _
            b.indexed k
          ∙ ap (select keyed k)
              (take-append-drop rp.built_len c.interactions ∙ sym (take_all c.interactions));
    }

    advance-IsBuilt :
        (key : String) (seq : List (Interaction B)) (c : Cassette hash_request)
        (rp : Replay hash_request)
        → IsBuilt c rp
        → IsBuilt c (advance hash_request key seq rp).0
    unfolding advance
    advance-IsBuilt key seq c rp b =
        by_test (λ (r : Replay hash_request × Option (Interaction B)). IsBuilt c r.0)
          (length seq == 0) _ _ (λ _. b)
          (λ _.
            by_test (λ (r : Replay hash_request × Option (Interaction B)). IsBuilt c r.0)
              (leb (length seq) (position hash_request key rp.cursor)) _ _ (λ _. b)
              (λ _. record { within = b.within; unbuilt = b.unbuilt; indexed = b.indexed }))

    advance-built_len :
        (key : String) (seq : List (Interaction B)) (rp : Replay hash_request)
        → (advance hash_request key seq rp).0.built_len ≡ rp.built_len
    unfolding advance
    advance-built_len key seq rp =
        by_test (λ (r : Replay hash_request × Option (Interaction B)). r.0.built_len ≡ rp.built_len)
          (length seq == 0) _ _ (λ _. refl)
          (λ _.
            by_test
              (λ (r : Replay hash_request × Option (Interaction B)). r.0.built_len ≡ rp.built_len)
              (leb (length seq) (position hash_request key rp.cursor)) _ _ (λ _. refl) (λ _. refl))

    -- An answer depends on the sequence and the cursor only.
    same_answer :
        (key : String) (seq : List (Interaction B)) (rp other : Replay hash_request)
        → other.cursor ≡ rp.cursor
        → (advance hash_request key seq other).1 ≡ (advance hash_request key seq rp).1
    unfolding advance
    same_answer key seq rp other e =
        answer_of key seq other ∙ ap (answer key seq) e ∙ sym (answer_of key seq rp)
      where
        answer : String → List (Interaction B) → Assoc ℕ → Option (Interaction B)
        answer key seq cursor =
            if length seq == 0
            then none
            else if leb (length seq) (position hash_request key cursor)
            then get_elem? seq (length seq - 1)
            else get_elem? seq (position hash_request key cursor)

        answer_of :
            (key : String) (seq : List (Interaction B)) (r : Replay hash_request)
            → (advance hash_request key seq r).1 ≡ answer key seq r.cursor
        answer_of key seq r = elim (Bool-cases (length seq == 0)) [
          | inl empty ↦ rw (advance, empty)
          | inr full ↦ elim (Bool-cases (leb (length seq) (position hash_request key r.cursor))) [
            | inl past ↦ rw (advance, full, past)
            | inr inside ↦ rw (advance, full, inside)
          ]
        ]

    take-len :
        (c : Cassette hash_request) → take (len hash_request c) c.interactions ≡ c.interactions
    unfolding len
    take-len c = take_all c.interactions

    take-append :
        (n : ℕ) (xs ys : List (Interaction B)) → n ≤ length xs → take n (xs ++ ys) ≡ take n xs
    take-append zero xs ys h = refl
    take-append (suc n) [] ys h = absurd (omega (arith, h))
    take-append (suc n) (x ∷ xs) ys h = ap (λ r. x ∷ r) (take-append n xs ys (omega (arith, h)))

    grown-IsBuilt :
        (now : ℕ) (its : List (Interaction B)) (c : Cassette hash_request)
        (rp : Replay hash_request)
        → IsBuilt c rp
        → IsBuilt (append_all hash_request now its c) rp
    unfolding len
    grown-IsBuilt now its c rp b =
        let held = append_all-interactions hash_request now its c in
        record {
          within = omega (
            arith,
            b.within,
            length-append c.interactions (all_completed hash_request now its),
            ap (λ (xs : List (Interaction B)). length xs) held,
          );
          unbuilt = b.unbuilt;
          indexed = λ k.
              b.indexed k
              ∙ ap (select keyed k) (
                  sym (
                    ap (take rp.built_len) held
                    ∙ take-append rp.built_len c.interactions (all_completed hash_request now its)
                        b.within));
        }

    extended-IsBuilt :
        (c : Cassette hash_request) (rp : Replay hash_request)
        → IsBuilt c rp
        → let r : Replay hash_request =
            if is_nil hash_request match_key rp.by_match_key
              || ltb rp.built_len (len hash_request c)
            then extend_match_index hash_request match_key c rp
            else rp in
          IsBuilt c r × (r.cursor ≡ rp.cursor) × (r.built_len ≡ len hash_request c)
    unfolding extend_match_index len
    extended-IsBuilt c rp b =
        by_test
          (λ (r : Replay hash_request).
            IsBuilt c r × (r.cursor ≡ rp.cursor) × (r.built_len ≡ length c.interactions))
          (is_nil hash_request match_key rp.by_match_key
            || ltb rp.built_len (length c.interactions))
          _ _ (λ _. (extend-IsBuilt c rp b, refl, refl))
          (λ covered. (
            b,
            refl,
            caught_up (is_nil hash_request match_key rp.by_match_key) rp.built_len
                (length c.interactions) b.within covered,
          ))
      where
        caught_up : (nil : Bool) (m n : ℕ) → m ≤ n → (nil || ltb m n) ≡ false → m ≡ n
        caught_up true m n h covered = absurd (cc)
        caught_up false m n h covered = ground arith

    -- Whatever part of the cassette the match index covers, a request under a match key is answered
    -- from all the recorded interactions with that key, in order; the index then covers the whole
    -- cassette, and so a beginning of the longer one after further recordings.
    pub next_from_match_index_lem :
        (key : String) (c : Cassette hash_request) (rp : Replay hash_request) (now : ℕ)
        (its : List (Interaction B))
        → IsBuilt c rp
        → let r = next_from_match_index hash_request match_key key c rp in
          (r.1 ≡ (advance hash_request key (select keyed key c.interactions) rp).1)
          × (r.0.built_len ≡ len hash_request c)
          × IsBuilt c r.0
          × IsBuilt (append_all hash_request now its c) r.0
    unfolding next_from_match_index
    next_from_match_index_lem key c rp now its b =
        let ext : Replay hash_request =
          if is_nil hash_request match_key rp.by_match_key || ltb rp.built_len (len hash_request c)
          then extend_match_index hash_request match_key c rp
          else rp in
        let e = extended-IsBuilt c rp b in
        let seq = sequence_of key (index_of hash_request match_key ext.by_match_key) in
        let built = advance-IsBuilt key seq c ext e.0 in
        (
          same_answer key seq rp ext e.1
              ∙ ap (λ s. (advance hash_request key s rp).1)
                  (e.0.indexed key
                    ∙ ap (λ n. select keyed key (take n c.interactions)) e.2
                    ∙ ap (select keyed key) (take-len c)),
          advance-built_len key seq ext ∙ e.2,
          built,
          grown-IsBuilt now its c _ built,
        )
