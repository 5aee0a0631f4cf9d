-- ===== src/Recording/Examples.antt =====
-- Two recordings of one request and one of another.
use mock_agents.Prelude.{
  lookup, String, some, List, [], ◌∷◌, ◌++◌, ◌≡◌, refl, arith, str_eq, if◌then◌else◌,
}
use mock_agents.Recording.{
  Interaction, Cassette, new, append_all, load, lookup_sequence, new_replay, advance, key_of, len,
  next_from_match_index,
}
use mock_agents.Recording.Index.{select, AllFilled, lookup_sequence-append_all}
use mock_agents.Recording.MatchIndex.{IsBuilt, next_from_match_index_lem}
use mock_agents.Recording.Cursor.{play, replay_lem}

abbrev by_path : String → String → String → String
by_path method path body = path

abbrev call : String → String → Interaction String
call path body = record { recorded_at = 0; hash = ""; method = "POST"; path = path; body = body }

abbrev old : List (Interaction String)
old = record { recorded_at = 5; hash = "/a"; method = "POST"; path = "/a"; body = "one" } ∷ []

abbrev fresh : List (Interaction String)
fresh = call "/b" "two" ∷ call "/a" "three" ∷ []

lookup_sequence-append_all_example :
    let c = append_all by_path 9 fresh (load by_path old (new by_path "tape")) in
    (held : List (Interaction String)) × AllFilled by_path 9 fresh held
    × (c.interactions ≡ old ++ held)
    × (lookup_sequence by_path "/a" c
        ≡ select (λ (it : Interaction String). it.hash) "/a" (old ++ held))
lookup_sequence-append_all_example = lookup_sequence-append_all by_path "tape" old fresh 9 "/a"

abbrev seqs : String → List (Interaction String)
seqs k = if str_eq k "/a" then call "/a" "one" ∷ call "/a" "three" ∷ [] else []

replay_lem_example :
    (advance by_path "/a"
      (seqs "/a")
      (play by_path seqs ("/a" ∷ "/b" ∷ "/a" ∷ "/a" ∷ []) (new_replay by_path))).1
    ≡ some (call "/a" "three")
replay_lem_example = replay_lem by_path seqs ("/a" ∷ "/b" ∷ "/a" ∷ "/a" ∷ []) "/a"

abbrev tape : Cassette by_path
tape = load by_path old (new by_path "tape")

new_replay-IsBuilt : IsBuilt by_path by_path tape (new_replay by_path)
unfolding new_replay lookup len
new_replay-IsBuilt = record { within = omega arith; unbuilt = λ nil. refl; indexed = λ k. refl }

next_from_match_index_lem_example :
    let r = next_from_match_index by_path by_path "/a" tape (new_replay by_path) in
    (r.1
      ≡ (advance by_path "/a"
          (select (λ (it : Interaction String). key_of by_path by_path it) "/a" tape.interactions)
          (new_replay by_path)).1)
    × (r.0.built_len ≡ len by_path tape)
    × IsBuilt by_path by_path tape r.0
    × IsBuilt by_path by_path (append_all by_path 9 fresh tape) r.0
next_from_match_index_lem_example =
    next_from_match_index_lem by_path by_path "/a" tape (new_replay by_path) 9 fresh
      new_replay-IsBuilt
