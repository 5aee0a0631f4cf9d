-- ===== src/Logging/Termination.antt =====
-- The wait of Shutdown in internal/server/log_worker.go for the workers.
use mock_agents.Prelude.{
  ℕ, zero, suc, ◌+◌, ◌*◌, ◌≤◌, ◌<◌, Bool, true, false, ◌&&◌, ◌⊎◌, inl, inr, some, List, [], ◌∷◌,
  ◌≡◌, refl, sym, ap, ◌∙◌, ◌>>=◌, subst, arith, if◌then◌else◌, by_test, Option-cases, length,
  get_elem?, total, set_at, some-injective,
}
use mock_agents.Broadcaster.{InteractionLog}
use mock_agents.Logging.{
  Worker, looping, polling, writing, publishing, exited, LogWorker, look, take_next, receive,
  persist, publish_entry, Action, looks, receives, persists, publishes, by_worker, step, run,
}
use mock_agents.Logging.Moves.{
  alive, moves_left, work_left, same_place, same_places, same_places_refl, moves, Spends, nothing,
}
use mock_agents.Logging.Exits.{step-Spending}

step_cost :
    (w next : LogWorker)
    → Spends w next
    → (if same_places w.workers next.workers then 0 else 1) + work_left next ≤ work_left w
step_cost w next s = at s.spent
  where
    at :
        (work_left next < work_left w)
          ⊎ ((next.workers ≡ w.workers) × (work_left next ≤ work_left w))
        → (if same_places w.workers next.workers then 0 else 1) + work_left next ≤ work_left w
    at (inl less) =
        by_test (λ n. n + work_left next ≤ work_left w) (same_places w.workers next.workers) 0 1
          (λ _. omega (arith, less)) (λ _. omega (arith, less))
    at (inr (same, no_more)) =
        let rests : same_places w.workers next.workers ≡ true =
          ap (same_places w.workers) same ∙ same_places_refl w.workers in
        rw rests (omega (arith, no_more))

run-moves :
    (actions : List Action) (w after : LogWorker)
    → w.queue_closed ≡ true
    → run actions w ≡ some after
    → (moves actions w + work_left after ≤ work_left w) × (after.queue_closed ≡ true)
unfolding run moves
run-moves [] w after closed e =
    subst (λ v. (0 + work_left v ≤ work_left w) × (v.queue_closed ≡ true))
      (some-injective w after e) (omega arith, closed)
run-moves (a ∷ rest) w after closed e = elim (Option-cases (step a w)) [
  | inl panic ↦ absurd (nothing after (sym (ap (λ r. r >>= run rest) panic) ∙ e))
  | inr (next, went) ↦
      let s = step-Spending a w closed next went in
      let (fewer, shut) =
        run-moves rest next after s.closed_still (sym (ap (λ r. r >>= run rest) went) ∙ e) in
      (rw (moves, went) (omega (arith, step_cost w next s, fewer)), shut)
]

-- Some worker moves, by an action that it can take.
abbrev pub CanMove : LogWorker → Type 0
CanMove w =
    (a : Action) × (next : LogWorker) × (step a w ≡ some next)
    × (same_places w.workers next.workers ≡ false)

same_places-set_at :
    (ws : List Worker) (i : ℕ) (old new : Worker)
    → get_elem? ws i ≡ some old
    → same_place old new ≡ false
    → same_places ws (set_at ws i new) ≡ false
same_places-set_at [] i old new there differ = absurd (cc)
same_places-set_at (w ∷ ws) zero old new there differ = rw (some-injective w old there, differ) refl
same_places-set_at (w ∷ ws) (suc i) old new there differ =
    rw (same_places-set_at ws i old new there differ) (and_false (same_place w w))
  where
    and_false : (b : Bool) → (b && false) ≡ false
    and_false true = refl
    and_false false = refl

by_worker_at :
    (act : Worker → LogWorker → LogWorker) (i : ℕ) (v : Worker) (w : LogWorker)
    → get_elem? w.workers i ≡ some v
    → by_worker act i w ≡ act v w
by_worker_at act i v w there = rw (by_worker, there) refl

first_alive :
    (ws : List Worker)
    → 0 < total alive ws
    → (i : ℕ) × (v : Worker) × (get_elem? ws i ≡ some v) × (0 < alive v)
first_alive [] some_left = absurd (omega (arith, some_left))
first_alive (looping ∷ ws) some_left = (0, looping, refl, omega arith)
first_alive (polling ∷ ws) some_left = (0, polling, refl, omega arith)
first_alive (writing entry ∷ ws) some_left = (0, writing entry, refl, omega arith)
first_alive (publishing entry ∷ ws) some_left = (0, publishing entry, refl, omega arith)
first_alive (exited ∷ ws) some_left =
    let (i, v, there, runs) = first_alive ws (omega (arith, some_left)) in (suc i, v, there, runs)

takes :
    (i : ℕ) (q : List InteractionLog) (w : LogWorker)
    → get_elem? w.workers i ≡ some polling
    → w.queue_closed ≡ true
    → same_places w.workers (take_next i q w).workers ≡ false
takes i [] w there closed = rw closed (same_places-set_at w.workers i polling exited there refl)
takes i (entry ∷ rest) w there closed =
    same_places-set_at w.workers i polling (writing entry) there refl

worker-CanMove :
    (i : ℕ) (v : Worker) (w : LogWorker)
    → get_elem? w.workers i ≡ some v
    → 0 < alive v
    → w.queue_closed ≡ true
    → CanMove w
unfolding step look receive persist publish_entry
worker-CanMove i looping w there runs closed = (
  looks i,
  _,
  ap some (by_worker_at (look i) i looping w there),
  by_test (λ v. same_places w.workers (set_at w.workers i v) ≡ false) w.quit _ _
      (λ _. same_places-set_at w.workers i looping exited there refl)
      (λ _. same_places-set_at w.workers i looping polling there refl),
)
worker-CanMove i polling w there runs closed = (
  receives i,
  _,
  ap some (by_worker_at (receive i) i polling w there),
  takes i w.queue w there closed,
)
worker-CanMove i (writing entry) w there runs closed = (
  persists i true,
  _,
  ap some (by_worker_at (persist i true) i (writing entry) w there),
  same_places-set_at w.workers i (writing entry) (publishing entry) there refl,
)
worker-CanMove i (publishing entry) w there runs closed = (
  publishes i,
  _,
  ap some (by_worker_at (publish_entry i) i (publishing entry) w there),
  same_places-set_at w.workers i (publishing entry) looping there refl,
)
worker-CanMove i exited w there runs closed = absurd (omega (arith, runs))

-- The wait of Shutdown ends: once the queue is closed, in any interleaving that does not panic the
-- workers move at most as often as four times for each queued entry and as the places where they
-- stand allow, and as long as one of them has not exited, one of them can move.
pub shutdown_ends :
    (actions : List Action) (w after : LogWorker)
    → w.queue_closed ≡ true
    → run actions w ≡ some after
    → (moves actions w + work_left after ≤ 4 * length w.queue + total moves_left w.workers)
      × ((total alive after.workers ≡ 0) ⊎ CanMove after)
shutdown_ends actions w after closed e =
    let (bound, shut) = run-moves actions w after closed e in
    (bound, rest (total alive after.workers) refl shut)
  where
    rest :
        (n : ℕ)
        → total alive after.workers ≡ n
        → after.queue_closed ≡ true
        → (total alive after.workers ≡ 0) ⊎ CanMove after
    rest zero none_left shut = inl none_left
    rest (suc n) some_left shut =
        let (i, v, there, runs) = first_alive after.workers (omega (arith, some_left)) in
        inr (worker-CanMove i v after there runs shut)
