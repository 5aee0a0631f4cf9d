-- ===== src/Logging/Moves.antt =====
-- The moves that the workers of internal/server/log_worker.go still have once the queue is closed.
use mock_agents.Prelude.{
  ℕ, ◌+◌, ◌*◌, ◌≤◌, ◌<◌, Bool, true, false, ◌&&◌, ◌⊎◌, inl, inr, Option, none, some, List, [], ◌∷◌,
  ◌≡◌, ◌≢◌, refl, ap, subst, arith, if◌then◌else◌, length, get_elem?, total, total-set_at, set_at,
  some-injective,
}
use mock_agents.Broadcaster.{InteractionLog}
use mock_agents.Logging.{
  Worker, looping, polling, writing, publishing, exited, LogWorker, Action, step,
}

-- A worker goroutine that still runs.
abbrev pub alive : Worker → ℕ
alive exited = 0
alive _ = 1

-- At most this many moves are before a worker that takes no further entry, and four for an entry.
abbrev pub moves_left : Worker → ℕ
moves_left looping = 2
moves_left polling = 1
moves_left (writing entry) = 4
moves_left (publishing entry) = 3
moves_left exited = 0

abbrev pub work_left : LogWorker → ℕ
work_left w = 4 * length w.queue + total moves_left w.workers

-- Where two lists of workers stand at the same places of the code.
abbrev pub same_place : Worker → Worker → Bool
same_place looping looping = true
same_place polling polling = true
same_place (writing a) (writing b) = true
same_place (publishing a) (publishing b) = true
same_place exited exited = true
same_place _ _ = false

abbrev pub same_places : List Worker → List Worker → Bool
same_places [] [] = true
same_places (a ∷ as_) (b ∷ bs) = same_place a b && same_places as_ bs
same_places _ _ = false

-- In how many steps of a history a worker moves.
unfoldable pub moves : List Action → LogWorker → ℕ
moves [] w = 0
moves (a ∷ rest) w = elim (step a w) [
  | none ↦ 0
  | some next ↦ (if same_places w.workers next.workers then 0 else 1) + moves rest next
]

same_place_refl : (a : Worker) → same_place a a ≡ true
same_place_refl looping = refl
same_place_refl polling = refl
same_place_refl (writing entry) = refl
same_place_refl (publishing entry) = refl
same_place_refl exited = refl

pub same_places_refl : (ws : List Worker) → same_places ws ws ≡ true
same_places_refl [] = refl
same_places_refl (a ∷ as_) = rw (same_place_refl a, same_places_refl as_)

-- A step with a closed queue leaves it closed, and a worker's move takes off some of the work.
pub record Spends (w after : LogWorker) : Type 0 where
  pub closed_still : after.queue_closed ≡ true
  pub spent :
      (work_left after < work_left w)
      ⊎ ((after.workers ≡ w.workers) × (work_left after ≤ work_left w))

abbrev pub Spending : LogWorker → Option LogWorker → Type 0
Spending w r = (after : LogWorker) → r ≡ some after → Spends w after

pub some-Spending : (w next : LogWorker) → Spends w next → Spending w (some next)
some-Spending w next s after e = subst (Spends w) (some-injective next after e) s

-- The parts that the workers use are as they were.
pub at_rest :
    (w next : LogWorker)
    → next.queue_closed ≡ true
    → next.workers ≡ w.workers
    → next.queue ≡ w.queue
    → Spends w next
at_rest w next closed same same_queue = record {
  closed_still = closed;
  spent = inr (
    same,
    omega
        (arith, ap (λ (q : List InteractionLog). length q) same_queue, ap (total moves_left) same),
  );
}

-- A worker moves to where fewer moves are left.
pub moved-Spends :
    (i : ℕ) (old new : Worker) (w next : LogWorker)
    → get_elem? w.workers i ≡ some old
    → moves_left new < moves_left old
    → next.queue_closed ≡ true
    → next.workers ≡ set_at w.workers i new
    → next.queue ≡ w.queue
    → Spends w next
moved-Spends i old new w next there less closed set same_queue = record {
  closed_still = closed;
  spent = inl (
      omega (
        arith,
        less,
        total-set_at moves_left w.workers i old new there,
        ap (λ (q : List InteractionLog). length q) same_queue,
        ap (total moves_left) set,
      ));
}

pub nothing : (after : LogWorker) → ◌≢◌ {A = Option LogWorker} none (some after)
nothing after h = cc
