-- ===== src/Logging.antt =====
-- internal/server/log_worker.go: the queue of log entries between the requests and the workers that
-- store them. Every atomic action of a goroutine is a step of its own, so a history is any
-- interleaving; a step that its goroutine cannot take yet (it is blocked, or elsewhere in its code)
-- leaves the state as it is. There is a store; without one Submit returns at once and logs nothing.
-- A send on a closed channel and a second close panic, which is `none`.
pub mod Accounts
pub mod Interleavings
pub mod Moves
pub mod Exits
pub mod Shutdown
pub mod Termination
mod Examples
use mock_agents.Prelude.{
  ℕ, zero, suc, ◌+◌, ◌-◌, ◌^◌, Bool, true, false, not, ◌&&◌, ◌||◌, Option, none, some, List, [],
  ◌∷◌, ◌++◌, ◌>>=◌, if◌then◌else◌, ltb, ◌==◌, ℤ, positive_or, length, get_elem?, total, set_at,
}
use mock_agents.Broadcaster.{InteractionLog, u64}

-- A call of Submit: past the check under the read lock, counted, turned away by a full queue before
-- that is counted, or returned with its result.
pub data Submitter : Type 0 where
  checked : InteractionLog → Submitter
  counted : InteractionLog → Submitter
  overflown : Submitter
  returned : Bool → Submitter

-- A worker: before its first select, at its second, about to store an entry, about to publish it, or
-- gone.
pub data Worker : Type 0 where
  looping : Worker
  polling : Worker
  writing : InteractionLog → Worker
  publishing : InteractionLog → Worker
  exited : Worker

-- `stored` is what store.Log took, `published` what the broadcaster was given.
pub record LogWorker : Type 0 where
  pub queue : List InteractionLog
  pub queue_cap : ℕ
  pub queue_closed : Bool
  pub submitted : ℕ
  pub written : ℕ
  pub dropped : ℕ
  pub failed : ℕ
  pub stop_once : Bool
  pub stopped : Bool
  pub quit : Bool
  pub submitters : List Submitter
  pub workers : List Worker
  pub stored : List InteractionLog
  pub published : List InteractionLog

abbrev pub default_log_worker_count : ℕ
default_log_worker_count = 4

abbrev pub default_log_queue_size : ℕ
default_log_queue_size = 1024

abbrev pub idle_workers : ℕ → List Worker
idle_workers zero = []
idle_workers (suc n) = looping ∷ idle_workers n

unfoldable pub new_log_worker : ℤ → ℤ → LogWorker
new_log_worker workers queue_size = record {
  queue = [];
  queue_cap = positive_or queue_size default_log_queue_size;
  queue_closed = false;
  submitted = 0;
  written = 0;
  dropped = 0;
  failed = 0;
  stop_once = false;
  stopped = false;
  quit = false;
  submitters = [];
  workers = idle_workers (positive_or workers default_log_worker_count);
  stored = [];
  published = [];
}

-- Submit up to the check of `stopped`.
unfoldable pub submit : InteractionLog → LogWorker → LogWorker
submit entry w =
    if w.stopped
    then (record w { dropped = u64 (w.dropped + 1); submitters = returned false ∷ w.submitters })
    else record w { submitters = checked entry ∷ w.submitters }

abbrev submitter_at : ℕ → Submitter → LogWorker → LogWorker
submitter_at i s w = record w { submitters = set_at w.submitters i s }

-- The send of Submit, or its rollback when the queue is full.
unfoldable pub send : ℕ → InteractionLog → LogWorker → Option LogWorker
send i entry w =
    if w.queue_closed
    then none
    else if ltb (length w.queue) w.queue_cap
    then some (submitter_at i (returned true) (record w { queue = w.queue ++ entry ∷ [] }))
    else some (submitter_at i overflown (record w { submitted = u64 (w.submitted + (2 ^ 64 - 1)) }))

-- The next atomic action of a call of Submit.
unfoldable pub advance : ℕ → Submitter → LogWorker → Option LogWorker
advance i (checked entry) w =
    some (submitter_at i (counted entry) (record w { submitted = u64 (w.submitted + 1) }))
advance i (counted entry) w = send i entry w
advance i overflown w =
    some (submitter_at i (returned false) (record w { dropped = u64 (w.dropped + 1) }))
advance i (returned b) w = some w

-- The calls of Submit that hold the read lock.
abbrev pub holds : Submitter → ℕ
holds (checked entry) = 1
holds (counted entry) = 1
holds overflown = 1
holds (returned b) = 0

-- The first part of Shutdown, once, with the write lock: it waits for the read locks.
unfoldable pub stop : LogWorker → Option LogWorker
stop w =
    if w.stop_once || not (total holds w.submitters == 0)
    then some w
    else if w.queue_closed
    then none
    else some (record w { stop_once = true; stopped = true; queue_closed = true })

-- The timer that Shutdown starts; it fires at most once.
unfoldable pub hard_stop : LogWorker → LogWorker
hard_stop w = if w.stop_once then (record w { quit = true }) else w

abbrev worker_at : ℕ → Worker → LogWorker → LogWorker
worker_at i v w = record w { workers = set_at w.workers i v }

-- The first select of a worker's loop.
unfoldable pub look : ℕ → Worker → LogWorker → LogWorker
look i looping w = worker_at i (if w.quit then exited else polling) w
look i _ w = w

-- The second select, when it takes the case of `quit`.
unfoldable pub leave : ℕ → Worker → LogWorker → LogWorker
leave i polling w = if w.quit then worker_at i exited w else w
leave i _ w = w

abbrev take_next : ℕ → List InteractionLog → LogWorker → LogWorker
take_next i [] w = if w.queue_closed then worker_at i exited w else w
take_next i (entry ∷ rest) w = worker_at i (writing entry) (record w { queue = rest })

-- The second select, when it takes the case of the queue.
unfoldable pub receive : ℕ → Worker → LogWorker → LogWorker
receive i polling w = take_next i w.queue w
receive i _ w = w

-- store.Log returns, with an error or not.
abbrev settle : ℕ → Bool → InteractionLog → LogWorker → LogWorker
settle i true entry w =
    worker_at i (publishing entry)
      (record w { written = u64 (w.written + 1); stored = w.stored ++ entry ∷ [] })
settle i false entry w = worker_at i looping (record w { failed = u64 (w.failed + 1) })

unfoldable pub persist : ℕ → Bool → Worker → LogWorker → LogWorker
persist i ok (writing entry) w = settle i ok entry w
persist i ok _ w = w

unfoldable pub publish_entry : ℕ → Worker → LogWorker → LogWorker
publish_entry i (publishing entry) w =
    worker_at i looping (record w { published = w.published ++ entry ∷ [] })
publish_entry i _ w = w

pub data Action : Type 0 where
  submits : InteractionLog → Action
  advances : ℕ → Action
  stops : Action
  hard_stops : Action
  looks : ℕ → Action
  leaves : ℕ → Action
  receives : ℕ → Action
  persists : ℕ → Bool → Action
  publishes : ℕ → Action

-- A worker's action, if there is such a worker.
abbrev pub by_worker : (Worker → LogWorker → LogWorker) → ℕ → LogWorker → LogWorker
by_worker act i w = elim (get_elem? w.workers i) [ none ↦ w | some v ↦ act v w ]

unfoldable pub step : Action → LogWorker → Option LogWorker
step (submits entry) w = some (submit entry w)
step (advances i) w = elim (get_elem? w.submitters i) [ none ↦ some w | some s ↦ advance i s w ]
step stops w = stop w
step hard_stops w = some (hard_stop w)
step (looks i) w = some (by_worker (look i) i w)
step (leaves i) w = some (by_worker (leave i) i w)
step (receives i) w = some (by_worker (receive i) i w)
step (persists i ok) w = some (by_worker (persist i ok) i w)
step (publishes i) w = some (by_worker (publish_entry i) i w)

unfoldable pub run : List Action → LogWorker → Option LogWorker
run [] w = some w
run (a ∷ rest) w = step a w >>= run rest
