-- ===== src/Logging/Examples.antt =====
-- One worker, a queue of one, three requests and a shutdown.
use mock_agents.Prelude.{
  ◌+◌, ◌*◌, ◌≤◌, ◌⊎◌, length, total, true, false, List, [], ◌∷◌, ◌≡◌, refl, pos,
}
use mock_agents.Broadcaster.{InteractionLog, u64}
use mock_agents.Logging.{
  returned, looping, exited, LogWorker, new_log_worker, Action, submits, advances, stops, looks,
  receives, persists, publishes, run, step, submit, advance, send, stop, look, receive, persist,
  publish_entry,
}
use mock_agents.Logging.Accounts.{Accounted}
use mock_agents.Logging.Interleavings.{run_accounts}
use mock_agents.Logging.Moves.{alive, moves, moves_left, work_left}
use mock_agents.Logging.Termination.{CanMove, shutdown_ends}
use mock_agents.Logging.Shutdown.{shutdown_drains}

abbrev entry : InteractionLog
entry = record { id = 1; tenant_id = "acme" }

-- The second request finds the queue full, the third the worker stopped.
abbrev history : List Action
history =
    submits entry
    ∷ advances 0
    ∷ submits entry
    ∷ advances 0
    ∷ advances 1
    ∷ advances 0
    ∷ looks 0
    ∷ stops
    ∷ advances 0
    ∷ stops
    ∷ submits entry
    ∷ receives 0
    ∷ persists 0 true
    ∷ publishes 0
    ∷ looks 0
    ∷ receives 0
    ∷ []

run_accounts_example : Accounted (run history (new_log_worker (pos 1) (pos 1)))
run_accounts_example = run_accounts history (pos 1) (pos 1)

abbrev at_end : LogWorker
at_end = record {
  queue = [];
  queue_cap = 1;
  queue_closed = true;
  submitted = 1;
  written = 1;
  dropped = 2;
  failed = 0;
  stop_once = true;
  stopped = true;
  quit = false;
  submitters = returned false ∷ returned false ∷ returned true ∷ [];
  workers = exited ∷ [];
  stored = entry ∷ [];
  published = entry ∷ [];
}

shutdown_drains_example :
    (at_end.queue ≡ []) × (at_end.submitted ≡ u64 (at_end.written + at_end.failed))
unfolding run step submit advance send stop look receive persist publish_entry new_log_worker
shutdown_drains_example = shutdown_drains history (pos 1) (pos 1) at_end refl refl refl

-- One entry is queued when the queue is closed.
abbrev closing : LogWorker
closing = record at_end {
  queue = entry ∷ [];
  written = 0;
  workers = looping ∷ [];
  stored = [];
  published = [];
}

abbrev last_moves : List Action
last_moves =
    looks 0
    ∷ submits entry
    ∷ receives 0
    ∷ persists 0 true
    ∷ publishes 0
    ∷ looks 0
    ∷ receives 0
    ∷ looks 0
    ∷ []

abbrev finished : LogWorker
finished = record at_end { dropped = 3; submitters = returned false ∷ at_end.submitters }

shutdown_ends_example :
    (moves last_moves closing + work_left finished
      ≤ 4 * length closing.queue + total moves_left closing.workers)
    × ((total alive finished.workers ≡ 0) ⊎ CanMove finished)
unfolding run step submit look receive persist publish_entry
shutdown_ends_example = shutdown_ends last_moves closing finished refl refl
