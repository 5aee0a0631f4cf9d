-- ===== src/Logging/Interleavings.antt =====
-- The accounts of the log worker hold in every interleaving of its goroutines.
use mock_agents.Prelude.{
  ℕ, zero, suc, Bool, true, false, Option, none, some, List, [], ◌∷◌, by_test, ◌≡◌, refl, sym, ap,
  ◌>>=◌, subst, arith, if◌then◌else◌, ℤ, positive_or, length, get_elem?, total, total-set_at,
}
use mock_agents.Broadcaster.{InteractionLog}
use mock_agents.Logging.{
  Submitter, Worker, looping, polling, writing, publishing, exited, LogWorker,
  default_log_worker_count, idle_workers, new_log_worker, advance, worker_at, look, leave,
  take_next, receive, persist, publish_entry, Action, submits, advances, stops, hard_stops, looks,
  leaves, receives, persists, publishes, by_worker, step, run,
}
use mock_agents.Logging.Accounts.{
  in_hand, IsAccounted, Accounted, submit-IsAccounted, some-Accounted, advance-Accounted,
  stop-Accounted, hard_stop-IsAccounted,
}

-- A worker that goes from `old` to `new` without the counters.
moved-IsAccounted :
    (i : ℕ) (old new : Worker) (w : LogWorker)
    → get_elem? w.workers i ≡ some old
    → in_hand old ≡ in_hand new
    → IsAccounted w
    → IsAccounted (worker_at i new w)
moved-IsAccounted i old new w there same v = record {
  accounted = omega (arith, v.accounted, same, total-set_at in_hand w.workers i old new there);
  attempted = v.attempted;
  bounded = v.bounded;
  unlocked = v.unlocked;
  same_stopped = v.same_stopped;
  same_once = v.same_once;
}

look-IsAccounted :
    (i : ℕ) (a : Worker) (w : LogWorker)
    → get_elem? w.workers i ≡ some a
    → IsAccounted w
    → IsAccounted (look i a w)
unfolding look
look-IsAccounted i looping w there v =
    moved-IsAccounted i looping (if w.quit then exited else polling) w there
      (by_test (λ a. 0 ≡ in_hand a) w.quit _ _ (λ _. refl) (λ _. refl)) v
look-IsAccounted i polling w there v = v
look-IsAccounted i (writing entry) w there v = v
look-IsAccounted i (publishing entry) w there v = v
look-IsAccounted i exited w there v = v

leave-IsAccounted :
    (i : ℕ) (a : Worker) (w : LogWorker)
    → get_elem? w.workers i ≡ some a
    → IsAccounted w
    → IsAccounted (leave i a w)
unfolding leave
leave-IsAccounted i polling w there v =
    by_test IsAccounted w.quit _ _ (λ _. moved-IsAccounted i polling exited w there refl v) (λ _. v)
leave-IsAccounted i looping w there v = v
leave-IsAccounted i (writing entry) w there v = v
leave-IsAccounted i (publishing entry) w there v = v
leave-IsAccounted i exited w there v = v

take_next-IsAccounted :
    (i : ℕ) (q : List InteractionLog) (w : LogWorker)
    → get_elem? w.workers i ≡ some polling
    → w.queue ≡ q
    → IsAccounted w
    → IsAccounted (take_next i q w)
take_next-IsAccounted i [] w there e v =
    by_test IsAccounted w.queue_closed _ _ (λ _. moved-IsAccounted i polling exited w there refl v)
      (λ _. v)
take_next-IsAccounted i (entry ∷ rest) w there e v = record {
  accounted = omega (
    arith,
    v.accounted,
    ap (λ (q : List InteractionLog). length q) e,
    total-set_at in_hand w.workers i polling (writing entry) there,
  );
  attempted = v.attempted;
  bounded = omega (arith, v.bounded, ap (λ (q : List InteractionLog). length q) e);
  unlocked = v.unlocked;
  same_stopped = v.same_stopped;
  same_once = v.same_once;
}

receive-IsAccounted :
    (i : ℕ) (a : Worker) (w : LogWorker)
    → get_elem? w.workers i ≡ some a
    → IsAccounted w
    → IsAccounted (receive i a w)
unfolding receive
receive-IsAccounted i polling w there v = take_next-IsAccounted i w.queue w there refl v
receive-IsAccounted i looping w there v = v
receive-IsAccounted i (writing entry) w there v = v
receive-IsAccounted i (publishing entry) w there v = v
receive-IsAccounted i exited w there v = v

persist-IsAccounted :
    (i : ℕ) (ok : Bool) (a : Worker) (w : LogWorker)
    → get_elem? w.workers i ≡ some a
    → IsAccounted w
    → IsAccounted (persist i ok a w)
unfolding persist
persist-IsAccounted i true (writing entry) w there v = record {
  accounted = omega (
    arith,
    v.accounted,
    total-set_at in_hand w.workers i (writing entry) (publishing entry) there,
  );
  attempted = v.attempted;
  bounded = v.bounded;
  unlocked = v.unlocked;
  same_stopped = v.same_stopped;
  same_once = v.same_once;
}
persist-IsAccounted i false (writing entry) w there v = record {
  accounted =
      omega (arith, v.accounted, total-set_at in_hand w.workers i (writing entry) looping there);
  attempted = v.attempted;
  bounded = v.bounded;
  unlocked = v.unlocked;
  same_stopped = v.same_stopped;
  same_once = v.same_once;
}
persist-IsAccounted i ok looping w there v = v
persist-IsAccounted i ok polling w there v = v
persist-IsAccounted i ok (publishing entry) w there v = v
persist-IsAccounted i ok exited w there v = v

publish_entry-IsAccounted :
    (i : ℕ) (a : Worker) (w : LogWorker)
    → get_elem? w.workers i ≡ some a
    → IsAccounted w
    → IsAccounted (publish_entry i a w)
unfolding publish_entry
publish_entry-IsAccounted i (publishing entry) w there v = record {
  accounted =
      omega (arith, v.accounted, total-set_at in_hand w.workers i (publishing entry) looping there);
  attempted = v.attempted;
  bounded = v.bounded;
  unlocked = v.unlocked;
  same_stopped = v.same_stopped;
  same_once = v.same_once;
}
publish_entry-IsAccounted i looping w there v = v
publish_entry-IsAccounted i polling w there v = v
publish_entry-IsAccounted i (writing entry) w there v = v
publish_entry-IsAccounted i exited w there v = v

-- An action of one worker keeps a property if it does at that worker's place.
pub by_worker_keeps {ℓ} :
    (P : LogWorker → Type ℓ) (act : Worker → LogWorker → LogWorker) (i : ℕ) (w : LogWorker)
    → ((a : Worker) → get_elem? w.workers i ≡ some a → P (act a w))
    → P w
    → P (by_worker act i w)
by_worker_keeps P act i w keeps v = at_place (get_elem? w.workers i) keeps
  where
    at_place :
        (o : Option Worker)
        → ((a : Worker) → o ≡ some a → P (act a w))
        → P (elim o [ none ↦ w | some a ↦ act a w ])
    at_place none h = v
    at_place (some a) h = h a refl

advances-Accounted : (i : ℕ) (w : LogWorker) → IsAccounted w → Accounted (step (advances i) w)
unfolding step
advances-Accounted i w v =
    at_place (get_elem? w.submitters i) (λ s there. advance-Accounted i s w there v)
  where
    at_place :
        (o : Option Submitter)
        → ((s : Submitter) → o ≡ some s → Accounted (advance i s w))
        → Accounted (elim o [ none ↦ some w | some s ↦ advance i s w ])
    at_place none h = some-Accounted w v
    at_place (some s) h = h s refl

step-Accounted : (a : Action) (w : LogWorker) → IsAccounted w → Accounted (step a w)
unfolding step
step-Accounted (submits entry) w v = some-Accounted _ (submit-IsAccounted entry w v)
step-Accounted (advances i) w v = advances-Accounted i w v
step-Accounted stops w v = stop-Accounted w v
step-Accounted hard_stops w v = some-Accounted _ (hard_stop-IsAccounted w v)
step-Accounted (looks i) w v =
    some-Accounted _
      (by_worker_keeps IsAccounted (look i) i w (λ a there. look-IsAccounted i a w there v) v)
step-Accounted (leaves i) w v =
    some-Accounted _
      (by_worker_keeps IsAccounted (leave i) i w (λ a there. leave-IsAccounted i a w there v) v)
step-Accounted (receives i) w v =
    some-Accounted _
      (by_worker_keeps IsAccounted (receive i) i w (λ a there. receive-IsAccounted i a w there v) v)
step-Accounted (persists i ok) w v = some-Accounted _ (
    by_worker_keeps IsAccounted (persist i ok) i w (λ a there. persist-IsAccounted i ok a w there v)
      v)
step-Accounted (publishes i) w v = some-Accounted _ (
    by_worker_keeps IsAccounted (publish_entry i) i w
      (λ a there. publish_entry-IsAccounted i a w there v) v)

run-Accounted : (actions : List Action) (w : LogWorker) → IsAccounted w → Accounted (run actions w)
unfolding run
run-Accounted [] w v = some-Accounted w v
run-Accounted (a ∷ rest) w v =
    let next = step-Accounted a w v in
    subst (λ (r : Option LogWorker). Accounted (r >>= run rest)) (sym next.1)
      (run-Accounted rest next.0 next.2)

idle-in_hand : (n : ℕ) → total in_hand (idle_workers n) ≡ 0
idle-in_hand zero = refl
idle-in_hand (suc n) = omega (arith, idle-in_hand n)

new_log_worker-IsAccounted :
    (workers queue_size : ℤ) → IsAccounted (new_log_worker workers queue_size)
unfolding new_log_worker
new_log_worker-IsAccounted workers queue_size = record {
  accounted = omega (arith, idle-in_hand (positive_or workers default_log_worker_count));
  attempted = refl;
  bounded = omega arith;
  unlocked = λ shut. refl;
  same_stopped = refl;
  same_once = refl;
}

-- No interleaving of requests, workers and a shutdown panics. In each state that one reaches, the
-- submitted entries are the written, the failed and those on their way; the calls of Submit are the
-- submitted, the dropped and those still undecided (both modulo 2^64); and the queue is not longer
-- than its capacity.
pub run_accounts :
    (actions : List Action) (workers queue_size : ℤ)
    → Accounted (run actions (new_log_worker workers queue_size))
run_accounts actions workers queue_size =
    run-Accounted actions (new_log_worker workers queue_size)
      (new_log_worker-IsAccounted workers queue_size)
