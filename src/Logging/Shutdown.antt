-- ===== src/Logging/Shutdown.antt =====
-- What a shutdown that meets no deadline leaves.
use mock_agents.Prelude.{
  ℕ, zero, suc, ◌+◌, ◌≤◌, Bool, true, false, not, ◌||◌, inl, inr, Option, none, some, List, [], ◌∷◌,
  ◌++◌, by_test, ◌≢◌, ◌≡◌, refl, sym, ap, ◌∙◌, ◌>>=◌, subst, arith, if◌then◌else◌, ltb,
  some-injective, ◌<◌, ◌==◌, Option-cases, ℤ, positive_or, positive_or-pos, length, get_elem?,
  total, total-set_at, length-set_at,
}
use mock_agents.Broadcaster.{InteractionLog, u64}
use mock_agents.Logging.{
  Submitter, checked, counted, overflown, returned, Worker, looping, polling, writing, publishing,
  exited, LogWorker, default_log_worker_count, idle_workers, new_log_worker, submit, submitter_at,
  send, advance, holds, stop, hard_stop, worker_at, look, leave, take_next, receive, persist,
  publish_entry, Action, submits, advances, stops, hard_stops, looks, leaves, receives, persists,
  publishes, step, run,
}
use mock_agents.Logging.Accounts.{waiting, in_hand, IsAccounted}
use mock_agents.Logging.Interleavings.{by_worker_keeps, run_accounts}
use mock_agents.Logging.Moves.{alive, nothing}

abbrev gone : Worker → ℕ
gone exited = 1
gone _ = 0

-- There are workers, and before the deadline one exits only when the queue is closed and empty.
abbrev Drains : LogWorker → Type 0
Drains w =
    (0 < length w.workers)
    × (w.quit ≡ false → 0 < total gone w.workers → (w.queue_closed ≡ true) × (w.queue ≡ []))

abbrev Draining : Option LogWorker → Type 0
Draining r = (w : LogWorker) → r ≡ some w → Drains w

some-Draining : (w : LogWorker) → Drains w → Draining (some w)
some-Draining w d after e = subst Drains (some-injective w after e) d

send-Draining :
    (i : ℕ) (entry : InteractionLog) (w : LogWorker) → Drains w → Draining (send i entry w)
unfolding send
send-Draining i entry w d =
    by_test Draining w.queue_closed _ _ (λ _ after e. absurd (cc))
      (λ open_still.
        by_test Draining (ltb (length w.queue) w.queue_cap) _ _
          (λ _.
            some-Draining
              (submitter_at i (returned true) (record w { queue = w.queue ++ entry ∷ [] }))
              (
                d.0,
                λ runs some_gone.
                    absurd (shut_open w.queue_closed (d.1 runs some_gone).0 open_still),
              ))
          (λ _. some-Draining _ d))
  where
    shut_open : (b : Bool) → b ≡ true → b ≡ false → ⊥
    shut_open b shut opened = cc

advance-Draining : (i : ℕ) (s : Submitter) (w : LogWorker) → Drains w → Draining (advance i s w)
unfolding advance
advance-Draining i (checked entry) w d = some-Draining _ d
advance-Draining i (counted entry) w d = send-Draining i entry w d
advance-Draining i overflown w d = some-Draining _ d
advance-Draining i (returned b) w d = some-Draining w d

submit-Drains : (entry : InteractionLog) (w : LogWorker) → Drains w → Drains (submit entry w)
unfolding submit
submit-Drains entry w d = by_test Drains w.stopped _ _ (λ _. d) (λ _. d)

stop-Draining : (w : LogWorker) → Drains w → Draining (stop w)
unfolding stop
stop-Draining w d =
    by_test Draining (w.stop_once || not (total holds w.submitters == 0)) _ _
      (λ _. some-Draining w d)
      (λ _.
        by_test Draining w.queue_closed _ _ (λ _ after e. absurd (cc))
          (λ _.
            some-Draining (record w { stop_once = true; stopped = true; queue_closed = true })
              (d.0, λ runs some_gone. (refl, (d.1 runs some_gone).1))))

hard_stop-Drains : (w : LogWorker) → Drains w → Drains (hard_stop w)
unfolding hard_stop
hard_stop-Drains w d = by_test Drains w.stop_once _ _ (λ _. (d.0, λ runs. absurd (cc))) (λ _. d)

-- A worker that goes on, or that a hard stop sends away.
moved-Drains :
    (i : ℕ) (old new : Worker) (w : LogWorker)
    → get_elem? w.workers i ≡ some old
    → (w.quit ≡ false → gone old ≡ gone new)
    → Drains w
    → Drains (worker_at i new w)
moved-Drains i old new w there same d = (
  omega (arith, d.0, length-set_at w.workers i new),
  λ runs some_gone.
      d.1 runs (omega (arith, some_gone, same runs, total-set_at gone w.workers i old new there)),
)

look-Drains :
    (i : ℕ) (a : Worker) (w : LogWorker)
    → get_elem? w.workers i ≡ some a
    → Drains w
    → Drains (look i a w)
unfolding look
look-Drains i looping w there d =
    moved-Drains i looping (if w.quit then exited else polling) w there
      (λ runs. ap (λ b. gone (if b then exited else polling)) (sym runs)) d
look-Drains i polling w there d = d
look-Drains i (writing entry) w there d = d
look-Drains i (publishing entry) w there d = d
look-Drains i exited w there d = d

leave-Drains :
    (i : ℕ) (a : Worker) (w : LogWorker)
    → get_elem? w.workers i ≡ some a
    → Drains w
    → Drains (leave i a w)
unfolding leave
leave-Drains i polling w there d =
    by_test Drains w.quit _ _
      (λ over. moved-Drains i polling exited w there (λ runs. absurd (cc (over, runs))) d) (λ _. d)
leave-Drains i looping w there d = d
leave-Drains i (writing entry) w there d = d
leave-Drains i (publishing entry) w there d = d
leave-Drains i exited w there d = d

full_empty :
    (q : List InteractionLog) (entry : InteractionLog) (rest : List InteractionLog)
    → q ≡ []
    → q ≢ entry ∷ rest
full_empty q entry rest a b = cc

take_next-Drains :
    (i : ℕ) (q : List InteractionLog) (w : LogWorker)
    → get_elem? w.workers i ≡ some polling
    → w.queue ≡ q
    → Drains w
    → Drains (take_next i q w)
take_next-Drains i [] w there e d =
    by_test Drains w.queue_closed _ _
      (λ shut. (omega (arith, d.0, length-set_at w.workers i exited), λ runs some_gone. (shut, e)))
      (λ _. d)
take_next-Drains i (entry ∷ rest) w there e d = (
  omega (arith, d.0, length-set_at w.workers i (writing entry)),
  λ runs some_gone. absurd (
      full_empty w.queue entry rest
        (d.1 runs
          (omega (arith, some_gone, total-set_at gone w.workers i polling (writing entry) there))).1
        e),
)

receive-Drains :
    (i : ℕ) (a : Worker) (w : LogWorker)
    → get_elem? w.workers i ≡ some a
    → Drains w
    → Drains (receive i a w)
unfolding receive
receive-Drains i polling w there d = take_next-Drains i w.queue w there refl d
receive-Drains i looping w there d = d
receive-Drains i (writing entry) w there d = d
receive-Drains i (publishing entry) w there d = d
receive-Drains i exited w there d = d

persist-Drains :
    (i : ℕ) (ok : Bool) (a : Worker) (w : LogWorker)
    → get_elem? w.workers i ≡ some a
    → Drains w
    → Drains (persist i ok a w)
unfolding persist
persist-Drains i true (writing entry) w there d =
    moved-Drains i (writing entry) (publishing entry) w there (λ _. refl) d
persist-Drains i false (writing entry) w there d =
    moved-Drains i (writing entry) looping w there (λ _. refl) d
persist-Drains i ok looping w there d = d
persist-Drains i ok polling w there d = d
persist-Drains i ok (publishing entry) w there d = d
persist-Drains i ok exited w there d = d

publish_entry-Drains :
    (i : ℕ) (a : Worker) (w : LogWorker)
    → get_elem? w.workers i ≡ some a
    → Drains w
    → Drains (publish_entry i a w)
unfolding publish_entry
publish_entry-Drains i (publishing entry) w there d =
    moved-Drains i (publishing entry) looping w there (λ _. refl) d
publish_entry-Drains i looping w there d = d
publish_entry-Drains i polling w there d = d
publish_entry-Drains i (writing entry) w there d = d
publish_entry-Drains i exited w there d = d

advances-Draining : (i : ℕ) (w : LogWorker) → Drains w → Draining (step (advances i) w)
unfolding step
advances-Draining i w d = at_place (get_elem? w.submitters i)
  where
    at_place : (o : Option Submitter) → Draining (elim o [ none ↦ some w | some s ↦ advance i s w ])
    at_place none = some-Draining w d
    at_place (some s) = advance-Draining i s w d

step-Draining : (a : Action) (w : LogWorker) → Drains w → Draining (step a w)
unfolding step
step-Draining (submits entry) w d = some-Draining _ (submit-Drains entry w d)
step-Draining (advances i) w d = advances-Draining i w d
step-Draining stops w d = stop-Draining w d
step-Draining hard_stops w d = some-Draining _ (hard_stop-Drains w d)
step-Draining (looks i) w d =
    some-Draining _ (by_worker_keeps Drains (look i) i w (λ a there. look-Drains i a w there d) d)
step-Draining (leaves i) w d =
    some-Draining _ (by_worker_keeps Drains (leave i) i w (λ a there. leave-Drains i a w there d) d)
step-Draining (receives i) w d =
    some-Draining _
      (by_worker_keeps Drains (receive i) i w (λ a there. receive-Drains i a w there d) d)
step-Draining (persists i ok) w d =
    some-Draining _
      (by_worker_keeps Drains (persist i ok) i w (λ a there. persist-Drains i ok a w there d) d)
step-Draining (publishes i) w d =
    some-Draining _ (
      by_worker_keeps Drains (publish_entry i) i w (λ a there. publish_entry-Drains i a w there d)
        d)

run-Draining : (actions : List Action) (w : LogWorker) → Drains w → Draining (run actions w)
unfolding run
run-Draining [] w d after e = some-Draining w d after e
run-Draining (a ∷ rest) w d after e = elim (Option-cases (step a w)) [
  | inl panic ↦ absurd (nothing after (sym (ap (λ r. r >>= run rest) panic) ∙ e))
  | inr (next, went) ↦
      run-Draining rest next (step-Draining a w d next went) after
        (sym (ap (λ r. r >>= run rest) went) ∙ e)
]

gone-alive : (ws : List Worker) → total gone ws + total alive ws ≡ length ws
gone-alive [] = refl
gone-alive (looping ∷ ws) = omega (arith, gone-alive ws)
gone-alive (polling ∷ ws) = omega (arith, gone-alive ws)
gone-alive (writing entry ∷ ws) = omega (arith, gone-alive ws)
gone-alive (publishing entry ∷ ws) = omega (arith, gone-alive ws)
gone-alive (exited ∷ ws) = omega (arith, gone-alive ws)

in_hand-alive : (ws : List Worker) → total in_hand ws ≤ total alive ws
in_hand-alive [] = omega arith
in_hand-alive (looping ∷ ws) = omega (arith, in_hand-alive ws)
in_hand-alive (polling ∷ ws) = omega (arith, in_hand-alive ws)
in_hand-alive (writing entry ∷ ws) = omega (arith, in_hand-alive ws)
in_hand-alive (publishing entry ∷ ws) = omega (arith, in_hand-alive ws)
in_hand-alive (exited ∷ ws) = omega (arith, in_hand-alive ws)

waiting-holds : (ss : List Submitter) → total waiting ss ≤ total holds ss
waiting-holds [] = omega arith
waiting-holds (checked entry ∷ ss) = omega (arith, waiting-holds ss)
waiting-holds (counted entry ∷ ss) = omega (arith, waiting-holds ss)
waiting-holds (overflown ∷ ss) = omega (arith, waiting-holds ss)
waiting-holds (returned b ∷ ss) = omega (arith, waiting-holds ss)

idle_lem : (n : ℕ) → (length (idle_workers n) ≡ n) × (total gone (idle_workers n) ≡ 0)
idle_lem zero = (refl, refl)
idle_lem (suc n) = (omega (arith, (idle_lem n).0), omega (arith, (idle_lem n).1))

new_log_worker-Drains : (workers queue_size : ℤ) → Drains (new_log_worker workers queue_size)
unfolding new_log_worker
new_log_worker-Drains workers queue_size =
    let n = positive_or workers default_log_worker_count in
    (
      omega (arith, (idle_lem n).0, positive_or-pos workers default_log_worker_count (omega arith)),
      λ runs some_gone. absurd (omega (arith, some_gone, (idle_lem n).1)),
    )

reached-IsAccounted :
    (actions : List Action) (workers queue_size : ℤ) (after : LogWorker)
    → run actions (new_log_worker workers queue_size) ≡ some after
    → IsAccounted after
reached-IsAccounted actions workers queue_size after e =
    let r = run_accounts actions workers queue_size in
    subst IsAccounted (some-injective r.0 after (sym r.1 ∙ e)) r.2

-- If every worker has exited and the deadline of the shutdown did not pass, in whatever
-- interleaving, the queue is empty, and the submitted entries are the written and the failed
-- (modulo 2^64).
pub shutdown_drains :
    (actions : List Action) (workers queue_size : ℤ) (after : LogWorker)
    → run actions (new_log_worker workers queue_size) ≡ some after
    → total alive after.workers ≡ 0
    → after.quit ≡ false
    → (after.queue ≡ []) × (after.submitted ≡ u64 (after.written + after.failed))
shutdown_drains actions workers queue_size after e none_left runs =
    let d = run-Draining actions _ (new_log_worker-Drains workers queue_size) after e in
    let v = reached-IsAccounted actions workers queue_size after e in
    let rest = d.1 runs (omega (arith, d.0, gone-alive after.workers, none_left)) in
    (
      rest.1,
      omega (
        arith,
        v.accounted,
        ap (λ (q : List InteractionLog). length q) rest.1,
        in_hand-alive after.workers,
        none_left,
        waiting-holds after.submitters,
        v.unlocked rest.0,
      ),
    )
