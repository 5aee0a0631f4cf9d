-- ===== src/Logging/Exits.antt =====
-- What each step costs the workers of internal/server/log_worker.go once the queue is closed.
use mock_agents.Prelude.{
  ℕ, Bool, true, false, not, ◌||◌, inl, Option, none, some, List, [], ◌∷◌, ◌≡◌, refl, ap, arith,
  ◌==◌, by_test, length, get_elem?, total, total-set_at,
}
use mock_agents.Broadcaster.{InteractionLog}
use mock_agents.Logging.{
  Submitter, checked, counted, overflown, returned, Worker, looping, polling, writing, publishing,
  exited, LogWorker, submit, holds, send, advance, stop, hard_stop, worker_at, look, leave,
  take_next, receive, persist, publish_entry, Action, submits, advances, stops, hard_stops, looks,
  leaves, receives, persists, publishes, by_worker, step,
}
use mock_agents.Logging.Interleavings.{by_worker_keeps}
use mock_agents.Logging.Moves.{moves_left, Spends, Spending, some-Spending, at_rest, moved-Spends}

send-Spending :
    (i : ℕ) (entry : InteractionLog) (w : LogWorker)
    → w.queue_closed ≡ true
    → Spending w (send i entry w)
unfolding send
send-Spending i entry w closed =
    by_test (Spending w) w.queue_closed _ _ (λ _ after e. absurd (cc))
      (λ open_still. absurd (cc (closed, open_still)))

advance-Spending :
    (i : ℕ) (s : Submitter) (w : LogWorker) → w.queue_closed ≡ true → Spending w (advance i s w)
unfolding advance
advance-Spending i (checked entry) w closed = some-Spending w _ (at_rest w _ closed refl refl)
advance-Spending i (counted entry) w closed = send-Spending i entry w closed
advance-Spending i overflown w closed = some-Spending w _ (at_rest w _ closed refl refl)
advance-Spending i (returned b) w closed = some-Spending w w (at_rest w w closed refl refl)

submit-Spends :
    (entry : InteractionLog) (w : LogWorker) → w.queue_closed ≡ true → Spends w (submit entry w)
unfolding submit
submit-Spends entry w closed =
    by_test (Spends w) w.stopped _ _ (λ _. at_rest w _ closed refl refl)
      (λ _. at_rest w _ closed refl refl)

stop-Spending : (w : LogWorker) → w.queue_closed ≡ true → Spending w (stop w)
unfolding stop
stop-Spending w closed =
    by_test (Spending w) (w.stop_once || not (total holds w.submitters == 0)) _ _
      (λ _. some-Spending w w (at_rest w w closed refl refl))
      (λ _.
        by_test (Spending w) w.queue_closed _ _ (λ _ after e. absurd (cc))
          (λ open_still. absurd (cc (closed, open_still))))

hard_stop-Spends : (w : LogWorker) → w.queue_closed ≡ true → Spends w (hard_stop w)
unfolding hard_stop
hard_stop-Spends w closed =
    by_test (Spends w) w.stop_once _ _ (λ _. at_rest w _ closed refl refl)
      (λ _. at_rest w _ closed refl refl)

look-Spends :
    (i : ℕ) (a : Worker) (w : LogWorker)
    → get_elem? w.workers i ≡ some a
    → w.queue_closed ≡ true
    → Spends w (look i a w)
unfolding look
look-Spends i looping w there closed =
    by_test (λ v. Spends w (worker_at i v w)) w.quit _ _
      (λ _. moved-Spends i looping exited w _ there (omega arith) closed refl refl)
      (λ _. moved-Spends i looping polling w _ there (omega arith) closed refl refl)
look-Spends i polling w there closed = at_rest w w closed refl refl
look-Spends i (writing entry) w there closed = at_rest w w closed refl refl
look-Spends i (publishing entry) w there closed = at_rest w w closed refl refl
look-Spends i exited w there closed = at_rest w w closed refl refl

leave-Spends :
    (i : ℕ) (a : Worker) (w : LogWorker)
    → get_elem? w.workers i ≡ some a
    → w.queue_closed ≡ true
    → Spends w (leave i a w)
unfolding leave
leave-Spends i polling w there closed =
    by_test (Spends w) w.quit _ _
      (λ _. moved-Spends i polling exited w _ there (omega arith) closed refl refl)
      (λ _. at_rest w w closed refl refl)
leave-Spends i looping w there closed = at_rest w w closed refl refl
leave-Spends i (writing entry) w there closed = at_rest w w closed refl refl
leave-Spends i (publishing entry) w there closed = at_rest w w closed refl refl
leave-Spends i exited w there closed = at_rest w w closed refl refl

take_next-Spends :
    (i : ℕ) (q : List InteractionLog) (w : LogWorker)
    → get_elem? w.workers i ≡ some polling
    → w.queue ≡ q
    → w.queue_closed ≡ true
    → Spends w (take_next i q w)
take_next-Spends i [] w there empty closed =
    by_test (Spends w) w.queue_closed _ _
      (λ _. moved-Spends i polling exited w _ there (omega arith) closed refl refl)
      (λ _. at_rest w w closed refl refl)
take_next-Spends i (entry ∷ rest) w there held closed = record {
  closed_still = closed;
  spent = inl (
      omega (
        arith,
        total-set_at moves_left w.workers i polling (writing entry) there,
        ap (λ (q : List InteractionLog). length q) held,
      ));
}

receive-Spends :
    (i : ℕ) (a : Worker) (w : LogWorker)
    → get_elem? w.workers i ≡ some a
    → w.queue_closed ≡ true
    → Spends w (receive i a w)
unfolding receive
receive-Spends i polling w there closed = take_next-Spends i w.queue w there refl closed
receive-Spends i looping w there closed = at_rest w w closed refl refl
receive-Spends i (writing entry) w there closed = at_rest w w closed refl refl
receive-Spends i (publishing entry) w there closed = at_rest w w closed refl refl
receive-Spends i exited w there closed = at_rest w w closed refl refl

persist-Spends :
    (i : ℕ) (ok : Bool) (a : Worker) (w : LogWorker)
    → get_elem? w.workers i ≡ some a
    → w.queue_closed ≡ true
    → Spends w (persist i ok a w)
unfolding persist
persist-Spends i true (writing entry) w there closed =
    moved-Spends i (writing entry) (publishing entry) w _ there (omega arith) closed refl refl
persist-Spends i false (writing entry) w there closed =
    moved-Spends i (writing entry) looping w _ there (omega arith) closed refl refl
persist-Spends i ok looping w there closed = at_rest w w closed refl refl
persist-Spends i ok polling w there closed = at_rest w w closed refl refl
persist-Spends i ok (publishing entry) w there closed = at_rest w w closed refl refl
persist-Spends i ok exited w there closed = at_rest w w closed refl refl

publish_entry-Spends :
    (i : ℕ) (a : Worker) (w : LogWorker)
    → get_elem? w.workers i ≡ some a
    → w.queue_closed ≡ true
    → Spends w (publish_entry i a w)
unfolding publish_entry
publish_entry-Spends i (publishing entry) w there closed =
    moved-Spends i (publishing entry) looping w _ there (omega arith) closed refl refl
publish_entry-Spends i looping w there closed = at_rest w w closed refl refl
publish_entry-Spends i polling w there closed = at_rest w w closed refl refl
publish_entry-Spends i (writing entry) w there closed = at_rest w w closed refl refl
publish_entry-Spends i exited w there closed = at_rest w w closed refl refl

worker-Spending :
    (act : Worker → LogWorker → LogWorker) (i : ℕ) (w : LogWorker)
    → ((a : Worker) → get_elem? w.workers i ≡ some a → Spends w (act a w))
    → w.queue_closed ≡ true
    → Spending w (some (by_worker act i w))
worker-Spending act i w acts closed =
    some-Spending w _ (by_worker_keeps (Spends w) act i w acts (at_rest w w closed refl refl))

advances-Spending :
    (i : ℕ) (w : LogWorker) → w.queue_closed ≡ true → Spending w (step (advances i) w)
unfolding step
advances-Spending i w closed = at_place (get_elem? w.submitters i)
  where
    at_place :
        (o : Option Submitter) → Spending w (elim o [ none ↦ some w | some s ↦ advance i s w ])
    at_place none = some-Spending w w (at_rest w w closed refl refl)
    at_place (some s) = advance-Spending i s w closed

pub step-Spending : (a : Action) (w : LogWorker) → w.queue_closed ≡ true → Spending w (step a w)
unfolding step
step-Spending (submits entry) w c = some-Spending w _ (submit-Spends entry w c)
step-Spending (advances i) w c = advances-Spending i w c
step-Spending stops w c = stop-Spending w c
step-Spending hard_stops w c = some-Spending w _ (hard_stop-Spends w c)
step-Spending (looks i) w c = worker-Spending (look i) i w (λ a there. look-Spends i a w there c) c
step-Spending (leaves i) w c =
    worker-Spending (leave i) i w (λ a there. leave-Spends i a w there c) c
step-Spending (receives i) w c =
    worker-Spending (receive i) i w (λ a there. receive-Spends i a w there c) c
step-Spending (persists i ok) w c =
    worker-Spending (persist i ok) i w (λ a there. persist-Spends i ok a w there c) c
step-Spending (publishes i) w c =
    worker-Spending (publish_entry i) i w (λ a there. publish_entry-Spends i a w there c) c
