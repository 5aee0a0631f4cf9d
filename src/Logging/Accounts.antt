-- ===== src/Logging/Accounts.antt =====
-- The counters of the log worker, in every interleaving.
use mock_agents.Prelude.{
  ℕ, ◌+◌, ◌≤◌, Bool, true, false, not, ◌||◌, Option, some, List, [], ◌∷◌, by_test, ◌≢◌, ◌≡◌, refl,
  ◌∙◌, arith, ltb, ltb→lt, ◌==◌, length, length-append, get_elem?, total, set_at, total-set_at,
  length-set_at,
}
use mock_agents.Broadcaster.{InteractionLog, u64}
use mock_agents.Logging.{
  Submitter, checked, counted, overflown, returned, Worker, writing, LogWorker, submit, send,
  advance, holds, stop, hard_stop,
}

-- A call that is counted, with its entry not yet in the queue.
abbrev pub waiting : Submitter → ℕ
waiting (counted entry) = 1
waiting _ = 0

-- A call that neither counter has.
abbrev pub undecided : Submitter → ℕ
undecided (checked entry) = 1
undecided overflown = 1
undecided _ = 0

-- An entry that a worker took and has not stored yet.
abbrev pub in_hand : Worker → ℕ
in_hand (writing entry) = 1
in_hand _ = 0

-- The entries on their way: before the queue, in it, or at a worker.
abbrev pub pending : LogWorker → ℕ
pending w = total waiting w.submitters + length w.queue + total in_hand w.workers

pub record IsAccounted (w : LogWorker) : Type 0 where
  pub accounted : w.submitted ≡ u64 (w.written + w.failed + pending w)
  pub attempted :
      u64 (length w.submitters) ≡ u64 (w.submitted + w.dropped + total undecided w.submitters)
  pub bounded : length w.queue ≤ w.queue_cap
  pub unlocked : w.queue_closed ≡ true → total holds w.submitters ≡ 0
  pub same_stopped : w.stopped ≡ w.queue_closed
  pub same_once : w.stop_once ≡ w.queue_closed

-- A step that does not panic, to a state whose accounts are right.
abbrev pub Accounted : Option LogWorker → Type 0
Accounted r = (w : LogWorker) × (r ≡ some w) × IsAccounted w

once_only : (once : Bool) (n : ℕ) → once ≡ true → (once || not (n == 0)) ≢ false
once_only true n h g = cc
once_only false n h g = cc

nobody : (once : Bool) (n : ℕ) → (once || not (n == 0)) ≡ false → n ≡ 0
nobody true n h = absurd (cc)
nobody false n h = ground arith

pub submit-IsAccounted :
    (entry : InteractionLog) (w : LogWorker) → IsAccounted w → IsAccounted (submit entry w)
unfolding submit
submit-IsAccounted entry w v =
    by_test IsAccounted w.stopped _ _
      (λ over. record {
        accounted = omega (arith, v.accounted);
        attempted = omega (arith, v.attempted);
        bounded = v.bounded;
        unlocked = λ shut. omega (arith, v.unlocked shut);
        same_stopped = v.same_stopped;
        same_once = v.same_once;
      })
      (λ open_still. record {
        accounted = omega (arith, v.accounted);
        attempted = omega (arith, v.attempted);
        bounded = v.bounded;
        unlocked = λ shut. absurd (cc (open_still, v.same_stopped, shut));
        same_stopped = v.same_stopped;
        same_once = v.same_once;
      })

pub some-Accounted : (w : LogWorker) → IsAccounted w → Accounted (some w)
some-Accounted w v = (w, refl, v)

-- A call of Submit that takes a step from `old` to `new`.
module _ (w : LogWorker) (i : ℕ) (old new : Submitter)
    (there : get_elem? w.submitters i ≡ some old) where
  abbrev after : List Submitter
  after = set_at w.submitters i new

  now_waiting : total waiting after + waiting old ≡ total waiting w.submitters + waiting new
  now_waiting = total-set_at waiting w.submitters i old new there

  now_undecided :
      total undecided after + undecided old ≡ total undecided w.submitters + undecided new
  now_undecided = total-set_at undecided w.submitters i old new there

  now_holds : total holds after + holds old ≡ total holds w.submitters + holds new
  now_holds = total-set_at holds w.submitters i old new there

send-Accounted :
    (i : ℕ) (entry : InteractionLog) (w : LogWorker)
    → get_elem? w.submitters i ≡ some (counted entry)
    → IsAccounted w
    → Accounted (send i entry w)
unfolding send
send-Accounted i entry w there v =
    by_test Accounted w.queue_closed _ _
      (λ shut.
        absurd
          (omega (arith, now_holds w i (counted entry) (returned true) there, v.unlocked shut)))
      (λ open_still.
        by_test Accounted (ltb (length w.queue) w.queue_cap) _ _
          (λ room. some-Accounted _ (record {
            accounted = omega (
              arith,
              v.accounted,
              length-append w.queue (entry ∷ []),
              now_waiting w i (counted entry) (returned true) there,
            );
            attempted = omega (
              arith,
              v.attempted,
              length-set_at w.submitters i (returned true),
              now_undecided w i (counted entry) (returned true) there,
            );
            bounded = omega (
              arith,
              length-append w.queue (entry ∷ []),
              ltb→lt (length w.queue) w.queue_cap room,
            );
            unlocked = λ shut. absurd (cc (open_still, shut));
            same_stopped = v.same_stopped;
            same_once = v.same_once;
          }))
          (λ full. some-Accounted _ (record {
            accounted = omega (arith, v.accounted, now_waiting w i (counted entry) overflown there);
            attempted = omega (
              arith,
              v.attempted,
              length-set_at w.submitters i overflown,
              now_undecided w i (counted entry) overflown there,
            );
            bounded = v.bounded;
            unlocked = λ shut. absurd (cc (open_still, shut));
            same_stopped = v.same_stopped;
            same_once = v.same_once;
          })))

pub advance-Accounted :
    (i : ℕ) (s : Submitter) (w : LogWorker)
    → get_elem? w.submitters i ≡ some s
    → IsAccounted w
    → Accounted (advance i s w)
unfolding advance
advance-Accounted i (checked entry) w there v = some-Accounted _ (record {
  accounted = omega (arith, v.accounted, now_waiting w i (checked entry) (counted entry) there);
  attempted = omega (
    arith,
    v.attempted,
    length-set_at w.submitters i (counted entry),
    now_undecided w i (checked entry) (counted entry) there,
  );
  bounded = v.bounded;
  unlocked =
      λ shut. omega (arith, v.unlocked shut, now_holds w i (checked entry) (counted entry) there);
  same_stopped = v.same_stopped;
  same_once = v.same_once;
})
advance-Accounted i (counted entry) w there v = send-Accounted i entry w there v
advance-Accounted i overflown w there v = some-Accounted _ (record {
  accounted = omega (arith, v.accounted, now_waiting w i overflown (returned false) there);
  attempted = omega (
    arith,
    v.attempted,
    length-set_at w.submitters i (returned false),
    now_undecided w i overflown (returned false) there,
  );
  bounded = v.bounded;
  unlocked = λ shut. omega (arith, v.unlocked shut, now_holds w i overflown (returned false) there);
  same_stopped = v.same_stopped;
  same_once = v.same_once;
})
advance-Accounted i (returned b) w there v = some-Accounted w v

pub stop-Accounted : (w : LogWorker) → IsAccounted w → Accounted (stop w)
unfolding stop
stop-Accounted w v =
    by_test Accounted (w.stop_once || not (total holds w.submitters == 0)) _ _
      (λ _. some-Accounted w v)
      (λ first.
        by_test Accounted w.queue_closed _ _
          (λ shut.
            absurd (once_only w.stop_once (total holds w.submitters) (v.same_once ∙ shut) first))
          (λ open_still. some-Accounted _ (record {
            accounted = v.accounted;
            attempted = v.attempted;
            bounded = v.bounded;
            unlocked = λ _. nobody w.stop_once (total holds w.submitters) first;
            same_stopped = refl;
            same_once = refl;
          })))

pub hard_stop-IsAccounted : (w : LogWorker) → IsAccounted w → IsAccounted (hard_stop w)
unfolding hard_stop
hard_stop-IsAccounted w v =
    by_test IsAccounted w.stop_once _ _
      (λ _. record {
        accounted = v.accounted;
        attempted = v.attempted;
        bounded = v.bounded;
        unlocked = v.unlocked;
        same_stopped = v.same_stopped;
        same_once = v.same_once;
      })
      (λ _. v)
