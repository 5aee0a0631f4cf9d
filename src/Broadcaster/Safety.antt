-- ===== src/Broadcaster/Safety.antt =====
-- No call sends on a closed channel or closes one twice.
use mock_agents.Prelude.{
  ℕ, suc, ◌+◌, ◌<◌, true, false, ◌≡◌, refl, ap, ltb, ◌++◌, length, inl, inr, Option, some, List, [],
  ◌∷◌, arith, if◌then◌else◌, ==_refl, Bool-cases, String, ℤ,
}
use mock_agents.Broadcaster.{
  InteractionLog, LogSubscription, LogBroadcaster, Cancel, nothing, release, Call, subscribes,
  cancels, publishes, receives, closes, write, contains, remove, close_ch, new_subscription,
  subscribe, cancel, u64, out_of_scope, offer, publish_to, publish, close_all, close, receive,
  zero_value, step, run,
}

abbrev pub Heap : Type 0
Heap = ℕ → LogSubscription

abbrev pub Open : Heap → List ℕ → Type 0
Open h [] = Unit
Open h (p ∷ ps) = ((h p).ch_closed ≡ false) × Open h ps

abbrev pub Distinct : List ℕ → Type 0
Distinct [] = Unit
Distinct (p ∷ ps) = (contains p ps ≡ false) × Distinct ps

abbrev pub Below : ℕ → List ℕ → Type 0
Below n [] = Unit
Below n (p ∷ ps) = (p < n) × Below n ps

-- The registered subscriptions are distinct, allocated and open; a closed broadcaster has none.
pub record Inv (b : LogBroadcaster) : Type 0 where
  pub are_open : Open b.heap b.subscribers
  pub are_distinct : Distinct b.subscribers
  pub are_below : Below b.next b.subscribers
  pub none_if_closed : b.closed ≡ true → b.subscribers ≡ []

-- A call returns a state in which the invariant holds.
abbrev pub Safe : Option LogBroadcaster → Type 0
Safe r = (c : LogBroadcaster) × (r ≡ some c) × Inv c

pub contains-Below : (n : ℕ) (ps : List ℕ) → Below n ps → contains n ps ≡ false
contains-Below n [] b = refl
contains-Below n (p ∷ ps) b = ground (arith, contains-Below n ps b.1)

Below-suc : (n : ℕ) (ps : List ℕ) → Below n ps → Below (suc n) ps
Below-suc n [] b = tt
Below-suc n (p ∷ ps) b = (omega arith, Below-suc n ps b.1)

-- A cell outside the list may be written at will.
Open-write :
    (h : Heap) (p : ℕ) (s : LogSubscription) (ps : List ℕ)
    → contains p ps ≡ false
    → Open h ps
    → Open (write h p s) ps
Open-write h p s [] c o = tt
Open-write h p s (q ∷ qs) c o = ground (arith, Open-write h p s qs)

-- An open subscription may be written anywhere.
pub Open-write_live :
    (h : Heap) (p : ℕ) (s : LogSubscription) (ps : List ℕ)
    → s.ch_closed ≡ false
    → Open h ps
    → Open (write h p s) ps
Open-write_live h p s [] c o = tt
Open-write_live h p s (q ∷ qs) c o = ground (arith, Open-write_live h p s qs)

Open-write_same :
    (h : Heap) (p : ℕ) (s : LogSubscription) (ps : List ℕ)
    → s.ch_closed ≡ (h p).ch_closed
    → Open h ps
    → Open (write h p s) ps
Open-write_same h p s [] c o = tt
Open-write_same h p s (q ∷ qs) c o = ground (arith, Open-write_same h p s qs)

contains-remove : (p : ℕ) (ps : List ℕ) → contains p (remove p ps) ≡ false
contains-remove p [] = refl
contains-remove p (q ∷ qs) = ground (arith, contains-remove p qs)

contains-remove_other :
    (p q : ℕ) (ps : List ℕ) → contains q ps ≡ false → contains q (remove p ps) ≡ false
contains-remove_other p q [] c = refl
contains-remove_other p q (x ∷ xs) c = ground (arith, contains-remove_other p q xs)

remove-Distinct : (p : ℕ) (ps : List ℕ) → Distinct ps → Distinct (remove p ps)
remove-Distinct p [] d = tt
remove-Distinct p (q ∷ qs) d =
    ground (arith, remove-Distinct p qs d.1, contains-remove_other p q qs d.0)

remove-Below : (n p : ℕ) (ps : List ℕ) → Below n ps → Below n (remove p ps)
remove-Below n p [] d = tt
remove-Below n p (q ∷ qs) d = ground (arith, remove-Below n p qs d.1)

remove-Open : (h : Heap) (p : ℕ) (ps : List ℕ) → Open h ps → Open h (remove p ps)
remove-Open h p [] d = tt
remove-Open h p (q ∷ qs) d = ground (arith, remove-Open h p qs d.1)

Open-contains :
    (h : Heap) (p : ℕ) (ps : List ℕ) → Open h ps → contains p ps ≡ true → (h p).ch_closed ≡ false
Open-contains h p [] o c = cc
Open-contains h p (q ∷ qs) o c = ground (arith, Open-contains h p qs o.1)

pub zero_value-Inv : Inv zero_value
unfolding zero_value
zero_value-Inv = record {
  are_open = tt;
  are_distinct = tt;
  are_below = tt;
  none_if_closed = λ _. refl;
}

subscribe-Safe :
    (buffer : ℤ) (tenant : String) (b : LogBroadcaster)
    → Inv b
    → Safe (step (subscribes buffer tenant) b)
unfolding step subscribe close_ch
subscribe-Safe buffer tenant b v =
    let out = contains-Below b.next b.subscribers v.are_below in
    let made = record b {
      next = suc b.next;
      heap = write b.heap b.next (new_subscription buffer tenant);
    } in
    elim (Bool-cases b.closed) [
      | inl shut ↦ (
        record made {
          heap = write made.heap b.next (record (made.heap b.next) { ch_closed = true });
        },
        rw (shut, ==_refl b.next),
        record {
          are_open =
              Open-write _ b.next _ b.subscribers out
                (Open-write b.heap b.next _ b.subscribers out v.are_open);
          are_distinct = v.are_distinct;
          are_below = Below-suc b.next b.subscribers v.are_below;
          none_if_closed = v.none_if_closed;
        },
      )
      | inr up ↦ (
        record made { subscribers = b.next ∷ b.subscribers },
        rw up,
        record {
          are_open = (rw (==_refl b.next), Open-write b.heap b.next _ b.subscribers out v.are_open);
          are_distinct = (out, v.are_distinct);
          are_below = (omega arith, Below-suc b.next b.subscribers v.are_below);
          none_if_closed = λ c. cc;
        },
      )
    ]

cancel-Safe : (c : Cancel) (b : LogBroadcaster) → Inv b → Safe (cancel c b)
unfolding cancel close_ch
cancel-Safe nothing b v = (b, refl, v)
cancel-Safe (release p) b v = elim (Bool-cases (contains p b.subscribers)) [
  | inl there ↦ (
    record b {
      subscribers = remove p b.subscribers;
      heap = write b.heap p (record (b.heap p) { ch_closed = true });
    },
    rw (there, Open-contains b.heap p b.subscribers v.are_open there),
    record {
      are_open =
          Open-write b.heap p _ _ (contains-remove p b.subscribers)
            (remove-Open b.heap p b.subscribers v.are_open);
      are_distinct = remove-Distinct p b.subscribers v.are_distinct;
      are_below = remove-Below b.next p b.subscribers v.are_below;
      none_if_closed = λ c. ap (remove p) (v.none_if_closed c);
    },
  )
  | inr gone ↦ (b, rw gone, v)
]

-- What an open subscription becomes when an entry is offered to it.
abbrev pub offered : InteractionLog → LogSubscription → LogSubscription
offered entry s =
    if out_of_scope entry s
    then s
    else if ltb (length s.ch) s.buffer_cap
    then record s { ch = s.ch ++ entry ∷ [] }
    else record s { dropped = u64 (s.dropped + 1) }

pub offer_live :
    (entry : InteractionLog) (s : LogSubscription)
    → s.ch_closed ≡ false
    → offer entry s ≡ some (offered entry s)
unfolding offer
offer_live entry s o = ground arith

pub offered_live :
    (entry : InteractionLog) (s : LogSubscription)
    → s.ch_closed ≡ false
    → (offered entry s).ch_closed ≡ false
offered_live entry s o = ground arith

publish_to-Safe :
    (entry : InteractionLog) (ps : List ℕ) (b : LogBroadcaster)
    → Inv b
    → Open b.heap ps
    → Safe (publish_to entry ps b)
unfolding publish_to
publish_to-Safe entry [] b v o = (b, refl, v)
publish_to-Safe entry (p ∷ ps) b v o =
    let t = offered entry (b.heap p) in
    let s = offered_live entry (b.heap p) o.0 in
    rw (offer_live entry (b.heap p) o.0) (
      publish_to-Safe entry ps (record b { heap = write b.heap p t })
        (record {
          are_open = Open-write_live b.heap p t b.subscribers s v.are_open;
          are_distinct = v.are_distinct;
          are_below = v.are_below;
          none_if_closed = v.none_if_closed;
        })
        (Open-write_live b.heap p t ps s o.1))

close_all-total :
    (ps : List ℕ) (b : LogBroadcaster)
    → Open b.heap ps
    → Distinct ps
    → (c : LogBroadcaster) × (close_all ps b ≡ some c) × (c.closed ≡ b.closed)
unfolding close_all close_ch
close_all-total [] b o d = (b, refl, refl)
close_all-total (p ∷ ps) b o d =
    rw o.0 (close_all-total ps _ (Open-write b.heap p _ ps d.0 o.1) d.1)

close-Safe : (b : LogBroadcaster) → Inv b → Safe (close b)
unfolding close
close-Safe b v = elim (Bool-cases b.closed) [
  | inl shut ↦ (b, rw shut, v)
  | inr up ↦
      let (c, e, k) =
        close_all-total b.subscribers (record b { closed = true }) v.are_open v.are_distinct in
      (
        record c { subscribers = [] },
        rw (up, e),
        record { are_open = tt; are_distinct = tt; are_below = tt; none_if_closed = λ _. refl },
      )
]

pub step-Safe : (c : Call) (b : LogBroadcaster) → Inv b → Safe (step c b)
unfolding step publish receive
step-Safe (subscribes n t) b v = subscribe-Safe n t b v
step-Safe (cancels c) b v = cancel-Safe c b v
step-Safe (publishes e) b v = publish_to-Safe e b.subscribers b v v.are_open
step-Safe (receives p) b v = (
  _,
  refl,
  record {
    are_open = Open-write_same b.heap p _ b.subscribers refl v.are_open;
    are_distinct = v.are_distinct;
    are_below = v.are_below;
    none_if_closed = v.none_if_closed;
  },
)
step-Safe closes b v = close-Safe b v

-- From any state in which the invariant holds, every sequence of calls runs to its end without a
-- panic, into a state in which the invariant holds.
pub run-Safe : (cs : List Call) (b : LogBroadcaster) → Inv b → Safe (run cs b)
unfolding run
run-Safe [] b v = (b, refl, v)
run-Safe (c ∷ cs) b v = let (d, e, w) = step-Safe c b v in rw e (run-Safe cs d w)
