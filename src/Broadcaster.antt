-- ===== src/Broadcaster.antt =====
-- internal/server/log_broadcaster.go: the fan-out of interaction logs to live subscribers.
-- A `*LogSubscription` is a pointer, so the subscriptions stand on a heap and the broadcaster holds
-- their addresses. A send on a closed channel and a second close of one panic in Go: here `none`.
-- The mutex makes each method one step. The order of `subscribers` is the order of `range`.
pub mod Safety
pub mod Delivery
pub mod Snapshot
mod Examples
use mock_agents.Prelude.{
  ℕ, suc, ◌+◌, ◌%◌, ◌^◌, Bool, true, false, not, ◌&&◌, ◌||◌, String, Option, none, some, List, [],
  ◌∷◌, ◌++◌, if◌then◌else◌, ltb, ◌==◌, str_eq, length, ℤ, positive_or, ◌>>=◌,
}

-- The fields of `storage.InteractionLog` that the broadcaster reads or its readers tell apart.
pub record InteractionLog : Type 0 where
  pub id : ℕ
  pub tenant_id : String

pub record LogSubscription : Type 0 where
  pub ch : List InteractionLog
  pub buffer_cap : ℕ
  pub ch_closed : Bool
  pub dropped : ℕ  -- atomic.Uint64
  pub tenant_id : String

-- The broadcaster with the heap of all subscriptions ever made; `next` is the next address.
pub record LogBroadcaster : Type 0 where
  pub next : ℕ
  pub heap : ℕ → LogSubscription
  pub subscribers : List ℕ
  pub closed : Bool

abbrev pub default_log_stream_buffer : ℕ
default_log_stream_buffer = 64

abbrev pub u64 : ℕ → ℕ
u64 n = n % 2 ^ 64

abbrev pub write : (ℕ → LogSubscription) → ℕ → LogSubscription → ℕ → LogSubscription
write heap p sub q = if p == q then sub else heap q

abbrev pub contains : ℕ → List ℕ → Bool
contains p [] = false
contains p (q ∷ qs) = q == p || contains p qs

abbrev pub remove : ℕ → List ℕ → List ℕ
remove p [] = []
remove p (q ∷ qs) = let rest = remove p qs in if q == p then rest else q ∷ rest

-- `close(sub.ch)`, at an address.
unfoldable pub close_ch : ℕ → LogBroadcaster → Option LogBroadcaster
close_ch p b =
    let sub = b.heap p in
    if sub.ch_closed
    then none
    else some (record b { heap = write b.heap p (record sub { ch_closed = true }) })

-- The function that `subscribe` returns beside the subscription.
pub data Cancel : Type 0 where
  nothing : Cancel
  release : ℕ → Cancel

unfoldable pub new_subscription : ℤ → String → LogSubscription
new_subscription buffer tenant_id = record {
  ch = [];
  buffer_cap = positive_or buffer default_log_stream_buffer;
  ch_closed = false;
  dropped = 0;
  tenant_id = tenant_id;
}

-- The result is the new state, the subscription's address and its cancel function.
unfoldable pub subscribe : ℤ → String → LogBroadcaster → Option (LogBroadcaster × ℕ × Cancel)
unfolding new_subscription
subscribe buffer tenant_id b =
    let p = b.next in
    let made = record b {
      next = suc p;
      heap = write b.heap p (new_subscription buffer tenant_id);
    } in
    if b.closed
    then (close_ch p made >>= λ shut. some (shut, p, nothing))
    else some (record made { subscribers = p ∷ b.subscribers }, p, release p)

unfoldable pub cancel : Cancel → LogBroadcaster → Option LogBroadcaster
cancel nothing b = some b
cancel (release p) b =
    if contains p b.subscribers
    then close_ch p (record b { subscribers = remove p b.subscribers })
    else some b

-- Whether `Publish` skips the subscriber: it is scoped to another tenant.
abbrev pub out_of_scope : InteractionLog → LogSubscription → Bool
out_of_scope entry sub = not (str_eq sub.tenant_id "") && not (str_eq entry.tenant_id sub.tenant_id)

-- The body of the loop of `Publish`: the scope test, then the non-blocking send.
unfoldable pub offer : InteractionLog → LogSubscription → Option LogSubscription
offer entry sub =
    if out_of_scope entry sub
    then some sub
    else if sub.ch_closed
    then none
    else if ltb (length sub.ch) sub.buffer_cap
    then some (record sub { ch = sub.ch ++ entry ∷ [] })
    else some (record sub { dropped = u64 (sub.dropped + 1) })

unfoldable pub publish_to : InteractionLog → List ℕ → LogBroadcaster → Option LogBroadcaster
publish_to entry [] b = some b
publish_to entry (p ∷ ps) b =
    offer entry (b.heap p) >>= λ sub. publish_to entry ps (record b { heap = write b.heap p sub })

unfoldable pub publish : InteractionLog → LogBroadcaster → Option LogBroadcaster
publish entry b = publish_to entry b.subscribers b

unfoldable pub close_all : List ℕ → LogBroadcaster → Option LogBroadcaster
close_all [] b = some b
close_all (p ∷ ps) b = close_ch p b >>= close_all ps

unfoldable pub close : LogBroadcaster → Option LogBroadcaster
close b =
    if b.closed
    then some b
    else (close_all b.subscribers (record b { closed = true }) >>= λ c.
        some (record c { subscribers = [] }))

-- The reader at the other end of the channel takes one entry, if there is one.
unfoldable pub receive : ℕ → LogBroadcaster → Option LogBroadcaster
receive p b =
    let sub = b.heap p in
    let rest : List InteractionLog = elim sub.ch [ [] ↦ [] | x ∷ xs ↦ xs ] in
    some (record b { heap = write b.heap p (record sub { ch = rest }) })

unfoldable pub subscriber_count : LogBroadcaster → ℕ
subscriber_count b = length b.subscribers

-- The zero value, which is usable.
unfoldable pub zero_value : LogBroadcaster
unfolding new_subscription
zero_value = record {
  next = 0;
  heap = λ _. new_subscription (ℤ.pos 0) "";
  subscribers = [];
  closed = false;
}

-- The calls that clients make, in any order. A cancel function may be called at any time and again.
pub data Call : Type 0 where
  subscribes : ℤ → String → Call
  cancels : Cancel → Call
  publishes : InteractionLog → Call
  receives : ℕ → Call
  closes : Call

unfoldable pub step : Call → LogBroadcaster → Option LogBroadcaster
step (subscribes buffer tenant_id) b =
    subscribe buffer tenant_id b >>= λ (r : LogBroadcaster × ℕ × Cancel). some r.0
step (cancels c) b = cancel c b
step (publishes entry) b = publish entry b
step (receives p) b = receive p b
step closes b = close b

unfoldable pub run : List Call → LogBroadcaster → Option LogBroadcaster
run [] b = some b
run (c ∷ cs) b = step c b >>= run cs
