-- ===== src/Broadcaster/Snapshot.antt =====
-- `Snapshot` and its insertion sort (internal/server/log_broadcaster.go).
use mathlib.Core.List.{Perm}
use mathlib.Core.List.Perm
use Prim.Native.Nat.{max}
use mock_agents.Prelude.{
  ℕ, ◌+◌, ◌<◌, ◌≤◌, Bool, ◌≡◌, refl, sym, ◌∙◌, ◌⊎◌, inl, inr, List, [], ◌∷◌, ◌++◌, arith,
  if◌then◌else◌, ltb, ◌==◌, ◌&&◌, ◌||◌, reverse, map, ◌^◌, Bool-cases, length, All,
}
use mock_agents.Broadcaster.{LogSubscription, LogBroadcaster, u64}
use mathlib.Core.List.{reverse_perm, perm_middle, append-nil, append_assoc, reverse-cons}

pub record SubscriberSnapshot : Type 0 where
  pub dropped : ℕ
  pub buffer_cap : ℕ
  pub buffer_len : ℕ

pub record BroadcasterSnapshot : Type 0 where
  pub subscriber_count : ℕ
  pub total_dropped : ℕ
  pub max_dropped : ℕ
  pub subscribers : List SubscriberSnapshot

-- The loop's `less`: `a` stands before `b` and the two are to be swapped.
abbrev pub less : SubscriberSnapshot → SubscriberSnapshot → Bool
less a b = ltb a.dropped b.dropped || a.dropped == b.dropped && ltb a.buffer_len b.buffer_len

-- The inner loop moves `x` left over the sorted prefix, which is held last element first.
unfoldable pub sift : SubscriberSnapshot → List SubscriberSnapshot → List SubscriberSnapshot
sift x [] = x ∷ []
sift x (y ∷ ys) = if less y x then y ∷ sift x ys else x ∷ y ∷ ys

unfoldable pub sort_loop :
    List SubscriberSnapshot → List SubscriberSnapshot → List SubscriberSnapshot
sort_loop prefix [] = reverse prefix
sort_loop prefix (x ∷ xs) = sort_loop (sift x prefix) xs

unfoldable pub sort_subscriber_snapshots : List SubscriberSnapshot → List SubscriberSnapshot
sort_subscriber_snapshots s = sort_loop [] s

abbrev pub snapshot_of : LogSubscription → SubscriberSnapshot
snapshot_of sub = record {
  dropped = sub.dropped;
  buffer_cap = sub.buffer_cap;
  buffer_len = length sub.ch;
}

-- The loop of `Snapshot` over the subscribers, with what it has summed so far.
unfoldable pub collect : (ℕ → LogSubscription) → List ℕ → BroadcasterSnapshot → BroadcasterSnapshot
collect heap [] snap = snap
collect heap (p ∷ ps) snap =
    let sub = heap p in
    collect heap ps (record snap {
      total_dropped = u64 (snap.total_dropped + sub.dropped);
      max_dropped = if ltb snap.max_dropped sub.dropped then sub.dropped else snap.max_dropped;
      subscribers = snap.subscribers ++ snapshot_of sub ∷ [];
    })

unfoldable pub snapshot : LogBroadcaster → BroadcasterSnapshot
snapshot b =
    let snap = collect b.heap b.subscribers (record {
      subscriber_count = length b.subscribers;
      total_dropped = 0;
      max_dropped = 0;
      subscribers = [];
    }) in
    record snap { subscribers = sort_subscriber_snapshots snap.subscribers }

-- The worst offender first: by drops, and among equals by the fuller buffer.
abbrev pub NoLess : SubscriberSnapshot → SubscriberSnapshot → Type 0
NoLess a b = (b.dropped < a.dropped) ⊎ (a.dropped ≡ b.dropped) × (b.buffer_len ≤ a.buffer_len)

abbrev pub IsDescending : List SubscriberSnapshot → Type 0
IsDescending [] = Unit
IsDescending (x ∷ xs) = All (NoLess x) xs × IsDescending xs

abbrev IsAscending : List SubscriberSnapshot → Type 0
IsAscending [] = Unit
IsAscending (x ∷ xs) = All (λ y. NoLess y x) xs × IsAscending xs

sift-perm : (x : SubscriberSnapshot) (ys : List SubscriberSnapshot) → Perm (sift x ys) (x ∷ ys)
unfolding sift
sift-perm x [] = Perm.refl _
sift-perm x (y ∷ ys) = elim (Bool-cases (less y x)) [
  | inl up ↦ rw up (Perm.trans (Perm.cons y (sift-perm x ys)) (Perm.swap _ _ _))
  | inr stay ↦ rw stay (Perm.refl _)
]

sort_loop-perm : (prefix xs : List SubscriberSnapshot) → Perm (sort_loop prefix xs) (prefix ++ xs)
unfolding sort_loop
sort_loop-perm prefix [] = Perm.trans (reverse_perm prefix) (rw append-nil (Perm.refl prefix))
sort_loop-perm prefix (x ∷ xs) =
    Perm.trans (sort_loop-perm (sift x prefix) xs)
      (Perm.trans (Perm.append_right xs (sift-perm x prefix)) (Perm.symm (perm_middle prefix xs)))

All-NoLess_trans :
    (x y : SubscriberSnapshot) (ys : List SubscriberSnapshot)
    → NoLess y x
    → All (λ z. NoLess z y) ys
    → All (λ z. NoLess z x) ys
All-NoLess_trans x y [] h a = tt
All-NoLess_trans x y (z ∷ zs) h a = (ground arith, All-NoLess_trans x y zs h a.1)

sift-All :
    (w x : SubscriberSnapshot) (ys : List SubscriberSnapshot)
    → NoLess x w
    → All (λ z. NoLess z w) ys
    → All (λ z. NoLess z w) (sift x ys)
unfolding sift
sift-All w x [] h a = (h, tt)
sift-All w x (y ∷ ys) h a = ground (arith, sift-All w x ys h a.1)

sift-IsAscending :
    (x : SubscriberSnapshot) (ys : List SubscriberSnapshot)
    → IsAscending ys
    → IsAscending (sift x ys)
unfolding sift
sift-IsAscending x [] a = (tt, tt)
sift-IsAscending x (y ∷ ys) a = elim (Bool-cases (less y x)) [
  | inl up ↦ rw up (sift-All y x ys (ground arith) a.0, sift-IsAscending x ys a.1)
  | inr stay ↦ let h : NoLess y x = ground arith in rw stay ((h, All-NoLess_trans x y ys h a.0), a)
]

All-append :
    (P : SubscriberSnapshot → Type 0) (xs ys : List SubscriberSnapshot)
    → All P xs
    → All P ys
    → All P (xs ++ ys)
All-append P [] ys a b = b
All-append P (x ∷ xs) ys a b = (a.0, All-append P xs ys a.1 b)

All-reverse :
    (P : SubscriberSnapshot → Type 0) (xs : List SubscriberSnapshot) → All P xs → All P (reverse xs)
All-reverse P [] a = tt
All-reverse P (x ∷ xs) a =
    rw (reverse-cons x xs) (All-append P (reverse xs) (x ∷ []) (All-reverse P xs a.1) (a.0, tt))

IsDescending-append :
    (x : SubscriberSnapshot) (xs : List SubscriberSnapshot)
    → IsDescending xs
    → All (λ z. NoLess z x) xs
    → IsDescending (xs ++ x ∷ [])
IsDescending-append x [] d a = (tt, tt)
IsDescending-append x (y ∷ ys) d a =
    (All-append (NoLess y) ys (x ∷ []) d.0 (a.0, tt), IsDescending-append x ys d.1 a.1)

IsDescending-reverse : (xs : List SubscriberSnapshot) → IsAscending xs → IsDescending (reverse xs)
IsDescending-reverse [] a = tt
IsDescending-reverse (x ∷ xs) a = rw (reverse-cons x xs) (
    IsDescending-append x (reverse xs) (IsDescending-reverse xs a.1)
      (All-reverse (λ z. NoLess z x) xs a.0))

sort_loop-IsDescending :
    (prefix xs : List SubscriberSnapshot) → IsAscending prefix → IsDescending (sort_loop prefix xs)
unfolding sort_loop
sort_loop-IsDescending prefix [] a = IsDescending-reverse prefix a
sort_loop-IsDescending prefix (x ∷ xs) a =
    sort_loop-IsDescending (sift x prefix) xs (sift-IsAscending x prefix a)

abbrev snapshots : (ℕ → LogSubscription) → List ℕ → List SubscriberSnapshot
snapshots heap ps = map (λ p. snapshot_of (heap p)) ps

-- The drops of the subscriptions at some addresses, added up.
abbrev pub drops : (ℕ → LogSubscription) → List ℕ → ℕ
drops heap [] = 0
drops heap (p ∷ ps) = (heap p).dropped + drops heap ps

collect-subscribers :
    (heap : ℕ → LogSubscription) (ps : List ℕ) (snap : BroadcasterSnapshot)
    → (collect heap ps snap).subscribers ≡ snap.subscribers ++ snapshots heap ps
unfolding collect
collect-subscribers heap [] snap = sym (append-nil _)
collect-subscribers heap (p ∷ ps) snap =
    collect-subscribers heap ps _ ∙ append_assoc snap.subscribers _ _

collect-count :
    (heap : ℕ → LogSubscription) (ps : List ℕ) (snap : BroadcasterSnapshot)
    → (collect heap ps snap).subscriber_count ≡ snap.subscriber_count
unfolding collect
collect-count heap [] snap = refl
collect-count heap (p ∷ ps) snap = collect-count heap ps _

collect-total :
    (heap : ℕ → LogSubscription) (ps : List ℕ) (snap : BroadcasterSnapshot)
    → snap.total_dropped < 2 ^ 64
    → (collect heap ps snap).total_dropped ≡ u64 (snap.total_dropped + drops heap ps)
unfolding collect
collect-total heap [] snap h = omega arith
collect-total heap (p ∷ ps) snap h = collect-total heap ps _ (omega arith) ∙ omega arith

-- The largest number of drops at some addresses, 0 if there are none.
abbrev pub most_drops : (ℕ → LogSubscription) → List ℕ → ℕ
most_drops heap [] = 0
most_drops heap (p ∷ ps) = max (heap p).dropped (most_drops heap ps)

larger : (m d k : ℕ) → max (if ltb m d then d else m) k ≡ max m (max d k)
larger m d k = ground arith

collect-max :
    (heap : ℕ → LogSubscription) (ps : List ℕ) (snap : BroadcasterSnapshot)
    → (collect heap ps snap).max_dropped ≡ max snap.max_dropped (most_drops heap ps)
unfolding collect
collect-max heap [] snap = omega arith
collect-max heap (p ∷ ps) snap =
    collect-max heap ps _ ∙ larger snap.max_dropped (heap p).dropped (most_drops heap ps)

-- A snapshot counts the subscribers, adds up their drops modulo 2^64, gives their largest drop count
-- (0 if there is no subscriber), and lists one row for each subscriber, in descending order of drops
-- and, among equal drops, of buffer length.
pub snapshot_lem :
    (b : LogBroadcaster)
    → let snap = snapshot b in
      (snap.subscriber_count ≡ length b.subscribers)
      × (snap.total_dropped ≡ u64 (drops b.heap b.subscribers))
      × (snap.max_dropped ≡ most_drops b.heap b.subscribers)
      × Perm snap.subscribers (map (λ p. snapshot_of (b.heap p)) b.subscribers)
      × IsDescending snap.subscribers
unfolding snapshot sort_subscriber_snapshots
snapshot_lem b = (
  collect-count b.heap b.subscribers _,
  omega (
    arith,
    collect-total b.heap b.subscribers
        (record {
          subscriber_count = length b.subscribers;
          total_dropped = 0;
          max_dropped = 0;
          subscribers = [];
        })
        (omega arith),
  ),
  omega (
    arith,
    collect-max b.heap b.subscribers (record {
      subscriber_count = length b.subscribers;
      total_dropped = 0;
      max_dropped = 0;
      subscribers = [];
    }),
  ),
  rw (collect-subscribers b.heap b.subscribers _) (sort_loop-perm [] _),
  sort_loop-IsDescending [] _ tt,
)
