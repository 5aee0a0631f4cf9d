-- ===== src/Broadcaster/Delivery.antt =====
-- What each subscriber receives of what is published.
use mathlib.Core.List.{append-nil, append_assoc}
use mock_agents.Prelude.{
  ℕ, zero, suc, ◌+◌, ◌-◌, ◌<◌, ◌≤◌, ◌^◌, true, ◌≡◌, refl, sym, ◌∙◌, ap, inl, inr, Option, some,
  List, [], ◌∷◌, ◌++◌, arith, if◌then◌else◌, ltb, ◌==◌, str_eq, not, ◌&&◌, ==_refl, ◌>>=◌,
  Bool-cases, String, length, subst, ==→eq, take, length-append, ltb→lt,
}
use mock_agents.Broadcaster.{
  InteractionLog, LogSubscription, LogBroadcaster, u64, write, contains, out_of_scope, publish_to,
  publish, step, publishes,
}
use mock_agents.Broadcaster.Safety.{
  Heap, Open, Distinct, Inv, offered, offer_live, offered_live, Open-write_live, step-Safe,
}

-- The heap after the loop of `Publish`, in one equation for every address.
publish_to-heap :
    (entry : InteractionLog) (ps : List ℕ) (b : LogBroadcaster)
    → Open b.heap ps
    → Distinct ps
    → (h : Heap) × (publish_to entry ps b ≡ some (record b { heap = h }))
      × ((q : ℕ) → h q ≡ (if contains q ps then offered entry (b.heap q) else b.heap q))
unfolding publish_to
publish_to-heap entry [] b o d = (b.heap, refl, λ q. refl)
publish_to-heap entry (p ∷ ps) b o d =
    let s = offered entry (b.heap p) in
    let (h, e, k) =
      publish_to-heap entry ps (record b { heap = write b.heap p s })
        (Open-write_live b.heap p s ps (offered_live entry (b.heap p) o.0) o.1) d.1 in
    (
      h,
      rw (offer_live entry (b.heap p) o.0) e,
      λ q. elim (Bool-cases (p == q)) [
        | inl same ↦ rw same (
            subst (λ x. h x ≡ offered entry (b.heap x)) (==→eq p q same)
              (k p ∙ rw (d.0, ==_refl p)))
        | inr other ↦ rw other (k q ∙ rw other)
      ],
    )

publish-Inv : (e : InteractionLog) (b c : LogBroadcaster) → Inv b → publish e b ≡ some c → Inv c
unfolding step
publish-Inv e b c v r =
    let (d, s, w) = step-Safe (publishes e) b v in let same : d ≡ c = cc in subst Inv same w

-- Publishes the entries in turn.
unfoldable pub publish_all : List InteractionLog → LogBroadcaster → Option LogBroadcaster
publish_all [] b = some b
publish_all (e ∷ es) b = publish e b >>= publish_all es

-- The entries that a subscription with this tenant is to see.
abbrev pub scoped : String → List InteractionLog → List InteractionLog
scoped tenant [] = []
scoped tenant (e ∷ es) =
    if not (str_eq tenant "") && not (str_eq e.tenant_id tenant)
    then scoped tenant es
    else e ∷ scoped tenant es

offered_all : List InteractionLog → LogSubscription → LogSubscription
offered_all [] s = s
offered_all (e ∷ es) s = offered_all es (offered e s)

take_room :
    (cap n : ℕ) (e : InteractionLog) (es : List InteractionLog)
    → n < cap
    → take (cap - n) (e ∷ es) ≡ e ∷ take (cap - (n + 1)) es
take_room cap n e es h = let k : cap - n ≡ suc (cap - (n + 1)) = omega arith in rw k

take_full : (cap n : ℕ) (es : List InteractionLog) → cap ≤ n → take (cap - n) es ≡ []
take_full cap n es h = let k : cap - n ≡ 0 = omega arith in rw k

take-nil : (n : ℕ) → take {A = InteractionLog} n [] ≡ []
take-nil zero = refl
take-nil (suc n) = refl

offered_all-ch :
    (es : List InteractionLog) (s : LogSubscription)
    → (offered_all es s).ch ≡ s.ch ++ take (s.buffer_cap - length s.ch) (scoped s.tenant_id es)
unfolding offered_all
offered_all-ch [] s = sym (ap (◌++◌ s.ch) (take-nil _) ∙ append-nil s.ch)
offered_all-ch (e ∷ es) s = elim (Bool-cases (out_of_scope e s)) [
  | inl out ↦ rw (out, offered_all) (offered_all-ch es s)
  | inr seen ↦ elim (Bool-cases (ltb (length s.ch) s.buffer_cap)) [
    | inl room ↦
        rw (seen, room, offered_all)
          (offered_all-ch es (record s { ch = s.ch ++ e ∷ [] })
            ∙ rw (
              take_room s.buffer_cap (length s.ch) e (scoped s.tenant_id es) (ltb→lt _ _ room),
              length-append s.ch (e ∷ []),
              append_assoc,
            ))
    | inr full ↦
        rw (seen, full, offered_all)
          (offered_all-ch es (record s { dropped = u64 (s.dropped + 1) })
            ∙ rw (
              take_full s.buffer_cap (length s.ch) (scoped s.tenant_id es) (ground arith),
              take_full s.buffer_cap (length s.ch) (e ∷ scoped s.tenant_id es) (ground arith),
            ))
  ]
]

offered_all-dropped :
    (es : List InteractionLog) (s : LogSubscription)
    → s.dropped < 2 ^ 64
    → (offered_all es s).dropped
      ≡ u64 (s.dropped + (length (scoped s.tenant_id es) - (s.buffer_cap - length s.ch)))
unfolding offered_all
offered_all-dropped [] s h = omega arith
offered_all-dropped (e ∷ es) s h = elim (Bool-cases (out_of_scope e s)) [
  | inl out ↦ rw (out, offered_all) (offered_all-dropped es s h)
  | inr seen ↦ elim (Bool-cases (ltb (length s.ch) s.buffer_cap)) [
    | inl room ↦
        rw (seen, room, offered_all)
          (omega (
            arith,
            offered_all-dropped es (record s { ch = s.ch ++ e ∷ [] }) h,
            ltb→lt _ _ room,
            length-append s.ch (e ∷ []),
          ))
    | inr full ↦
        rw (seen, full, offered_all)
          (let le : s.buffer_cap ≤ length s.ch = ground arith in
            omega (
              arith,
              offered_all-dropped es (record s { dropped = u64 (s.dropped + 1) }) (omega arith),
            ))
  ]
]

-- The address `p` after `publish_all`, and the bookkeeping.
publish_all-heap :
    (es : List InteractionLog) (b : LogBroadcaster) (p : ℕ)
    → Inv b
    → contains p b.subscribers ≡ true
    → (c : LogBroadcaster) × (publish_all es b ≡ some c) × (c.heap p ≡ offered_all es (b.heap p))
unfolding publish_all publish offered_all
publish_all-heap [] b p v m = (b, refl, refl)
publish_all-heap (e ∷ es) b p v m =
    let (h, r, k) = publish_to-heap e b.subscribers b v.are_open v.are_distinct in
    let c = record b { heap = h } in
    let w = publish-Inv e b c v r in
    let (c', r', k') = publish_all-heap es c p w m in
    (c', rw r r', k' ∙ ap (offered_all es) (k p ∙ rw m))

-- A registered subscriber's buffer after any batch of entries is published without a read between:
-- the entries in its scope, oldest first, up to the buffer's room, behind what it held. The rest in
-- its scope is counted as dropped, and no entry of another tenant changes buffer or count.
pub publish_all-delivers :
    (es : List InteractionLog) (b : LogBroadcaster) (p : ℕ)
    → Inv b
    → contains p b.subscribers ≡ true
    → (b.heap p).dropped < 2 ^ 64
    → let s = b.heap p in
      let seen = scoped s.tenant_id es in
      let room = s.buffer_cap - length s.ch in
      (c : LogBroadcaster) × (publish_all es b ≡ some c)
      × ((c.heap p).ch ≡ s.ch ++ take room seen)
      × ((c.heap p).dropped ≡ u64 (s.dropped + (length seen - room)))
publish_all-delivers es b p v m d =
    let (c, r, k) = publish_all-heap es b p v m in
    (c, r, rw k (offered_all-ch es (b.heap p)), rw k (offered_all-dropped es (b.heap p) d))
