-- ===== src/Quota/RateLimit.antt =====
-- The token bucket of internal/quota/quota.go.
use Prim.Native.Nat.{min}
use mock_agents.Prelude.{
  ℕ, zero, suc, ◌+◌, ◌-◌, ◌^◌, ◌≤◌, true, false, String, Option, none, some, ◌≡◌, refl, sym, ◌∙◌,
  ap, inl, inr, subst, ltb→lt, arith, if◌then◌else◌, ltb, str_eq, str_eq_refl, ◌||◌, Bool-cases,
  lookup, insert, lookup-insert, eq_iff,
}
use mock_agents.Float.{Float64}
use mock_agents.Quota.{
  SpendBackend, Config, Bucket, Enforcer, effective, capacity_for, refill, allow_request,
}

-- The order of finite float64 values, math.Min, and that taking one away does not raise a value.
pub record FloatOrder (f : Float64) : Type 0 where
  pub le_refl : (a : f.F) → f.le a a ≡ true
  pub le_trans : (a b c : f.F) → f.le a b ≡ true → f.le b c ≡ true → f.le a c ≡ true
  pub min_le : (a b : f.F) → f.le (f.math_min a b) a ≡ true
  pub sub_le : (a : f.F) → f.le (f.sub a f.f_one) a ≡ true

-- The integer part of a float64, 0 for a negative one. Subtraction of one lowers it by one up to
-- 2^53, where a float64 holds every integer; above, it may round back.
pub record FloatWhole (f : Float64) : Type 0 where
  pub whole : f.F → ℕ
  pub le_one : (a : f.F) → f.le f.f_one a ≡ ltb 0 (whole a)
  pub sub_one : (a : f.F) → whole a ≤ 2 ^ 53 → whole (f.sub a f.f_one) ≡ whole a - 1

none_left : (n : ℕ) → ltb 0 n ≡ false → n ≡ 0
none_left n h = ground arith

module _ (f : Float64) where
  refill-le :
      FloatOrder f
      → (c : Config f) (now : ℕ) (o : Option (Bucket f))
      → ((b : Bucket f) → o ≡ some b → f.le b.tokens (capacity_for f c) ≡ true)
      → f.le (refill f c now o).tokens (capacity_for f c) ≡ true
  unfolding refill
  refill-le o c now none h = elim (Bool-cases (ltb now now)) [
    | inl l ↦ absurd (ground arith)
    | inr l ↦ rw l (o.le_refl (capacity_for f c))
  ]
  refill-le o c now (some b) h = elim (Bool-cases (ltb b.last now)) [
    | inl l ↦ rw l (o.min_le _ _)
    | inr l ↦ rw l (h b refl)
  ]

  -- A second refill at the same time changes nothing.
  refill-settled :
      (c : Config f) (now : ℕ) (o : Option (Bucket f)) → ltb (refill f c now o).last now ≡ false
  unfolding refill
  refill-settled c now none = ground arith
  refill-settled c now (some b) = ground arith

module _ (f : Float64) (backend : SpendBackend f.F) (month_of : ℕ → String) where
  abbrev pub State : Type 0
  State = Enforcer f backend month_of

  abbrev pub cfg_of : String → State → Config f
  cfg_of t e = effective f backend month_of t e

  abbrev pub cap_of : String → State → f.F
  cap_of t e = capacity_for f (cfg_of t e)

  -- No bucket holds more than the capacity that is in force for its tenant: so in a new enforcer,
  -- while a lower override takes effect on a bucket at its next refill only.
  abbrev pub Bounded : State → Type 0
  Bounded e =
      (t : String) (b : Bucket f) → lookup t e.buckets ≡ some b → f.le b.tokens (cap_of t e) ≡ true

  insert-Bounded :
      (t : String) (x : Bucket f) (e : State)
      → f.le x.tokens (cap_of t e) ≡ true
      → Bounded e
      → Bounded (record e { buckets = insert t x e.buckets })
  unfolding effective
  insert-Bounded t x e h v k b found = elim (Bool-cases (str_eq t k)) [
    | inl same ↦
        let hit : some x ≡ some b = cc (lookup-insert t k x e.buckets, same) in
        let eq : t ≡ k = (eq_iff t k).0 same in
        let val : x ≡ b = cc in
        subst (λ (z : Bucket f). f.le z.tokens (cap_of k e) ≡ true) val
          (subst (λ z. f.le x.tokens (cap_of z e) ≡ true) eq h)
    | inr other ↦ v k b (cc (lookup-insert t k x e.buckets, other))
  ]

  -- From a state in which every bucket is within the capacity in force for its tenant, a rate
  -- decision, whatever it is and whenever it falls, leads to such a state again.
  pub allow_request-Bounded :
      FloatOrder f
      → (t : String) (now : ℕ) (e : State) → Bounded e
      → Bounded (allow_request f backend month_of t now e).0
  unfolding allow_request
  allow_request-Bounded o t now e v =
      elim (Bool-cases (str_eq t "" || f.le (cfg_of t e).rate_per_sec f.f_zero)) [
        | inl free ↦ rw free v
        | inr limited ↦ elim (Bool-cases (f.le f.f_one b.tokens)) [
          | inl token ↦
              rw (limited, token)
                (insert-Bounded t (record b { tokens = f.sub b.tokens f.f_one }) e
                  (o.le_trans _ _ _ (o.sub_le b.tokens) full) v)
          | inr empty ↦ rw (limited, empty) (insert-Bounded t b e full v)
        ]
      ]
    where
      b : Bucket f
      b = refill f (cfg_of t e) now (lookup t e.buckets)

      full : f.le b.tokens (cap_of t e) ≡ true
      full = refill-le f o (cfg_of t e) now (lookup t e.buckets) (v t)

  -- `n` requests of one tenant at one instant, and how many of them are allowed.
  unfoldable pub requests : ℕ → String → ℕ → State → State × ℕ
  requests zero t now e = (e, 0)
  requests (suc n) t now e =
      let r = allow_request f backend month_of t now e in
      let rest = requests n t now r.0 in (rest.0, (if r.1 then 1 else 0) + rest.1)

  abbrev pub bucket_of : String → ℕ → State → Bucket f
  bucket_of t now e = refill f (cfg_of t e) now (lookup t e.buckets)

  settled_refill :
      (t : String) (now : ℕ) (e : State) (x : Bucket f)
      → ltb x.last now ≡ false
      → bucket_of t now (record e { buckets = insert t x e.buckets }) ≡ x
  unfolding refill effective
  settled_refill t now e x l = rw (lookup-insert, str_eq_refl t, l)

  allow_request_token :
      (t : String) (now : ℕ) (e : State)
      → str_eq t "" ≡ false
      → f.le (cfg_of t e).rate_per_sec f.f_zero ≡ false
      → f.le f.f_one (bucket_of t now e).tokens ≡ true
      → let b = bucket_of t now e in
        allow_request f backend month_of t now e ≡ (
          record e { buckets = insert t (record b { tokens = f.sub b.tokens f.f_one }) e.buckets },
          true,
          0,
        )
  unfolding allow_request
  allow_request_token t now e named rated token = rw (named, rated, token)

  allow_request_empty :
      (t : String) (now : ℕ) (e : State)
      → str_eq t "" ≡ false
      → f.le (cfg_of t e).rate_per_sec f.f_zero ≡ false
      → f.le f.f_one (bucket_of t now e).tokens ≡ false
      → let r = allow_request f backend month_of t now e in
        (r.0 ≡ record e { buckets = insert t (bucket_of t now e) e.buckets }) × (r.1 ≡ false)
  unfolding allow_request
  allow_request_empty t now e named rated empty =
      (rw (named, rated, empty), rw (named, rated, empty))

  -- At one instant a tenant with a rate, whose bucket refilled to that instant holds at most 2^53
  -- tokens, gets as many requests through as the bucket holds whole tokens, and no more.
  pub requests-grants :
      (w : FloatWhole f) (n : ℕ) (t : String) (now : ℕ) (e : State)
      → str_eq t "" ≡ false
      → f.le (cfg_of t e).rate_per_sec f.f_zero ≡ false
      → w.whole (bucket_of t now e).tokens ≤ 2 ^ 53
      → (requests n t now e).1 ≡ min n (w.whole (bucket_of t now e).tokens)
  unfolding requests effective
  requests-grants w zero t now e named rated small = omega arith
  requests-grants w (suc n) t now e named rated small =
      let b = bucket_of t now e in
      let still = refill-settled f (cfg_of t e) now (lookup t e.buckets) in
      elim (Bool-cases (f.le f.f_one b.tokens)) [
        | inl token ↦
            let spent : Bucket f = record b { tokens = f.sub b.tokens f.f_one } in
            let next : State = record e { buckets = insert t spent e.buckets } in
            let left =
              ap (λ (x : Bucket f). w.whole x.tokens) (settled_refill t now e spent still) in
            let taken = w.sub_one b.tokens small in
            rw (allow_request_token t now e named rated token) (
              omega (
                arith,
                requests-grants w n t now next named rated (omega (arith, left, taken, small)),
                left,
                taken,
                ltb→lt 0 (w.whole b.tokens) (sym (w.le_one b.tokens) ∙ token),
              ))
        | inr empty ↦
            let next : State = record e { buckets = insert t b e.buckets } in
            let (same, refused) = allow_request_empty t now e named rated empty in
            let left = ap (λ (x : Bucket f). w.whole x.tokens) (settled_refill t now e b still) in
            rw (refused, same)
              (omega (
                arith,
                requests-grants w n t now next named rated (omega (arith, left, small)),
                left,
                none_left (w.whole b.tokens) (sym (w.le_one b.tokens) ∙ empty),
              ))
      ]
