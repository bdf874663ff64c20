-- ===== src/Security/RateLimit/Window.antt =====
-- How many requests of one key the counters in memory let through.
use klyvero.Common.{
  ℕ, suc, ◌+◌, ◌-◌, ◌*◌, ◌≤◌, ◌<◌, ◌≡◌, ◌≢◌, sym, ap, ◌∙◌, inl, inr, false, ◌&&◌, le_of_leb, List,
  [], ◌∷◌, none, some, arith, leb, if◌then◌else◌, Bool-cases, length, All, All-map,
}
use klyvero.Security.Fallback.{Entry, get, get-set_self, get-set_other, length-set-le}
use klyvero.Security.RateLimit.{
  RateKey, rate_key_beq, rate_key_beq_iff, rate_key_eq, Counts, trim_counts, raise, increment,
}

trim_counts_small : (now : ℕ) (m : Counts) → length m < 20000 → trim_counts now m ≡ m
unfolding trim_counts
trim_counts_small now m h = ground arith

length-increment-le :
    (m : Counts) (now : ℕ) (key : RateKey) (ttl : ℕ)
    → length m < 20000
    → length (increment m none now key ttl).0 ≤ suc (length m)
unfolding increment
length-increment-le m now key ttl h = ground (
  arith,
  trim_counts_small now m h,
  length-set-le key (raise none now ttl) m,
  length-set-le key (raise (get key m) now ttl) m,
)

increment-other :
    (m : Counts) (now : ℕ) (key k : RateKey) (ttl : ℕ)
    → length m < 20000
    → key ≢ k
    → get k (increment m none now key ttl).0 ≡ get k m
unfolding increment
increment-other m now key k ttl h ne = ground (
  arith,
  trim_counts_small now m h,
  get-set_other k key (raise none now ttl) m ne,
  get-set_other k key (raise (get key m) now ttl) m ne,
)

increment-first :
    (m : Counts) (now : ℕ) (key : RateKey) (ttl : ℕ)
    → length m < 20000
    → get key m ≡ none
    → (get key (increment m none now key ttl).0 ≡ some (raise none now ttl))
      × ((increment m none now key ttl).1 ≡ 1)
unfolding increment
increment-first m now key ttl h g =
    ground (arith, trim_counts_small now m h, get-set_self key (raise none now ttl) m)

increment-next :
    (m : Counts) (now : ℕ) (key : RateKey) (ttl : ℕ) (v : Entry)
    → get key m ≡ some v
    → now < v.expires_at
    → (get key (increment m none now key ttl).0 ≡ some (record v { count = v.count + 1 }))
      × ((increment m none now key ttl).1 ≡ v.count + 1)
unfolding increment
increment-next m now key ttl v g l = ground (arith, get-set_self key (raise (get key m) now ttl) m)

differ : (a b : RateKey) → rate_key_beq a b ≡ false → a ≢ b
differ a b h e = ground (arith, (rate_key_beq_iff a b).1 e)

module _ (k : RateKey) (ttl max : ℕ) where
  -- The requests of `k` that are let through, among the requests of all keys in their order.
  unfoldable pub passes : Counts → List (RateKey × ℕ) → ℕ
  passes m [] = 0
  passes m ((key, now) ∷ rs) =
      let r = increment m none now key ttl in
      let rest = passes r.0 rs in if rate_key_beq key k && leb r.1 max then suc rest else rest

  passes-counted :
      (m : Counts) (rs : List (RateKey × ℕ)) (v : Entry)
      → get k m ≡ some v
      → All (λ r. r.1 < v.expires_at) rs
      → length m + length rs < 20000
      → passes m rs ≤ max - v.count
  unfolding passes
  passes-counted m [] v g b h = omega arith
  passes-counted m ((key, now) ∷ rs) v g (l, b) h = elim (Bool-cases (rate_key_beq key k)) [
    | inl e ↦
        let same = (rate_key_beq_iff key k).0 e in
        let after = (increment m none now key ttl).0 in
        let (held, count) = increment-next m now key ttl v (ap (λ x. get x m) same ∙ g) l in
        let rest =
          passes-counted after rs (record v { count = v.count + 1 })
            (ap (λ x. get x after) (sym same) ∙ held) b
            (omega (arith, length-increment-le m now key ttl (omega arith))) in
        elim (Bool-cases (leb (increment m none now key ttl).1 max)) [
          | inl f ↦ rw (passes, e, f) (omega (arith, rest, count, le_of_leb f))
          | inr f ↦ rw (passes, e, f) (omega (arith, rest))
        ]
    | inr e ↦
        let after = (increment m none now key ttl).0 in
        let rest =
          passes-counted after rs v
            (increment-other m now key k ttl (omega arith) (differ key k e) ∙ g) b
            (omega (arith, length-increment-le m now key ttl (omega arith))) in
        rw (passes, e) rest
  ]

  -- While Redis does not answer: among the requests that fall in one window, from its first one on
  -- and until its counter expires, at most `max` of a key are let through, however many come and
  -- whatever other keys do, as long as the memory holds fewer than 20000 counters.
  pub passes-le :
      (m : Counts) (from : ℕ) (rs : List (RateKey × ℕ))
      → get k m ≡ none
      → All (λ r. (from ≤ r.1) × (r.1 < from + ttl * 1000)) rs
      → length m + length rs < 20000
      → passes m rs ≤ max
  unfolding passes
  passes-le m from [] g b h = omega arith
  passes-le m from ((key, now) ∷ rs) g ((l, u), b) h = elim (Bool-cases (rate_key_beq key k)) [
    | inl e ↦
        let same = (rate_key_beq_iff key k).0 e in
        let after = (increment m none now key ttl).0 in
        let (held, count) =
          increment-first m now key ttl (omega arith) (ap (λ x. get x m) same ∙ g) in
        let rest =
          passes-counted after rs (raise none now ttl) (ap (λ x. get x after) (sym same) ∙ held)
            (All-map _ _ rs (λ r p. omega (arith, l, p.1)) b)
            (omega (arith, length-increment-le m now key ttl (omega arith))) in
        elim (Bool-cases (leb (increment m none now key ttl).1 max)) [
          | inl f ↦ rw (passes, e, f) (omega (arith, rest, count, le_of_leb f))
          | inr f ↦ rw (passes, e, f) (omega (arith, rest))
        ]
    | inr e ↦
        let after = (increment m none now key ttl).0 in
        rw (passes, e)
          (passes-le after from rs
            (increment-other m now key k ttl (omega arith) (differ key k e) ∙ g) b
            (omega (arith, length-increment-le m now key ttl (omega arith))))
  ]
