-- ===== src/Usage/Quota.antt =====
-- The counters count what was accepted, and never pass the quota.
use klyvero.Common.{
  ℕ, ◌+◌, ◌≤◌, ◌≡◌, refl, sym, subst, ap, ◌∙◌, inl, inr, arith, true, false, ◌||◌, List, [], ◌∷◌,
  Option, some, Text, text_eq_refl, eq_of_text_eq, ltb, ◌==◌, ==_refl, ==_iff, Bool-cases,
  Result-cases, ok, err, >>=-eq-ok, ok-injective, throw_if, throw_if-eq-ok,
}
use klyvero.Usage.{
  Counter, Db, is_counter, value_in, upsert_counter, is_over, get_limit, assert_and_increment,
  subscription_of,
}

is_counter_refl :
    (tenant : ℕ) (key period : Text) (v : ℕ)
    → is_counter tenant key period
        record { tenant_id = tenant; key = key; period = period; value = v }
      ≡ true
is_counter_refl tenant key period v =
    rw (==_refl tenant, text_eq_refl key, text_eq_refl period) refl

value-upsert_self :
    (tenant : ℕ) (key period : Text) (amount : ℕ) (cs : List Counter)
    → value_in tenant key period (upsert_counter tenant key period amount cs)
      ≡ value_in tenant key period cs + amount
unfolding value_in upsert_counter
value-upsert_self tenant key period amount [] =
    rw (==_refl tenant, text_eq_refl key, text_eq_refl period) (omega arith)
value-upsert_self tenant key period amount (c ∷ cs) =
    ground (arith, value-upsert_self tenant key period amount cs)

-- The counters differ in tenant, key or period.
abbrev AreApart : ℕ → Text → Text → ℕ → Text → Text → Type 0
AreApart t k p t' k' p' =
    is_counter t' k' p' record { tenant_id = t; key = k; period = p; value = 0 } ≡ false

same_counter :
    (t : ℕ) (k p : Text) (c : Counter)
    → is_counter t k p c ≡ true
    → (c.tenant_id ≡ t) × (c.key ≡ k) × (c.period ≡ p)
same_counter t k p c h = (
  (==_iff _ _).0 (ground arith),
  eq_of_text_eq c.key k (ground arith),
  eq_of_text_eq c.period p (ground arith),
)

apart_row :
    (t : ℕ) (k p : Text) (t' : ℕ) (k' p' : Text) (c : Counter)
    → AreApart t k p t' k' p'
    → is_counter t k p c ≡ true
    → is_counter t' k' p' c ≡ false
apart_row t k p t' k' p' c a h = let (x, y, z) = same_counter t k p c h in rw (x, y, z) a

value-upsert_other :
    (t : ℕ) (k p : Text) (t' : ℕ) (k' p' : Text) (amount : ℕ) (cs : List Counter)
    → AreApart t k p t' k' p'
    → value_in t' k' p' (upsert_counter t k p amount cs) ≡ value_in t' k' p' cs
unfolding value_in upsert_counter
value-upsert_other t k p t' k' p' amount [] a = rw a refl
value-upsert_other t k p t' k' p' amount (c ∷ cs) a =
    ground (arith, value-upsert_other t k p t' k' p' amount cs a, apart_row t k p t' k' p' c a)

-- What an accepted call does: it adds the amount to its own counter, within the limit of an active
-- subscription, and to no other.
pub record IsAdded (tenant : ℕ) (key period : Text) (amount : ℕ) (before after : Db) : Type 0 where
  pub added :
      value_in tenant key period after.counters
      ≡ value_in tenant key period before.counters + amount
  pub others :
      (t : ℕ) (k p : Text)
      → AreApart tenant key period t k p
      → value_in t k p after.counters ≡ value_in t k p before.counters
  pub plan : after.subscriptions ≡ before.subscriptions
  pub within :
      (limit : Option ℕ) × (get_limit before tenant key ≡ ok limit)
      × (is_over limit (value_in tenant key period after.counters) ≡ false)

-- A call that is accepted adds its amount, at least one and at most 100000, to the counter of its
-- tenant, key and period, to no other counter, and only while the sum is within the plan's limit.
pub assert_and_increment-IsAdded :
    (db db' : Db) (tenant : ℕ) (key : Text) (amount : ℕ) (period : Text)
    → assert_and_increment db tenant key amount period ≡ ok db'
    → (1 ≤ amount) × (amount ≤ 100000) × IsAdded tenant key period amount db db'
unfolding assert_and_increment
assert_and_increment-IsAdded db db' tenant key amount period h =
    let (_, a, rest) = >>=-eq-ok (throw_if (amount == 0 || ltb 100000 amount) _) _ h in
    let (limit, b, rest') = >>=-eq-ok (get_limit db tenant key) _ rest in
    let (_, c, last) =
      >>=-eq-ok (throw_if (is_over limit (value_in tenant key period db.counters + amount)) _) _
        rest' in
    let fits =
      throw_if-eq-ok (is_over limit (value_in tenant key period db.counters + amount)) _ c in
    let size = throw_if-eq-ok (amount == 0 || ltb 100000 amount) _ a in
    (
      ground arith,
      ground arith,
      subst (λ d. IsAdded tenant key period amount db d) (ok-injective last)
          record {
            added = value-upsert_self tenant key period amount db.counters;
            others = λ t k p a. value-upsert_other tenant key period t k p amount db.counters a;
            plan = refl;
            within = (
              limit,
              b,
              subst (λ v. is_over limit v ≡ false)
                  (sym (value-upsert_self tenant key period amount db.counters)) fits,
            );
          },
    )

-- The calls of one month, each accepted or not.
pub record Request : Type 0 where
  pub tenant : ℕ
  pub key : Text
  pub amount : ℕ

unfoldable pub serve : Text → List Request → Db → Db
serve period [] db = db
serve period (r ∷ rs) db = elim (assert_and_increment db r.tenant r.key r.amount period) [
  | ok db' ↦ serve period rs db'
  | err e ↦ serve period rs db
]

-- The counter is within the limit that the plan sets.
abbrev IsWithin : ℕ → Text → Text → ℕ → Db → Type 0
IsWithin tenant key period limit db =
    (get_limit db tenant key ≡ ok (some limit)) × (value_in tenant key period db.counters ≤ limit)

get_limit-plan :
    (tenant : ℕ) (key : Text) (db db' : Db)
    → db'.subscriptions ≡ db.subscriptions
    → get_limit db' tenant key ≡ get_limit db tenant key
unfolding get_limit subscription_of
get_limit-plan tenant key db db' h =
    ap (λ ss. get_limit record { subscriptions = ss; counters = [] } tenant key) h

same-le :
    (tenant : ℕ) (key period : Text) (limit amount : ℕ) (db db' : Db)
    → IsAdded tenant key period amount db db'
    → get_limit db tenant key ≡ ok (some limit)
    → value_in tenant key period db'.counters ≤ limit
same-le tenant key period limit amount db db' a g =
    let (l, h, k) = a.within in
    let same : l ≡ some limit = ok-injective (sym h ∙ g) in
    let k' : is_over (some limit) (value_in tenant key period db'.counters) ≡ false =
      subst (λ x. is_over x (value_in tenant key period db'.counters) ≡ false) same k in
    ground arith

step-IsWithin :
    (tenant : ℕ) (key period : Text) (limit : ℕ) (t : ℕ) (k : Text) (amount : ℕ) (db db' : Db)
    → IsAdded t k period amount db db'
    → IsWithin tenant key period limit db
    → IsWithin tenant key period limit db'
step-IsWithin tenant key period limit t k amount db db' a (g, w) =
    let g' = get_limit-plan tenant key db db' a.plan ∙ g in
    elim (Bool-cases (
      is_counter tenant key period record { tenant_id = t; key = k; period = period; value = 0 })) [
        | inr e ↦ (g', omega (arith, a.others tenant key period e))
        | inl e ↦
            let (x, y, _) =
              same_counter tenant key period
                record { tenant_id = t; key = k; period = period; value = 0 } e in
            let own : IsAdded tenant key period amount db db' = rw (← x, ← y) a in
            (g', same-le tenant key period limit amount db db' own g)
      ]

serve-keeps :
    (tenant : ℕ) (key period : Text) (limit : ℕ) (rs : List Request) (db : Db)
    → IsWithin tenant key period limit db
    → IsWithin tenant key period limit (serve period rs db)
unfolding serve
serve-keeps tenant key period limit [] db h = h
serve-keeps tenant key period limit (r ∷ rs) db h =
    elim (Result-cases (assert_and_increment db r.tenant r.key r.amount period)) [
      | inr (x, e) ↦ rw (serve, e) (serve-keeps tenant key period limit rs db h)
      | inl (db', e) ↦
          let (_, _, a) = assert_and_increment-IsAdded db db' r.tenant r.key r.amount period e in
          rw (serve, e)
            (serve-keeps tenant key period limit rs db'
              (step-IsWithin tenant key period limit r.tenant r.key r.amount db db' a h))
    ]

-- Whatever calls are made in a month, in whatever order and by whatever tenants, a counter that
-- starts within the limit of its plan stays within it.
pub serve-IsWithin :
    (tenant : ℕ) (key period : Text) (limit : ℕ) (rs : List Request) (db : Db)
    → get_limit db tenant key ≡ ok (some limit)
    → value_in tenant key period db.counters ≤ limit
    → value_in tenant key period (serve period rs db).counters ≤ limit
serve-IsWithin tenant key period limit rs db g w =
    (serve-keeps tenant key period limit rs db (g, w)).1
