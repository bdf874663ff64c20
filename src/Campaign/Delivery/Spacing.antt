-- ===== src/Campaign/Delivery/Spacing.antt =====
-- The gap between two WhatsApp messages of a workspace, in
-- apps/api/src/modules/campaigns/sequence.scheduler.ts: no wait means that each send is far enough
-- back, where each has a time.
use klyvero.Common.{
  ℕ, ◌+◌, ◌≤◌, ◌≡◌, ◌⊎◌, inl, inr, true, List, [], ◌∷◌, Option, none, some, arith, ltb, ◌==◌,
  if◌then◌else◌, Bool-cases, All, All-map, is_some,
}
use klyvero.Campaign.Model.{Step, Enrollment, StepRun, Db}
use klyvero.Campaign.Delivery.{
  Config, latest_time, wait_after, is_whatsapp_send, last_sent, whatsapp_wait,
}

-- Where each send of the tenant has a time, the time that is found bounds them all.
abbrev Bounds : Option (Option ℕ) → ℕ → Type 0
Bounds none t = ⊥
Bounds (some none) t = ⊥
Bounds (some (some last)) t = t ≤ last

-- A row of the table of runs has a time, if it is a send.
abbrev pub IsTimed : List Step → List Enrollment → ℕ → StepRun → Type 0
IsTimed steps enrollments tenant r =
    is_whatsapp_send steps enrollments tenant r ≡ true → is_some r.finished_at ≡ true

module _ (steps : List Step) (enrollments : List Enrollment) (tenant : ℕ) where
  abbrev HasTime : Option (Option ℕ) → Type 0
  HasTime none = Unit {0}
  HasTime (some none) = ⊥
  HasTime (some (some t)) = Unit {0}

  last_sent-HasTime :
      (rs : List StepRun)
      → All (IsTimed steps enrollments tenant) rs
      → HasTime (last_sent steps enrollments tenant rs)
  last_sent-HasTime [] h = tt
  last_sent-HasTime (r ∷ rs) (k, h) =
      let rest = last_sent-HasTime rs h in
      elim (Bool-cases (is_whatsapp_send steps enrollments tenant r)) [
        | inl hit ↦ rw hit (join (last_sent steps enrollments tenant rs) r.finished_at rest (k hit))
        | inr miss ↦ rw miss rest
      ]
    where
      join :
          (o : Option (Option ℕ)) (t : Option ℕ)
          → HasTime o
          → is_some t ≡ true
          → HasTime (elim o [ none ↦ some t | some u ↦ some (latest_time t u) ])
      join none (some t) h k = tt
      join (some (some u)) (some t) h k = elim (Bool-cases (ltb t u)) [
        | inl j ↦ rw j tt
        | inr j ↦ rw j tt
      ]
      join (some none) t h k = absurd h
      join o none h k = cc

  Bounds-own :
      (o : Option (Option ℕ)) (t : Option ℕ) (u : ℕ)
      → HasTime o
      → t ≡ some u
      → Bounds (elim o [ none ↦ some t | some v ↦ some (latest_time t v) ]) u
  Bounds-own none (some t) u h e = ground arith
  Bounds-own (some (some v)) (some t) u h e = ground arith
  Bounds-own (some none) t u h e = absurd h
  Bounds-own o none u h e = cc

  Bounds-rest :
      (o : Option (Option ℕ)) (t : Option ℕ) (u : ℕ)
      → is_some t ≡ true
      → Bounds o u
      → Bounds (elim o [ none ↦ some t | some v ↦ some (latest_time t v) ]) u
  Bounds-rest none t u k h = absurd h
  Bounds-rest (some none) t u k h = absurd h
  Bounds-rest (some (some v)) (some t) u k h = ground arith
  Bounds-rest (some (some v)) none u k h = cc

  last_sent-Bounds :
      (rs : List StepRun)
      → All (IsTimed steps enrollments tenant) rs
      → All
          (λ r.
            is_whatsapp_send steps enrollments tenant r ≡ true
            → (t : ℕ) → r.finished_at ≡ some t
            → Bounds (last_sent steps enrollments tenant rs) t)
          rs
  last_sent-Bounds [] h = tt
  last_sent-Bounds (r ∷ rs) (k, h) =
      let rest = last_sent-Bounds rs h in
      let found = last_sent steps enrollments tenant rs in
      elim (Bool-cases (is_whatsapp_send steps enrollments tenant r)) [
        | inl hit ↦ (
          (λ _ t e. rw hit (Bounds-own found r.finished_at t (last_sent-HasTime rs h) e)),
          All-map _ _ rs (λ x b j t e. rw hit (Bounds-rest found r.finished_at t (k hit) (b j t e)))
              rest,
        )
        | inr miss ↦
            ((λ j. absurd (ground arith)), All-map _ _ rs (λ x b j t e. rw miss (b j t e)) rest)
      ]

pub spaced_of_no_wait :
    (db : Db) (cfg : Config) (tenant now : ℕ)
    → All (IsTimed db.steps db.enrollments tenant) db.runs
    → whatsapp_wait db cfg tenant now ≡ 0
    → All
        (λ r.
          is_whatsapp_send db.steps db.enrollments tenant r ≡ true
          → (t : ℕ) → r.finished_at ≡ some t
          → (cfg.whatsapp_gap_ms ≡ 0) ⊎ (t + cfg.whatsapp_gap_ms ≤ now))
        db.runs
unfolding whatsapp_wait
spaced_of_no_wait db cfg tenant now timed w =
    All-map _ _ db.runs
      (λ r h k t e. spaced (last_sent db.steps db.enrollments tenant db.runs) t w (h k t e))
      (last_sent-Bounds db.steps db.enrollments tenant db.runs timed)
  where
    spaced :
        (last : Option (Option ℕ)) (t : ℕ)
        → ◌≡◌ {A = ℕ} (if cfg.whatsapp_gap_ms == 0 then 0 else wait_after cfg now last) 0
        → Bounds last t
        → (cfg.whatsapp_gap_ms ≡ 0) ⊎ (t + cfg.whatsapp_gap_ms ≤ now)
    spaced none t w b = absurd b
    spaced (some none) t w b = absurd b
    spaced (some (some l)) t w b = elim (Bool-cases (cfg.whatsapp_gap_ms == 0)) [
      | inl z ↦ inl (ground arith)
      | inr z ↦ inr (ground arith)
    ]
