-- ===== src/Campaign/Pass/Bound.antt =====
-- A pass of the scheduler ends, within its ceiling.
use klyvero.Common.{
  ℕ, zero, suc, ◌+◌, ◌-◌, ◌≤◌, ◌<◌, ◌≡◌, refl, inl, inr, List, [], ◌∷◌, Option, none, some, arith,
  ltb, Bool-cases, length, min,
}
use klyvero.Campaign.Model.{Db}
use klyvero.Campaign.Delivery.{Config, Gateway}
use klyvero.Campaign.Scheduler.{claim}
use klyvero.Campaign.Scheduler.Claiming.{claim-IsOldestDue}
use klyvero.Campaign.Execute.{execute}
use klyvero.Campaign.Pass.{break_if_empty, execute_all, run_due_from, run_due}

module _ (cfg : Config) (clock : ℕ → ℕ) (gateway : ℕ → Gateway) where
  execute_all-count :
      (db : Db) (n : ℕ) (ids : List ℕ) → (execute_all cfg clock gateway db n ids).1 ≡ n + length ids
  unfolding execute_all
  execute_all-count db n [] = omega arith
  execute_all-count db n (id ∷ ids) =
      omega (arith, execute_all-count (execute db cfg (gateway n) (clock n) id) (suc n) ids)

  abbrev Ends : ℕ → Option (Db × ℕ) → Type 0
  Ends max none = ⊥
  Ends max (some r) = r.1 ≤ max

  break_if_empty-Ends :
      (max : ℕ) (ids : List ℕ) (a b : Option (Db × ℕ))
      → Ends max a
      → (0 < length ids → Ends max b)
      → Ends max (break_if_empty ids a b)
  break_if_empty-Ends max [] a b h k = h
  break_if_empty-Ends max (id ∷ ids) a b h k = k (omega arith)

  run_due_from-Ends :
      (fuel max : ℕ) (db : Db) (n : ℕ)
      → max - n < fuel
      → n ≤ max
      → Ends max (run_due_from cfg clock gateway fuel max db n)
  unfolding run_due_from
  run_due_from-Ends zero max db n f h = absurd (omega arith)
  run_due_from-Ends (suc fuel) max db n f h = elim (Bool-cases (ltb n max)) [
    | inr stop ↦ rw stop h
    | inl go ↦
        let limit = min 10 (max - n) in
        let round = claim db (clock n) limit in
        let ran = execute_all cfg clock gateway round.0 n round.1 in
        let count = execute_all-count round.0 n round.1 in
        let few = (claim-IsOldestDue db (clock n) limit).bounded in
        let more : n < max = ground arith in
        rw go (
          break_if_empty-Ends max round.1 (some (round.0, n))
            (run_due_from cfg clock gateway fuel max ran.0 ran.1) h
            (λ some_ids. run_due_from-Ends fuel max ran.0 ran.1 (omega arith) (omega arith)))
  ]

  Ends-some :
      (max : ℕ) (r : Option (Db × ℕ)) → Ends max r → (p : Db × ℕ) × (r ≡ some p) × (p.1 ≤ max)
  Ends-some max none h = absurd h
  Ends-some max (some p) h = (p, refl, h)

  -- A pass always ends, and processes at most as many steps as it may.
  pub run_due-total :
      (db : Db) (max : ℕ) → (p : Db × ℕ) × (run_due cfg clock gateway db max ≡ some p) × (p.1 ≤ max)
  unfolding run_due
  run_due-total db max =
      Ends-some max _ (run_due_from-Ends (suc max) max db 0 (omega arith) (omega arith))
