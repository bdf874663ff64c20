-- ===== src/Campaign/Pass.antt =====
-- apps/api/src/modules/campaigns/sequence.scheduler.ts: one pass of the scheduler. `clock` and
-- `gateway` give the time and the services at the n-th step of the pass.
pub mod Bound
use klyvero.Common.{
  ℕ, zero, suc, ◌+◌, ◌-◌, Option, none, some, Bool, List, [], ◌∷◌, ltb, if◌then◌else◌, min,
}
use klyvero.Campaign.Model.{Db}
use klyvero.Campaign.Delivery.{Config, Gateway}
use klyvero.Campaign.Scheduler.{recover_stuck, claim}
use klyvero.Campaign.Execute.{execute}

-- `if (!ids.length) break;`
abbrev pub break_if_empty : List ℕ → Option (Db × ℕ) → Option (Db × ℕ) → Option (Db × ℕ)
break_if_empty [] stop rest = stop
break_if_empty (id ∷ ids) stop rest = rest

module _ (cfg : Config) (clock : ℕ → ℕ) (gateway : ℕ → Gateway) where
  -- `for (const id of ids) { await this.execute(id); processed += 1; }`
  unfoldable pub execute_all : Db → ℕ → List ℕ → Db × ℕ
  execute_all db processed [] = (db, processed)
  execute_all db processed (id ∷ ids) =
      execute_all (execute db cfg (gateway processed) (clock processed) id) (suc processed) ids

  -- The loop of `runDue`, on fuel; `none` means that the fuel ran out.
  unfoldable pub run_due_from : ℕ → ℕ → Db → ℕ → Option (Db × ℕ)
  unfolding execute_all claim
  run_due_from zero max db processed = none
  run_due_from (suc fuel) max db processed =
      if ltb processed max
      then (let (db', ids) = claim db (clock processed) (min 10 (max - processed)) in
          let (db'', processed') = execute_all db' processed ids in
          let rest = run_due_from fuel max db'' processed' in
          break_if_empty ids (some (db', processed)) rest)
      else some (db, processed)

  -- `runDue`: each round but the last claims a step, so `max + 1` rounds are enough.
  unfoldable pub run_due : Db → ℕ → Option (Db × ℕ)
  unfolding run_due_from
  run_due db max = run_due_from (suc max) max db 0

  -- `tick`: the flag `running` keeps a pass from overlapping itself.
  unfoldable pub tick : Bool → Db → Option (Db × ℕ)
  unfolding run_due recover_stuck
  tick overlapping db =
      if overlapping then some (db, 0) else run_due (recover_stuck db (clock 0)) cfg.max_per_tick
