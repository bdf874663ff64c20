-- ===== src/Crm/Examples.antt =====
-- A deal that moves to the next stage.
use klyvero.Common.{ℕ, refl, [], ◌∷◌, none, true, units, find_first, update_many}
use klyvero.Crm.{Deal, open_deal, won, Db, move, close}
use klyvero.Crm.Pipelines.{new_stage}
use klyvero.Crm.Coherence.{Event, Reach, IsCoherent, Reach-IsCoherent}

abbrev deal_on : ℕ → Deal
deal_on stage = record {
  id = 9;
  tenant_id = 1;
  pipeline_id = 2;
  stage_id = stage;
  company_id = none;
  contact_id = none;
  owner_id = none;
  value = 0;
  status = open_deal;
  closed_at = none;
}

abbrev with_deal : ℕ → Db
with_deal stage = record {
  pipelines =
      record { id = 2; tenant_id = 1; name = units "P"; is_default = true; created_at = 1 } ∷ [];
  stages = new_stage 3 2 (units "A") 1 10 ∷ new_stage 4 2 (units "B") 2 20 ∷ [];
  companies = [];
  contacts = [];
  owners = [];
  deals = deal_on stage ∷ [];
  next_id = 10;
}

moved_and_won : Reach (with_deal 3) (close (with_deal 4) 1 9 500 won)
unfolding move find_first update_many
moved_and_won =
    Reach.next (Reach.next Reach.here (Event.moves (with_deal 3) (with_deal 4) 1 9 4 refl))
      (Event.closes (with_deal 4) 1 9 500 won)

Reach-IsCoherent_example : IsCoherent (close (with_deal 4) 1 9 500 won)
Reach-IsCoherent_example =
    Reach-IsCoherent (with_deal 3) (close (with_deal 4) 1 9 500 won) moved_and_won (refl, tt)
