-- ===== src/Crm/Pipelines.antt =====
-- `pipelines` of apps/api/src/modules/crm/crm.service.ts, which creates the first pipeline of a
-- workspace. The deals that the answer lists under each stage are left out.
use klyvero.Common.{ℕ, ◌+◌, ◌==◌, true, List, [], ◌∷◌, ◌++◌, map, select, order_by, Text, units}
use klyvero.Crm.{Pipeline, Stage, Db}

-- The pipelines of a workspace, the oldest first, each with its stages by position.
unfoldable pub listing : Db → ℕ → List (Pipeline × List Stage)
unfolding select order_by
listing db tenant =
    map (λ p. (p, order_by (λ s. s.position) (select (λ s. s.pipeline_id == p.id) db.stages)))
      (order_by (λ p. p.created_at) (select (λ p. p.tenant_id == tenant) db.pipelines))

abbrev pub new_stage : ℕ → ℕ → Text → ℕ → ℕ → Stage
new_stage id pipeline name position probability = record {
  id = id;
  pipeline_id = pipeline;
  name = name;
  position = position;
  probability = probability;
}

abbrev pub default_stages : ℕ → List Stage
default_stages p =
    new_stage (p + 1) p (units "Novo") 1 10
    ∷ new_stage (p + 2) p (units "Contato") 2 25
    ∷ new_stage (p + 3) p (units "Qualificado") 3 50
    ∷ new_stage (p + 4) p (units "Proposta") 4 75
    ∷ new_stage (p + 5) p (units "Ganho") 5 100
    ∷ []

unfoldable pub add_default : ℕ → ℕ → Db → Db
add_default now tenant db = record db {
  pipelines =
      record {
        id = db.next_id;
        tenant_id = tenant;
        name = units "Pipeline principal";
        is_default = true;
        created_at = now;
      }
      ∷ db.pipelines;
  stages = default_stages db.next_id ++ db.stages;
  next_id = db.next_id + 6;
}

abbrev pub ensured : ℕ → ℕ → Db → List (Pipeline × List Stage) → Db × List (Pipeline × List Stage)
ensured now tenant db [] = (add_default now tenant db, listing (add_default now tenant db) tenant)
ensured now tenant db (row ∷ rows) = (db, row ∷ rows)

-- `pipelines`
unfoldable pub pipelines : ℕ → Db → ℕ → Db × List (Pipeline × List Stage)
unfolding listing add_default
pipelines now db tenant = ensured now tenant db (listing db tenant)
