-- ===== src/Crm.antt =====
-- apps/api/src/modules/crm/crm.service.ts: deals on the stages of a pipeline.
pub mod Pipelines
pub mod Coherence
mod Examples
use klyvero.Common.{
  ℕ, ◌+◌, Bool, false, not, ◌&&◌, List, ◌∷◌, Option, none, some, ◌==◌, is_none, any, Result, ok,
  ◌>>=◌, ◌>>◌, throw_if, or_throw, bad_request, find_first, update_many, Text,
}

pub record Pipeline : Type 0 where
  pub id : ℕ
  pub tenant_id : ℕ
  pub name : Text
  pub is_default : Bool
  pub created_at : ℕ

pub record Stage : Type 0 where
  pub id : ℕ
  pub pipeline_id : ℕ
  pub name : Text
  pub position : ℕ
  pub probability : ℕ

pub record Company : Type 0 where
  pub id : ℕ
  pub tenant_id : ℕ

pub record Contact : Type 0 where
  pub id : ℕ
  pub tenant_id : ℕ
  pub company_id : Option ℕ

pub record Owner : Type 0 where
  pub id : ℕ
  pub tenant_id : ℕ
  pub active : Bool

pub data DealStatus : Type 0 where
  open_deal won lost : DealStatus

pub record Deal : Type 0 where
  pub id : ℕ
  pub tenant_id : ℕ
  pub pipeline_id : ℕ
  pub stage_id : ℕ
  pub company_id : Option ℕ
  pub contact_id : Option ℕ
  pub owner_id : Option ℕ
  pub value : ℕ
  pub status : DealStatus
  pub closed_at : Option ℕ

pub record Db : Type 0 where
  pub pipelines : List Pipeline
  pub stages : List Stage
  pub companies : List Company
  pub contacts : List Contact
  pub owners : List Owner
  pub deals : List Deal
  pub next_id : ℕ

pub record DealDto : Type 0 where
  pub pipeline_id : ℕ
  pub stage_id : ℕ
  pub company_id : Option ℕ
  pub contact_id : Option ℕ
  pub owner_id : Option ℕ
  pub value : Option ℕ

-- `pipeline: { tenantId, id }` of a stage.
abbrev pub is_pipeline : ℕ → ℕ → Pipeline → Bool
is_pipeline tenant id p = p.id == id && p.tenant_id == tenant

abbrev pub is_stage_of : List Pipeline → ℕ → ℕ → Stage → Bool
is_stage_of ps tenant id s = s.id == id && any (is_pipeline tenant s.pipeline_id) ps

abbrev pub is_company : ℕ → ℕ → Company → Bool
is_company tenant id c = c.id == id && c.tenant_id == tenant

abbrev pub is_contact : ℕ → ℕ → Contact → Bool
is_contact tenant id c = c.id == id && c.tenant_id == tenant

abbrev pub is_owner_of : ℕ → ℕ → Owner → Bool
is_owner_of tenant id u = u.id == id && u.tenant_id == tenant && u.active

-- An identifier that is given must be found.
abbrev pub is_missing {ℓ} : {A : Type ℓ} → Option ℕ → (ℕ → Option A) → Bool
is_missing none find = false
is_missing (some id) find = is_none (find id)

-- `dto.companyId && contact?.companyId && contact.companyId !== dto.companyId`
abbrev is_elsewhere : Option ℕ → Option Contact → Bool
is_elsewhere none contact = false
is_elsewhere (some c) none = false
is_elsewhere (some c) (some k) = elim k.company_id [ none ↦ false | some d ↦ not (d == c) ]

abbrev contact_of : Db → ℕ → Option ℕ → Option Contact
contact_of db tenant none = none
contact_of db tenant (some id) = find_first (is_contact tenant id) db.contacts

abbrev or_zero : Option ℕ → ℕ
or_zero none = 0
or_zero (some n) = n

abbrev pub new_deal : ℕ → ℕ → DealDto → Deal
new_deal tenant id dto = record {
  id = id;
  tenant_id = tenant;
  pipeline_id = dto.pipeline_id;
  stage_id = dto.stage_id;
  company_id = dto.company_id;
  contact_id = dto.contact_id;
  owner_id = dto.owner_id;
  value = or_zero dto.value;
  status = open_deal;
  closed_at = none;
}

-- The checks on the company, the contact and the owner.
unfoldable pub check_parties : Db → ℕ → DealDto → Result (Unit {0})
unfolding find_first
check_parties db tenant dto =
    throw_if (is_missing dto.company_id (λ id. find_first (is_company tenant id) db.companies))
      (bad_request "Company does not belong to this tenant")
    >> (throw_if (is_missing dto.contact_id (λ id. find_first (is_contact tenant id) db.contacts))
          (bad_request "Contact does not belong to this tenant")
        >> (throw_if (is_missing dto.owner_id (λ id. find_first (is_owner_of tenant id) db.owners))
              (bad_request "Owner does not belong to this tenant")
            >> throw_if (is_elsewhere dto.company_id (contact_of db tenant dto.contact_id))
                (bad_request "Contact is not associated with the selected company")))

unfoldable pub create_deal : Db → ℕ → DealDto → Result Db
unfolding find_first check_parties
create_deal db tenant dto =
    or_throw
      (find_first
        (λ s. is_stage_of db.pipelines tenant dto.stage_id s && s.pipeline_id == dto.pipeline_id)
        db.stages)
      (bad_request "Invalid pipeline stage")
    >>= λ s.
        check_parties db tenant dto
        >> ok (record db {
          deals = new_deal tenant db.next_id dto ∷ db.deals;
          next_id = db.next_id + 1;
        })

abbrev pub is_deal : ℕ → ℕ → Deal → Bool
is_deal tenant id d = d.id == id && d.tenant_id == tenant

unfoldable pub move : Db → ℕ → ℕ → ℕ → Result Db
unfolding find_first update_many
move db tenant id stage_id =
    or_throw (find_first (is_deal tenant id) db.deals) (bad_request "Deal not found in tenant")
    >>= λ d.
        or_throw (find_first (is_stage_of db.pipelines tenant stage_id) db.stages)
          (bad_request "Invalid pipeline stage")
        >>= λ s. ok (record db {
          deals =
              update_many (is_deal tenant id)
                (λ d. record d { stage_id = stage_id; pipeline_id = s.pipeline_id }) db.deals;
        })

-- The deals of another tenant are not touched: `updateMany` on the tenant's own.
unfoldable pub close : Db → ℕ → ℕ → ℕ → DealStatus → Db
unfolding update_many
close db tenant id now status = record db {
  deals =
      update_many (is_deal tenant id) (λ d. record d { status = status; closed_at = some now })
        db.deals;
}
