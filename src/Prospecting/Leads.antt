-- ===== src/Prospecting/Leads.antt =====
-- `convert` of apps/api/src/modules/prospecting/prospecting.service.ts.
use klyvero.Common.{
  ℕ, ◌+◌, ◌&&◌, ◌==◌, ◌∷◌, Bool, Option, none, some, find_first, update_many, Result, ok, err,
  Error, not_found, service_unavailable, if◌then◌else◌,
}
use klyvero.Prospecting.{converted, Prospect, Lead, Db}

abbrev pub new_lead : ℕ → ℕ → Prospect → Lead
new_lead id tenant_id p = record {
  id = id;
  tenant_id = tenant_id;
  person = p.person;
  email = p.email;
  phone = p.phone;
  score = p.score;
  source = p.source;
  prospect_id = p.id;
}

-- `prospect.update`, which notes the lead.
abbrev pub note_lead : ℕ → ℕ → Db → Db
note_lead id lead db = record db {
  prospects =
      update_many (λ q. q.id == id)
        (λ q. record q { status = converted; converted_lead = some lead }) db.prospects;
}

-- What the call throws where the database refuses the second write, or the third.
abbrev write_failed : Error
write_failed = service_unavailable "Database write failed"

-- The lead is created first; `is_noted` says whether the update of the prospect after it succeeds.
abbrev pub convert_found : Bool → ℕ → Option Prospect → Db → Db × Result ℕ
convert_found is_noted tenant_id none db = (db, err (not_found "Prospect not found"))
convert_found is_noted tenant_id (some p) db = elim p.converted_lead [
  | some lead ↦ (db, ok lead)
  | none ↦
      let created : Db = record db {
        leads = new_lead db.next_id tenant_id p ∷ db.leads;
        next_id = db.next_id + 1;
      } in
      if is_noted
      then (note_lead p.id db.next_id created, ok db.next_id)
      else (created, err write_failed)
]

-- `convert`, which answers the identifier of the lead.
unfoldable pub convert : Bool → ℕ → ℕ → Db → Db × Result ℕ
convert is_noted tenant_id id db =
    convert_found is_noted tenant_id
      (find_first (λ p. p.id == id && p.tenant_id == tenant_id) db.prospects) db
