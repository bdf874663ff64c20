-- ===== src/Prospecting/Upsert.antt =====
-- `upsertProspect` of apps/api/src/modules/prospecting/prospecting.service.ts and the loop over it.
use klyvero.Common.{
  ℕ, ◌+◌, Bool, true, false, ◌&&◌, ◌||◌, ◌==◌, List, [], ◌∷◌, Option, none, some, find_first,
  update_many, if◌then◌else◌, is_some, is_none, Text, units,
}
use klyvero.Prospecting.{
  ProspectStatus, converted, duplicate, Person, Row, Prospect, Db, is_converted,
}
use klyvero.Prospecting.Scoring.{normalize_email, normalize_phone, is_given, fits, score}

-- The condition of the search for a prospect that is there already; an empty `OR` finds nothing.
abbrev pub same_name : Person → Person → Bool
same_name row p =
    fits p.company_name row.company_name
    && fits p.first_name row.first_name
    && fits p.last_name row.last_name

abbrev pub matches : Option Text → Option Text → Person → Prospect → Bool
matches email phone person p =
    (is_some email && fits p.email email)
    || (is_some phone && fits p.phone phone)
    || (is_none email
        && is_none phone
        && is_given person.company_name
        && is_given person.first_name
        && same_name person p.person)

abbrev pub seen_again : Prospect → Prospect
seen_again p = record p { status = if is_converted p.status then converted else duplicate }

abbrev pub or_import : Option Text → Text
or_import none = units "import"
or_import (some s) = s

abbrev pub new_prospect : (Text → Text) → Db → ℕ → Row → Option ℕ → Option ℕ → Prospect
new_prospect lower db tenant_id row job_id icp_id = record {
  id = db.next_id;
  tenant_id = tenant_id;
  job_id = job_id;
  person = row.person;
  email = normalize_email lower row.email;
  phone = normalize_phone row.phone;
  score = score lower db tenant_id row icp_id;
  source = or_import row.source;
  status = ProspectStatus.new;
  converted_lead = none;
}

abbrev pub existing : (Text → Text) → Db → ℕ → Row → Option Prospect
existing lower db tenant_id row =
    find_first
      (λ p.
        p.tenant_id == tenant_id
        && matches (normalize_email lower row.email) (normalize_phone row.phone) row.person p)
      db.prospects

abbrev pub upsert_found : (Text → Text) → Db → ℕ → Row → Option ℕ → Option ℕ → Option Prospect → Db
upsert_found lower db tenant_id row job_id icp_id (some found) = record db {
  prospects = update_many (λ p. p.id == found.id) seen_again db.prospects;
}
upsert_found lower db tenant_id row job_id icp_id none = record db {
  prospects = new_prospect lower db tenant_id row job_id icp_id ∷ db.prospects;
  next_id = db.next_id + 1;
}

unfoldable pub upsert_prospect : (Text → Text) → Db → ℕ → Row → Option ℕ → Option ℕ → Db
upsert_prospect lower db tenant_id row job_id icp_id =
    upsert_found lower db tenant_id row job_id icp_id (existing lower db tenant_id row)

-- The loop over the rows, up to the first one whose write the database refuses.
unfoldable pub upsert_rows :
    (Text → Text) → (Row → Bool) → ℕ → Option ℕ → Option ℕ → List Row → Db → Db × Bool
upsert_rows lower refuses tenant_id job_id icp_id [] db = (db, true)
upsert_rows lower refuses tenant_id job_id icp_id (row ∷ rows) db =
    let rest =
      upsert_rows lower refuses tenant_id job_id icp_id rows
        (upsert_prospect lower db tenant_id row job_id icp_id) in
    if refuses row then (db, false) else rest
