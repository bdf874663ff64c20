-- ===== src/Prospecting/Jobs.antt =====
-- `import` and `providerSearch` of apps/api/src/modules/prospecting/prospecting.service.ts.
use klyvero.Common.{
  ℕ, ◌+◌, Bool, true, false, not, ◌==◌, List, [], ◌∷◌, Option, none, some, length, take,
  update_many, is_none, Text, units, Result, ok, err, Error, ◌>>◌, throw_if, not_found, bad_request,
  service_unavailable,
}
use klyvero.Usage as Usage
use klyvero.Prospecting.{
  JobStatus, running, completed, failed, Provider, import_rows, http, Row, Db,
}
use klyvero.Prospecting.Scoring.{icp_of}
use klyvero.Prospecting.Upsert.{upsert_rows}

abbrev pub end_job : ℕ → JobStatus → ℕ → Db → Db
end_job id status count db = record db {
  jobs =
      update_many (λ j. j.id == id) (λ j. record j { status = status; result_count = count })
        db.jobs;
}

abbrev pub open_job : ℕ → Option ℕ → Provider → Db → Db
open_job tenant_id icp_id provider db = record db {
  jobs =
      record {
        id = db.next_id;
        tenant_id = tenant_id;
        icp_id = icp_id;
        provider = provider;
        status = running;
        result_count = 0;
      }
      ∷ db.jobs;
  next_id = db.next_id + 1;
}

-- What a call that creates a job answers: the number of rows, or the error that it throws.
pub data Outcome : Type 0 where
  processed : ℕ → Outcome
  -- the error of the database is thrown again
  broken : Outcome
  thrown : Error → Outcome

-- A failed update leaves the count of the job as it was.
abbrev pub fail_job : ℕ → Db → Db
fail_job id db = record db {
  jobs = update_many (λ j. j.id == id) (λ j. record j { status = failed }) db.jobs;
}

abbrev pub finish : ℕ → ℕ → Outcome → Db × Bool → Db × Outcome
finish id count failure (db, true) = (end_job id completed count db, processed count)
finish id count failure (db, false) = (fail_job id db, failure)

-- The checks before the job is created.
abbrev pub check_icp : Db → ℕ → Option ℕ → Result (Unit {0})
check_icp db tenant_id none = ok tt
check_icp db tenant_id (some id) =
    throw_if (is_none (icp_of db tenant_id (some id))) (not_found "ICP profile not found")

abbrev pub is_empty : List Row → Bool
is_empty [] = true
is_empty (r ∷ rs) = false

abbrev pub import_checked :
    (Text → Text) → (Row → Bool) → ℕ → List Row → Option ℕ → Db → Result Usage.Db → Db × Outcome
import_checked lower refuses tenant_id rows icp_id db (err e) = (db, thrown e)
import_checked lower refuses tenant_id rows icp_id db (ok usage) =
    let opened = open_job tenant_id icp_id import_rows (record db { usage = usage }) in
    finish db.next_id (length rows) broken
      (upsert_rows lower refuses tenant_id (some db.next_id) icp_id rows opened)

-- `import`
unfoldable pub import_prospects :
    (Text → Text) → (Row → Bool) → Text → ℕ → List Row → Option ℕ → Db → Db × Outcome
import_prospects lower refuses month tenant_id rows icp_id db =
    import_checked lower refuses tenant_id rows icp_id db (
      throw_if (is_empty rows) (bad_request "No prospect rows supplied")
      >> (check_icp db tenant_id icp_id
          >> Usage.assert_and_increment db.usage tenant_id (units "prospects") (length rows) month))

abbrev pub provider_failed : Outcome
provider_failed = thrown (service_unavailable "Prospecting provider failed")

abbrev pub search_counted :
    (Text → Text) → (Row → Bool) → ℕ → List Row → Option ℕ → ℕ → Db → Result Usage.Db → Db × Outcome
search_counted lower refuses tenant_id rows icp_id job db (err e) =
    (fail_job job db, provider_failed)
search_counted lower refuses tenant_id rows icp_id job db (ok usage) =
    finish job (length rows) provider_failed
      (upsert_rows lower refuses tenant_id (some job) icp_id rows (record db { usage = usage }))

-- What follows the answer of the provider; `none` is no answer, or one that is no list.
abbrev pub search_answered :
    (Text → Text) → (Row → Bool) → Text → ℕ → Option (List Row) → Option ℕ → ℕ → Db → Db × Outcome
search_answered lower refuses month tenant_id none icp_id job db =
    (fail_job job db, provider_failed)
search_answered lower refuses month tenant_id (some rows) icp_id job db =
    let accepted = take 5000 rows in
    search_counted lower refuses tenant_id accepted icp_id job db
      (Usage.assert_and_increment db.usage tenant_id (units "prospects") (length accepted) month)

abbrev pub search_checked :
    (Text → Text)
    → (Row → Bool)
    → Text
    → ℕ
    → Option (List Row)
    → Option ℕ
    → Db
    → Result (Unit {0})
    → Db × Outcome
search_checked lower refuses month tenant_id answer icp_id db (err e) = (db, thrown e)
search_checked lower refuses month tenant_id answer icp_id db (ok u) =
    search_answered lower refuses month tenant_id answer icp_id db.next_id
      (open_job tenant_id icp_id http db)

-- `providerSearch`
unfoldable pub provider_search :
    (Text → Text)
    → (Row → Bool)
    → Text
    → Bool
    → ℕ
    → Option (List Row)
    → Option ℕ
    → Db
    → Db × Outcome
provider_search lower refuses month is_configured tenant_id answer icp_id db =
    search_checked lower refuses month tenant_id answer icp_id db (
      throw_if (not is_configured) (service_unavailable "Prospecting provider is not configured")
      >> check_icp db tenant_id icp_id)
