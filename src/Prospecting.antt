-- ===== src/Prospecting.antt =====
-- apps/api/src/modules/prospecting/prospecting.service.ts: prospects, their import with its jobs, and
-- their conversion to leads. `lower` is `toLowerCase`; what the provider answers, and whether the
-- database refuses a write, are arguments. The column `raw` and the query of a job are left out.
pub mod Scoring
pub mod Upsert
pub mod Jobs
pub mod Leads
pub mod Import
pub mod Convert
pub mod Trace
pub mod Settled
pub mod Represented
mod Examples
use klyvero.Common.{ℕ, Bool, true, false, List, [], ◌∷◌, Option, none, some, Text}
use klyvero.Usage as Usage

pub data ProspectStatus : Type 0 where
  new reviewed converted rejected duplicate : ProspectStatus

pub data JobStatus : Type 0 where
  queued running completed failed canceled : JobStatus

pub data Provider : Type 0 where
  import_rows http : Provider

-- What a row and a prospect say of a person.
pub record Person : Type 0 where
  pub first_name : Option Text
  pub last_name : Option Text
  pub company_name : Option Text
  pub job_title : Option Text
  pub website : Option Text
  pub linkedin_url : Option Text
  pub industry : Option Text
  pub city : Option Text
  pub state : Option Text
  pub country : Option Text

pub record Row : Type 0 where
  pub person : Person
  pub email : Option Text
  pub phone : Option Text
  pub score : Option ℕ
  pub source : Option Text

pub record Prospect : Type 0 where
  pub id : ℕ
  pub tenant_id : ℕ
  pub job_id : Option ℕ
  pub person : Person
  pub email : Option Text
  pub phone : Option Text
  pub score : ℕ
  pub source : Text
  pub status : ProspectStatus
  pub converted_lead : Option ℕ

pub record Icp : Type 0 where
  pub id : ℕ
  pub tenant_id : ℕ
  pub industries : List Text
  pub countries : List Text
  pub states : List Text
  pub cities : List Text
  pub job_titles : List Text

pub record Job : Type 0 where
  pub id : ℕ
  pub tenant_id : ℕ
  pub icp_id : Option ℕ
  pub provider : Provider
  pub status : JobStatus
  pub result_count : ℕ

pub record Lead : Type 0 where
  pub id : ℕ
  pub tenant_id : ℕ
  pub person : Person
  pub email : Option Text
  pub phone : Option Text
  pub score : ℕ
  pub source : Text
  pub prospect_id : ℕ

pub record Db : Type 0 where
  pub prospects : List Prospect
  pub icps : List Icp
  pub jobs : List Job
  pub leads : List Lead
  pub usage : Usage.Db
  pub next_id : ℕ

abbrev pub or_undefined : Text → Option Text
or_undefined [] = none
or_undefined (c ∷ s) = some (c ∷ s)

abbrev pub is_converted : ProspectStatus → Bool
is_converted converted = true
is_converted _ = false
