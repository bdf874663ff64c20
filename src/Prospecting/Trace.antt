-- ===== src/Prospecting/Trace.antt =====
-- Sequences of imports, searches and conversions, each of which ends before the next begins.
use klyvero.Common.{ℕ, ◌+◌, Bool, List, Option, Text}
use klyvero.Prospecting.{Row, Db}
use klyvero.Prospecting.Jobs.{import_prospects, provider_search}
use klyvero.Prospecting.Leads.{convert}
use klyvero.Prospecting.Convert.{unnoted}

pub data Step : Db → Db → Type 0 where
  importing :
      (lower : Text → Text) (refuses : Row → Bool) (month : Text) (t : ℕ) (rows : List Row)
      (icp : Option ℕ) (db : Db)
      → Step db (import_prospects lower refuses month t rows icp db).0
  searching :
      (lower : Text → Text) (refuses : Row → Bool) (month : Text) (configured : Bool) (t : ℕ)
      (answer : Option (List Row)) (icp : Option ℕ) (db : Db)
      → Step db (provider_search lower refuses month configured t answer icp db).0
  converting : (b : Bool) (t i : ℕ) (db : Db) → Step db (convert b t i db).0

pub data Reach (db : Db) : Db → Type 0 where
  here : Reach db db
  next : {d d' : Db} → Reach db d → Step d d' → Reach db d'

-- The conversions among the steps whose note of the lead fails.
abbrev pub lost_step : {db db' : Db} → Step db db' → ℕ
lost_step (importing lower refuses month t rows icp db) = 0
lost_step (searching lower refuses month configured t answer icp db) = 0
lost_step (converting b t i db) = unnoted b

unfoldable pub lost_notes : {db db' : Db} → Reach db db' → ℕ
lost_notes here = 0
lost_notes (next r s) = lost_notes r + lost_step s
