-- ===== src/Prospecting/Examples.antt =====
-- An import of two rows of one person, and a conversion.
use klyvero.Common.{Bool, true, false, List, [], ◌∷◌, none, some, Text, units}
use klyvero.Prospecting.{Person, Row, Db}
use klyvero.Prospecting.Jobs.{import_prospects}
use klyvero.Prospecting.Leads.{convert}
use klyvero.Prospecting.Trace.{Reach, here, next, importing, converting}

abbrev nobody : Person
nobody = record {
  first_name = none;
  last_name = none;
  company_name = none;
  job_title = none;
  website = none;
  linkedin_url = none;
  industry = none;
  city = none;
  state = none;
  country = none;
}

abbrev row : Text → Row
row email = record {
  person = nobody;
  email = some email;
  phone = none;
  score = some 70;
  source = none;
}

abbrev rows : List Row
rows = row (units " a@b.c") ∷ row (units "a@b.c") ∷ []

abbrev empty : Db
empty = record {
  prospects = [];
  icps = [];
  jobs = [];
  leads = [];
  usage = record { subscriptions = []; counters = [] };
  next_id = 1;
}

abbrev same_text : Text → Text
same_text s = s

abbrev never : Row → Bool
never r = false

abbrev imported : Db
imported = (import_prospects same_text never (units "2024-01") 5 rows none empty).0

-- The first conversion does not note its lead, so that the prospect is converted again.
abbrev half_converted : Db
half_converted = (convert false 5 2 imported).0

abbrev run : Reach empty (convert true 5 2 half_converted).0
run =
    next
      (next (next here (importing same_text never (units "2024-01") 5 rows none empty))
        (converting false 5 2 imported))
      (converting true 5 2 half_converted)
