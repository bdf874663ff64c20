-- ===== src/Prospecting/Scoring.antt =====
-- `normalizeEmail`, `normalizePhone` and `score` of
-- apps/api/src/modules/prospecting/prospecting.service.ts.
use klyvero.Common.{
  ℕ, ◌+◌, min, Bool, true, false, ◌&&◌, ◌==◌, List, [], ◌∷◌, Option, none, some, any, find_first,
  if◌then◌else◌, Text, text_eq, trim, digits_only,
}
use klyvero.Text.Phone.{starts_with}
use klyvero.Prospecting.{Person, Row, Icp, Db, or_undefined}

-- `normalizeEmail` and `normalizePhone`
abbrev pub normalize_email : (Text → Text) → Option Text → Option Text
normalize_email lower none = none
normalize_email lower (some s) = or_undefined (lower (trim s))

abbrev pub normalize_phone : Option Text → Option Text
normalize_phone none = none
normalize_phone (some s) = or_undefined (digits_only s)

-- A text that is there and not empty.
abbrev pub is_given : Option Text → Bool
is_given none = false
is_given (some []) = false
is_given (some (c ∷ s)) = true

-- A column that equals the value of a filter; the filter `undefined` is no filter.
abbrev pub equals : Option Text → Text → Bool
equals none s = false
equals (some x) s = text_eq x s

abbrev pub fits : Option Text → Option Text → Bool
fits column none = true
fits column (some s) = equals column s

-- `row.field && icp.list.some((v) => v.toLowerCase() === row.field.toLowerCase())`
abbrev pub listed : (Text → Text) → List Text → Option Text → Bool
listed lower xs none = false
listed lower xs (some s) = is_given (some s) && any (λ v. text_eq (lower v) (lower s)) xs

-- `text.includes(part)`
unfoldable pub includes : Text → Text → Bool
includes part [] = starts_with part []
includes part (c ∷ s) =
    let rest = includes part s in if starts_with part (c ∷ s) then true else rest

abbrev pub titled : (Text → Text) → List Text → Option Text → Bool
titled lower xs none = false
titled lower xs (some s) = is_given (some s) && any (λ v. includes (lower v) (lower s)) xs

abbrev pub points : Bool → ℕ → ℕ
points b n = if b then n else 0

unfoldable pub score_by : (Text → Text) → Person → Icp → ℕ
unfolding text_eq includes
score_by lower p icp = min 100 (
    30
    + points (listed lower icp.industries p.industry) 20
    + points (listed lower icp.countries p.country) 10
    + points (listed lower icp.states p.state) 10
    + points (listed lower icp.cities p.city) 10
    + points (titled lower icp.job_titles p.job_title) 20)

abbrev pub icp_of : Db → ℕ → Option ℕ → Option Icp
icp_of db tenant_id none = none
icp_of db tenant_id (some id) = find_first (λ i. i.id == id && i.tenant_id == tenant_id) db.icps

abbrev pub score_of : (Text → Text) → Person → Option Icp → ℕ
score_of lower p none = 50
score_of lower p (some icp) = score_by lower p icp

abbrev pub score : (Text → Text) → Db → ℕ → Row → Option ℕ → ℕ
score lower db tenant_id row icp_id = elim row.score [
  | some n ↦ n
  | none ↦ score_of lower row.person (icp_of db tenant_id icp_id)
]
