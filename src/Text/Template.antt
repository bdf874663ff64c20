-- ===== src/Text/Template.antt =====
-- apps/api/src/modules/campaigns/campaign-template.ts: `{{variable}}` substitution and the retry
-- delay. A match of the expression is sought at each position in turn; the units of a match are
-- skipped by a counter, so that the recursion is on the text.
use klyvero.Common.{
  ℕ, zero, suc, ◌+◌, ◌-◌, ◌*◌, ◌^◌, not, ◌&&◌, [], ◌∷◌, ◌++◌, Option, none, some, ◌==◌,
  if◌then◌else◌, Text, units, text_eq, is_letter, is_space, length, drop,
}
use klyvero.Text.Phone.{starts_with}

-- The fields of a lead that a template may name.
pub record TemplateLead : Type 0 where
  pub first_name : Option Text
  pub last_name : Option Text
  pub company_name : Option Text
  pub job_title : Option Text
  pub email : Option Text
  pub phone : Option Text
  pub website : Option Text

-- `value ?? ''`
abbrev pub or_empty : Option Text → Text
or_empty none = []
or_empty (some t) = t

-- `TEMPLATE_VARIABLES.includes(key) ? lead[key] : ''`
unfoldable pub variable : TemplateLead → Text → Text
unfolding text_eq
variable lead key =
    if text_eq key (units "firstName")
    then or_empty lead.first_name
    else if text_eq key (units "lastName")
    then or_empty lead.last_name
    else if text_eq key (units "companyName")
    then or_empty lead.company_name
    else if text_eq key (units "jobTitle")
    then or_empty lead.job_title
    else if text_eq key (units "email")
    then or_empty lead.email
    else if text_eq key (units "phone")
    then or_empty lead.phone
    else if text_eq key (units "website")
    then or_empty lead.website
    else []

-- The length of the longest run of `\s` at the start, and the longest run of letters.
unfoldable pub spaces : Text → ℕ
unfolding is_space
spaces [] = 0
spaces (c ∷ s) = let more = spaces s in if is_space c then suc more else 0

unfoldable pub letters : Text → Text
letters [] = []
letters (c ∷ s) = let more = letters s in if is_letter c then c ∷ more else []

-- `/{{\s*([a-zA-Z]+)\s*}}/` at the start of the text: the key, and the length of the match. The
-- classes are disjoint, so the longest runs are the only candidates.
unfoldable pub match_tag : Text → Option (Text × ℕ)
unfolding spaces letters
match_tag s =
    let s₁ = drop 2 s in
    let before = spaces s₁ in
    let s₂ = drop before s₁ in
    let key = letters s₂ in
    let s₃ = drop (length key) s₂ in
    let after = spaces s₃ in
    if starts_with (units "{{") s
      && not (length key == 0)
      && starts_with (units "}}") (drop after s₃)
    then some (key, before + length key + after + 4)
    else none

unfoldable pub render_from : TemplateLead → ℕ → Text → Text
unfolding match_tag variable
render_from lead skip [] = []
render_from lead (suc skip) (c ∷ s) = render_from lead skip s
render_from lead zero (c ∷ s) = elim (match_tag (c ∷ s)) [
  | none ↦ c ∷ render_from lead 0 s
  | some (key, n) ↦ variable lead key ++ render_from lead (n - 1) s
]

unfoldable pub render_template : Text → TemplateLead → Text
unfolding render_from
render_template template lead = render_from lead 0 template

-- `baseMs * 2 ** Math.max(0, attempt - 1)`; `-` on ℕ is that maximum.
unfoldable pub retry_delay_ms : ℕ → ℕ → ℕ
retry_delay_ms attempt base_ms = base_ms * 2 ^ (attempt - 1)
