-- ===== src/Campaign/Lifecycle/Enrolling.antt =====
-- Enrolling leads: the reply accounts for every lead of the request.
use klyvero.Common.{
  ℕ, suc, ◌+◌, ◌*◌, ◌≡◌, ap, subst, false, not, List, [], ◌∷◌, arith, ◌==◌, select, length,
  length-select-le, head?, ok, or_throw, throw_if, >>=-eq-ok, throw_if-eq-ok, ok-injective,
  bad_request,
}
use klyvero.Campaign.Model.{Campaign, Step, Lead, Db}
use klyvero.Campaign.Service.{owned}
use klyvero.Campaign.Lifecycle.{
  active_steps, distinct, tenant_leads, is_reachable, is_enrolled, add_enrollment, enroll_lead,
  enroll_all, EnrollReply, enroll,
}
use klyvero.Campaign.Lifecycle.Rounds.{schedule-enrollments}

length-enroll_lead :
    (c : Campaign) (first : Step) (now : ℕ) (lead : Lead) (db : Db)
    → length (enroll_lead c first now lead db).enrollments ≡ suc (length db.enrollments)
unfolding enroll_lead
length-enroll_lead c first now lead db = ground (
  arith,
  ap length (
      schedule-enrollments (add_enrollment c first now lead db) db.next_id first
        (now + first.delay_minutes * 60000) false),
)

length-enroll_all :
    (c : Campaign) (first : Step) (now : ℕ) (leads : List Lead) (db : Db)
    → length (enroll_all c first now leads db).enrollments ≡ length db.enrollments + length leads
unfolding enroll_all
length-enroll_all c first now [] db = omega arith
length-enroll_all c first now (lead ∷ leads) db = omega (
  arith,
  length-enroll_all c first now leads (enroll_lead c first now lead db),
  length-enroll_lead c first now lead db,
)

-- A successful request accounts for each distinct lead that it names, and adds exactly as many
-- enrollments as it says.
pub enroll-counts :
    (db db' : Db) (tenant now id : ℕ) (lead_ids : List ℕ) (answer : EnrollReply)
    → enroll db tenant now id lead_ids ≡ ok (db', answer)
    → (answer.enrolled + answer.already_enrolled + answer.without_contact
        ≡ length (distinct lead_ids))
      × (length db'.enrollments ≡ length db.enrollments + answer.enrolled)
unfolding enroll
enroll-counts db db' tenant now id lead_ids answer p =
    let (c, p₀, p₁) = >>=-eq-ok (owned db tenant id) _ p in
    let steps = active_steps db id in
    let (first, p₂, p₃) = >>=-eq-ok (or_throw (head? steps) _) _ p₁ in
    let leads = tenant_leads db tenant (distinct lead_ids) in
    let all_there = not (length leads == length (distinct lead_ids)) in
    let message = bad_request "One or more leads do not belong to tenant" in
    let (u, p₄, p₅) = >>=-eq-ok (throw_if all_there message) _ p₃ in
    let complete = throw_if-eq-ok all_there message p₄ in
    let matched : length leads ≡ length (distinct lead_ids) = ground (arith, complete) in
    let reachable = select (is_reachable steps) leads in
    let fresh = select (λ l. not (is_enrolled db id l)) reachable in
    let few = length-select-le (is_reachable steps) leads in
    let fewer = length-select-le (λ l. not (is_enrolled db id l)) reachable in
    subst
      (λ (r : Db × EnrollReply).
        (r.1.enrolled + r.1.already_enrolled + r.1.without_contact ≡ length (distinct lead_ids))
        × (length r.0.enrollments ≡ length db.enrollments + r.1.enrolled))
      (ok-injective p₅) (omega (arith, few, fewer, matched), length-enroll_all c first now fresh db)
