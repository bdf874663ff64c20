-- ===== src/Signup/SingleUse.antt =====
-- Each workspace that is registered uses up one invitation.
use klyvero.Common.{
  ℕ, ◌+◌, ◌≡◌, refl, sym, subst, ap, arith, Bool, false, not, List, [], ◌∷◌, some, Text, text_eq,
  ◌==◌, ==_iff, is_some, ok, >>=-eq-ok, ok-injective, throw_if, throw_if-eq-ok, find_first,
  count_where, update_many, length,
}
use klyvero.Text.Document.{only_digits}
use klyvero.Signup.{Invite, Db, Crypto, Caller}
use klyvero.Signup.Invites.{CreateInvite, issuer, create_invite, is_revocable, revoke_invite}
use klyvero.Signup.Registration.{
  Signup, email_of, slug_of, has_document, is_claimable, new_tenant, new_owner, commit_signup,
}
use klyvero.Signup.Trace.{Event, Reach}

abbrev pub is_used : Invite → Bool
is_used i = is_some i.used_at

abbrev marked : ℕ → Invite → Invite
marked id j = record j { used_by_tenant = some id }

-- A successful transaction, and what it found.
pub commit_signup-eq-ok :
    (c : Crypto) (now : ℕ) (i : Invite) (dto : Signup) (db db' : Db)
    → commit_signup c now i dto db ≡ ok db'
    → (is_some (find_first (λ u. text_eq u.email (email_of c dto)) db.users) ≡ false)
      × (is_some (find_first (has_document (only_digits dto.document)) db.tenants) ≡ false)
      × (is_some (find_first (λ t. text_eq t.slug (slug_of c dto)) db.tenants) ≡ false)
      × (count_where (is_claimable now i) db.invites ≡ 1)
      × (record {
        tenants = new_tenant c dto i db.next_id ∷ db.tenants;
        users = new_owner c dto db.next_id ∷ db.users;
        invites =
            update_many
              (λ j. j.id == i.id)
              (marked db.next_id)
              (update_many (is_claimable now i) (λ j. record j { used_at = some now }) db.invites);
        next_id = db.next_id + 2;
      }
          ≡ db')
unfolding commit_signup
commit_signup-eq-ok c now i dto db db' h =
    let (_, a, h₁) =
      >>=-eq-ok (throw_if (is_some (find_first (λ u. text_eq u.email (email_of c dto)) db.users)) _)
        _ h in
    let (_, b, h₂) =
      >>=-eq-ok
        (throw_if (is_some (find_first (has_document (only_digits dto.document)) db.tenants)) _) _
        h₁ in
    let (_, e, h₃) =
      >>=-eq-ok (throw_if (is_some (find_first (λ t. text_eq t.slug (slug_of c dto)) db.tenants)) _)
        _ h₂ in
    let (_, f, h₄) =
      >>=-eq-ok (throw_if (not (count_where (is_claimable now i) db.invites == 1)) _) _ h₃ in
    let claimed = throw_if-eq-ok (not (count_where (is_claimable now i) db.invites == 1)) _ f in
    (
      throw_if-eq-ok _ _ a,
      throw_if-eq-ok _ _ b,
      throw_if-eq-ok _ _ e,
      (==_iff _ 1).0 (ground arith),
      ok-injective h₄,
    )

count_used-marked :
    (id by : ℕ) (is : List Invite)
    → count_where is_used (update_many (λ j. j.id == id) (marked by) is) ≡ count_where is_used is
unfolding count_where update_many
count_used-marked id by [] = refl
count_used-marked id by (j ∷ is) = ground (arith, count_used-marked id by is)

count_used-claimed :
    (now : ℕ) (i : Invite) (is : List Invite)
    → count_where is_used
        (update_many (is_claimable now i) (λ j. record j { used_at = some now }) is)
      ≡ count_where is_used is + count_where (is_claimable now i) is
unfolding count_where update_many
count_used-claimed now i [] = refl
count_used-claimed now i (j ∷ is) = ground (arith, count_used-claimed now i is)

count_used-revoked :
    (now id tenant : ℕ) (is : List Invite)
    → count_where is_used
        (update_many (is_revocable id tenant) (λ i. record i { revoked_at = some now }) is)
      ≡ count_where is_used is
unfolding count_where update_many
count_used-revoked now id tenant [] = refl
count_used-revoked now id tenant (j ∷ is) = ground (arith, count_used-revoked now id tenant is)

-- The operations on invitations leave the workspaces and the users, and use up no invitation.
pub create_invite-keeps :
    (c : Crypto) (now : ℕ) (token : Text) (db db' : Db) (caller : Caller) (dto : CreateInvite)
    → create_invite c now token db caller dto ≡ ok db'
    → (db'.tenants ≡ db.tenants)
      × (db'.users ≡ db.users)
      × (count_where is_used db'.invites ≡ count_where is_used db.invites)
unfolding create_invite count_where
create_invite-keeps c now token db db' caller dto h =
    let (t, _, e) = >>=-eq-ok (issuer db caller) _ h in
    let same = ok-injective (sym e) in rw same (refl, refl, refl)

pub revoke_invite-keeps :
    (now : ℕ) (db db' : Db) (caller : Caller) (id : ℕ)
    → revoke_invite now db caller id ≡ ok db'
    → (db'.tenants ≡ db.tenants)
      × (db'.users ≡ db.users)
      × (count_where is_used db'.invites ≡ count_where is_used db.invites)
unfolding revoke_invite
revoke_invite-keeps now db db' caller id h =
    let (t, _, e) = >>=-eq-ok (issuer db caller) _ h in
    let (_, _, e') =
      >>=-eq-ok (throw_if (count_where (is_revocable id t.id) db.invites == 0) _) _ e in
    let same = ok-injective (sym e') in
    rw same (refl, refl, count_used-revoked now id t.id db.invites)

-- What each event does to the invitations that are used and to the workspaces.
step-balance :
    (c : Crypto) (db db' : Db)
    → Event c db db'
    → length db'.tenants + count_where is_used db.invites
      ≡ length db.tenants + count_where is_used db'.invites
step-balance c db db' (Event.invites _ _ now token caller dto h) =
    let (a, _, b) = create_invite-keeps c now token db db' caller dto h in
    omega (arith, ap length a, b)
step-balance c db db' (Event.revokes _ _ now caller id h) =
    let (a, _, b) = revoke_invite-keeps now db db' caller id h in omega (arith, ap length a, b)
step-balance c db db' (Event.registers _ _ now i dto h) =
    let (_, _, _, one, e) = commit_signup-eq-ok c now i dto db db' h in
    subst
      (λ d.
        length d.tenants + count_where is_used db.invites
        ≡ length db.tenants + count_where is_used d.invites)
      e
      (omega (
        arith,
        count_used-marked i.id db.next_id
            (update_many (is_claimable now i) (λ j. record j { used_at = some now }) db.invites),
        count_used-claimed now i db.invites,
        one,
      ))

-- Whatever is invited, revoked and registered, and however late a registration runs after it read
-- its invitation, exactly as many invitations are used up as workspaces are added: no invitation
-- serves twice, and no workspace comes without one.
pub Reach-balance :
    (c : Crypto) (db db' : Db)
    → Reach c db db'
    → length db'.tenants + count_where is_used db.invites
      ≡ length db.tenants + count_where is_used db'.invites
Reach-balance c db _ Reach.here = refl
Reach-balance c db z (Reach.next {y} r e) =
    omega (arith, Reach-balance c db y r, step-balance c y z e)
