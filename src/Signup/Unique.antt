-- ===== src/Signup/Unique.antt =====
-- Addresses, documents and slugs stay unique.
use klyvero.Common.{
  ◌≤◌, ◌≡◌, refl, sym, subst, inl, inr, arith, Bool, true, false, List, [], ◌∷◌, Text, text_eq,
  eq_of_text_eq, is_some, Bool-cases, find_first, count_where,
}
use klyvero.Text.Document.{only_digits}
use klyvero.Signup.{Tenant, User, Db, Crypto}
use klyvero.Signup.Registration.{email_of, slug_of, has_document, new_tenant, new_owner}
use klyvero.Signup.Trace.{Event, Reach}
use klyvero.Signup.SingleUse.{commit_signup-eq-ok, create_invite-keeps, revoke_invite-keeps}

-- At most one row has each value of the key.
abbrev pub AreUnique {ℓ} : {A : Type ℓ} → (Text → A → Bool) → List A → Type 0
AreUnique has rows = (v : Text) → count_where (has v) rows ≤ 1

abbrev pub has_email : Text → User → Bool
has_email e u = text_eq u.email e

abbrev pub has_slug : Text → Tenant → Bool
has_slug s t = text_eq t.slug s

find_first-count {ℓ} :
    {A : Type ℓ} (p : A → Bool) (xs : List A)
    → is_some (find_first p xs) ≡ false
    → count_where p xs ≡ 0
unfolding find_first count_where
find_first-count p [] h = refl
find_first-count p (x ∷ xs) h = ground (arith, find_first-count p xs)

-- A row whose key no row has joins them.
add-AreUnique {ℓ} :
    {A : Type ℓ} (has : Text → A → Bool) (a : A) (key : Text) (rows : List A)
    → ((v : Text) → has v a ≡ true → key ≡ v)
    → is_some (find_first (has key) rows) ≡ false
    → AreUnique has rows
    → AreUnique has (a ∷ rows)
unfolding count_where
add-AreUnique has a key rows own none_has h v = elim (Bool-cases (has v a)) [
  | inr e ↦ ground (arith, h v)
  | inl e ↦
      let z : count_where (has v) rows ≡ 0 =
        subst (λ k. count_where (has k) rows ≡ 0) (own v e)
          (find_first-count (has key) rows none_has) in
      ground arith
]

-- No two users have one address, no two workspaces one document or one slug.
pub record IsUnique (db : Db) : Type 0 where
  pub emails : AreUnique has_email db.users
  pub documents : AreUnique has_document db.tenants
  pub slugs : AreUnique has_slug db.tenants

step-IsUnique : (c : Crypto) (db db' : Db) → Event c db db' → IsUnique db → IsUnique db'
step-IsUnique c db db' (Event.invites _ _ now token caller dto h) u =
    let (a, b, _) = create_invite-keeps c now token db db' caller dto h in
    record {
      emails = subst (AreUnique has_email) (sym b) u.emails;
      documents = subst (AreUnique has_document) (sym a) u.documents;
      slugs = subst (AreUnique has_slug) (sym a) u.slugs;
    }
step-IsUnique c db db' (Event.revokes _ _ now caller id h) u =
    let (a, b, _) = revoke_invite-keeps now db db' caller id h in
    record {
      emails = subst (AreUnique has_email) (sym b) u.emails;
      documents = subst (AreUnique has_document) (sym a) u.documents;
      slugs = subst (AreUnique has_slug) (sym a) u.slugs;
    }
step-IsUnique c db db' (Event.registers _ _ now i dto h) u =
    let (no_email, no_document, no_slug, _, e) = commit_signup-eq-ok c now i dto db db' h in
    subst IsUnique e record {
      emails =
          add-AreUnique has_email (new_owner c dto db.next_id) (email_of c dto) db.users
            (λ v k. eq_of_text_eq _ _ k) no_email u.emails;
      documents =
          add-AreUnique has_document (new_tenant c dto i db.next_id) (only_digits dto.document)
            db.tenants (λ v k. eq_of_text_eq _ _ k) no_document u.documents;
      slugs =
          add-AreUnique has_slug (new_tenant c dto i db.next_id) (slug_of c dto) db.tenants
            (λ v k. eq_of_text_eq _ _ k) no_slug u.slugs;
    }

-- Registration keeps the addresses of users, and the documents and slugs of workspaces, unique.
pub Reach-IsUnique : (c : Crypto) (db db' : Db) → Reach c db db' → IsUnique db → IsUnique db'
Reach-IsUnique c db _ Reach.here u = u
Reach-IsUnique c db z (Reach.next {y} r e) u = step-IsUnique c y z e (Reach-IsUnique c db y r u)
