-- ===== src/Signup/Registration.antt =====
-- `register` of apps/api/src/modules/signup/signup.service.ts.
use klyvero.Common.{
  ℕ, ◌+◌, Bool, false, not, ◌&&◌, List, [], ◌∷◌, Option, none, some, map, Text, units, text_eq, ltb,
  ◌==◌, is_some, any, Result, ok, ◌>>=◌, ◌>>◌, throw_if, or_throw, bad_request, conflict,
  find_first, count_where, update_many, trim,
}
use klyvero.Text.Document.{only_digits, is_valid_br_document}
use klyvero.Signup.{Crypto, Db, Invite, Tenant, User, reseller}
use klyvero.Signup.Invites.{is_open, pending_invite}

pub record Signup : Type 0 where
  pub token : Text
  pub email : Text
  pub slug : Text
  pub document : Text
  pub password : Text
  pub company_name : Text
  pub responsible_name : Text

abbrev pub invalid_invite : klyvero.Common.Error
invalid_invite = bad_request "Convite inválido, expirado ou já utilizado"

abbrev pub email_of : Crypto → Signup → Text
email_of c dto = c.lower (trim dto.email)

abbrev pub slug_of : Crypto → Signup → Text
slug_of c dto = c.lower (trim dto.slug)

-- `invite.email && invite.email !== email`; an empty address asks for none.
abbrev pub is_for_another : Option Text → Text → Bool
is_for_another none email = false
is_for_another (some []) email = false
is_for_another (some (x ∷ xs)) email = not (text_eq (x ∷ xs) email)

abbrev pub reserved_slugs : List Text
reserved_slugs = map units (
    "admin" ∷ "api" ∷ "app" ∷ "www" ∷ "login" ∷ "setup" ∷ "cadastro" ∷ "platform" ∷ "plataforma"
    ∷ "klyvero" ∷ "suporte" ∷ "support" ∷ "root" ∷ "owner" ∷ [])

-- What is checked before the transaction.
unfoldable pub check_signup : Crypto → ℕ → Db → Signup → Result Invite
unfolding pending_invite only_digits is_valid_br_document trim text_eq
check_signup c now db dto = or_throw (pending_invite c now db dto.token) invalid_invite >>= λ i.
    throw_if (is_for_another i.email (email_of c dto))
      (bad_request "Use o e-mail para o qual o convite foi emitido")
    >> throw_if (not (is_valid_br_document (only_digits dto.document)))
        (bad_request "CPF ou CNPJ inválido")
    >> throw_if (any (λ s. text_eq s (slug_of c dto)) reserved_slugs)
        (bad_request "Este identificador de workspace não está disponível")
    >> ok i

abbrev pub is_claimable : ℕ → Invite → Invite → Bool
is_claimable now i j = j.id == i.id && is_open j && ltb now j.expires_at

abbrev pub has_document : Text → Tenant → Bool
has_document d t = elim t.legal_document [ none ↦ false | some e ↦ text_eq e d ]

abbrev pub new_tenant : Crypto → Signup → Invite → ℕ → Tenant
new_tenant c dto i id = record {
  id = id;
  name = trim dto.company_name;
  slug = slug_of c dto;
  type = reseller;
  legal_document = some (only_digits dto.document);
  parent = some i.tenant_id;
}

abbrev pub new_owner : Crypto → Signup → ℕ → User
new_owner c dto id = record {
  id = id + 1;
  tenant_id = id;
  name = trim dto.responsible_name;
  email = email_of c dto;
  password_hash = c.hash_password dto.password;
}

-- The transaction, on the database as it is when it runs; the marks on the invitation are the claim
-- and, after it, the workspace that used it.
unfoldable pub commit_signup : Crypto → ℕ → Invite → Signup → Db → Result Db
unfolding count_where update_many find_first text_eq
commit_signup c now i dto db =
    throw_if (is_some (find_first (λ u. text_eq u.email (email_of c dto)) db.users))
      (conflict "Já existe um cadastro com este e-mail")
    >> (throw_if (is_some (find_first (has_document (only_digits dto.document)) db.tenants))
          (conflict "Já existe um cadastro com este CPF/CNPJ")
        >> (throw_if (is_some (find_first (λ t. text_eq t.slug (slug_of c dto)) db.tenants))
              (conflict "Este identificador de workspace já está em uso")
            >> (throw_if (not (count_where (is_claimable now i) db.invites == 1)) invalid_invite
                >> ok record {
                  tenants = new_tenant c dto i db.next_id ∷ db.tenants;
                  users = new_owner c dto db.next_id ∷ db.users;
                  invites =
                      update_many (λ j. j.id == i.id)
                        (λ j. record j { used_by_tenant = some db.next_id })
                        (update_many (is_claimable now i) (λ j. record j { used_at = some now })
                          db.invites);
                  next_id = db.next_id + 2;
                })))

unfoldable pub register : Crypto → ℕ → Db → Signup → Result Db
unfolding check_signup commit_signup
register c now db dto = check_signup c now db dto >>= λ i. commit_signup c now i dto db
