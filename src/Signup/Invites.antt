-- ===== src/Signup/Invites.antt =====
-- `createInvite`, `revokeInvite` and the reading of an invitation in
-- apps/api/src/modules/signup/signup.service.ts.
use klyvero.Common.{
  ℕ, ◌+◌, ◌*◌, Bool, true, false, ◌&&◌, ◌∷◌, Option, none, some, Text, text_eq, ◌==◌, if◌then◌else◌,
  is_none, Result, ok, err, ◌>>=◌, ◌>>◌, throw_if, forbidden, not_found, find_first, count_where,
  update_many, trim,
}
use klyvero.Signup.{
  Caller, Crypto, Db, Invite, Tenant, TenantType, customer, is_pending, platform, reseller, status,
}

abbrev pub is_platform : TenantType → Bool
is_platform platform = true
is_platform reseller = false
is_platform customer = false

unfoldable pub issuer : Db → Caller → Result Tenant
unfolding find_first
issuer db c =
    throw_if c.is_api_key
      (forbidden "Convites são emitidos por um usuário, não por uma chave de API")
    >> elim (find_first (λ t. t.id == c.tenant_id) db.tenants) [
      | none ↦ err (forbidden "Somente o workspace da plataforma emite convites de cadastro")
      | some t ↦
          if is_platform t.type
          then ok t
          else err (forbidden "Somente o workspace da plataforma emite convites de cadastro")
    ]

pub record CreateInvite : Type 0 where
  pub label : Text
  pub email : Option Text
  pub validity_days : Option ℕ

abbrev pub or_seven : Option ℕ → ℕ
or_seven none = 7
or_seven (some n) = n

abbrev pub lower_email : Crypto → Option Text → Option Text
lower_email c none = none
lower_email c (some e) = some (c.lower (trim e))

unfoldable pub create_invite : Crypto → ℕ → Text → Db → Caller → CreateInvite → Result Db
unfolding issuer trim
create_invite c now token db caller dto = issuer db caller >>= λ t. ok (record db {
  invites =
      record {
        id = db.next_id;
        tenant_id = t.id;
        created_by = caller.user_id;
        label = trim dto.label;
        email = lower_email c dto.email;
        token_hash = c.hash_token token;
        expires_at = now + or_seven dto.validity_days * 86400000;
        used_at = none;
        revoked_at = none;
        used_by_tenant = none;
      }
      ∷ db.invites;
  next_id = db.next_id + 1;
})

abbrev pub is_open : Invite → Bool
is_open i = is_none i.used_at && is_none i.revoked_at

abbrev pub is_revocable : ℕ → ℕ → Invite → Bool
is_revocable id tenant i = i.id == id && i.tenant_id == tenant && is_open i

unfoldable pub revoke_invite : ℕ → Db → Caller → ℕ → Result Db
unfolding issuer count_where update_many
revoke_invite now db caller id = issuer db caller >>= λ t.
    throw_if (count_where (is_revocable id t.id) db.invites == 0)
      (not_found "Convite não encontrado ou já encerrado")
    >> ok (record db {
      invites =
          update_many (is_revocable id t.id) (λ i. record i { revoked_at = some now }) db.invites;
    })

unfoldable pub pending_invite : Crypto → ℕ → Db → Text → Option Invite
unfolding find_first text_eq status
pending_invite c now db token =
    elim (find_first (λ i. text_eq i.token_hash (c.hash_token token)) db.invites) [
      | none ↦ none
      | some i ↦ if is_pending (status now i) then some i else none
    ]
