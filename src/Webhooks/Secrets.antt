-- ===== src/Webhooks/Secrets.antt =====
-- The secret that `create` answers and the one that signs the deliveries.
use klyvero.Common.{
  ℕ, ◌≡◌, ap, ◌∙◌, List, ◌∷◌, some, Text, Result, ok, err, ok-injective, err_ne_ok, sym,
}
use klyvero.Security.Network.Outbound.{Url, Platform, validate_http_url}
use klyvero.Webhooks.{Endpoint, Db, Codec}
use klyvero.Webhooks.Service.{stored_secret, new_endpoint, add_endpoint, create}
use klyvero.Webhooks.Worker.{signing_secret}

signing_secret-stored :
    (c : Codec) (raw : Text)
    → ((t : Text) → c.decode (c.encode t) ≡ some t)
    → c.decrypt (c.encrypt raw) ≡ some raw
    → signing_secret c (stored_secret c raw) ≡ some raw
unfolding signing_secret
signing_secret-stored c raw coded sealed = rw (coded (c.encrypt raw)) sealed

add_endpoint-eq-ok :
    (v : Result (Url × Text)) (r e : Endpoint) (raw shown : Text) (db db' : Db)
    → add_endpoint e raw db v ≡ (db', ok (r, shown))
    → (db'.endpoints ≡ e ∷ db.endpoints) × (e ≡ r) × (raw ≡ shown)
add_endpoint-eq-ok (err thrown) r e raw shown db db' h = absurd (err_ne_ok (ap (λ x. x.1) h))
add_endpoint-eq-ok (ok at) r e raw shown db db' h =
    let answer = ok-injective (ap (λ x. x.1) h) in
    (sym (ap (λ x. x.0.endpoints) h), ap (λ x. x.0) answer, ap (λ x. x.1) answer)

-- Where decoding undoes the encoding and decrypting undoes the encryption, the secret that a
-- successful `create` answers is the one that the worker signs the deliveries of the new endpoint
-- with.
pub create-signs :
    (p : Platform) (c : Codec) (raw : Text) (now : ℕ) (db db' : Db) (tenant : ℕ) (name url : Text)
    (events : List Text) (row : Endpoint) (shown : Text)
    → ((t : Text) → c.decode (c.encode t) ≡ some t)
    → ((t : Text) → c.decrypt (c.encrypt t) ≡ some t)
    → create p c raw now db tenant name url events ≡ (db', ok (row, shown))
    → (db'.endpoints ≡ row ∷ db.endpoints) × (signing_secret c row.secret ≡ some shown)
unfolding create
create-signs p c raw now db db' tenant name url events row shown coded sealed h =
    let e = new_endpoint c raw now db.next_id tenant name url events in
    let (kept, same, told) =
      add_endpoint-eq-ok (validate_http_url p url) row e raw shown db db' h in
    let signs = signing_secret-stored c raw coded (sealed raw) in
    (
      kept ∙ ap (λ x. x ∷ db.endpoints) same,
      sym (ap (λ x. signing_secret c x.secret) same) ∙ signs ∙ ap some told,
    )
