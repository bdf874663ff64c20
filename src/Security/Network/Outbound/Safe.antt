-- ===== src/Security/Network/Outbound/Safe.antt =====
-- Where `postWebhook` sends its request.
use klyvero.Common.{
  head?, ℕ, ◌≤◌, ◌≡◌, refl, sym, ap, ◌∙◌, subst, arith, Bool, true, false, not, ◌&&◌, ◌||◌, Option,
  some, ltb, Text, units, text_eq, Result, ok, err, Error, ◌>>◌, >>=-eq-ok, throw_if,
  throw_if-eq-ok, or_throw, or_throw-eq-ok, ok-injective,
}
use klyvero.Security.Network.{
  rows_of, is_empty, clean_host, reject_hostname, is_non_public_ip, allow_private, resolve_host,
}
use klyvero.Security.Network.Pinned.{resolve_host-public, resolve_host-first}
use klyvero.Security.Network.Outbound.{
  Url, Platform, is_https, check_url, validate_http_url, chosen_port, port_of, Headers, Response,
  response_of, Request, post_webhook,
}

-- The address is public and the name is no local one.
unfoldable pub IsPublic : Platform → Url → Text → Type 0
IsPublic p u address =
    (reject_hostname p.lower (clean_host u.hostname) ≡ false)
    × (is_non_public_ip p.is_ip p.lower address ≡ false)

-- A destination without credentials, over HTTPS in production, at the address that its host is or
-- first resolves to, and public unless private networks are allowed, which they never are in
-- production.
pub record IsSafe (p : Platform) (u : Url) (address : Text) : Type 0 where
  pub no_credentials : (is_empty u.username ≡ true) × (is_empty u.password ≡ true)
  pub resolved :
      head? (
        rows_of
          (p.is_ip (clean_host u.hostname))
          (clean_host u.hostname)
          (p.lookup (clean_host u.hostname)))
      ≡ some address
  pub encrypted : p.is_production ≡ true → is_https u ≡ true
  pub public : allow_private p.is_production p.allow_private_webhooks ≡ false → IsPublic p u address

open_false : (x y : Bool) → (not x || not y) ≡ false → (x ≡ true) × (y ≡ true)
open_false true true h = (refl, refl)
open_false true false h = cc
open_false false y h = cc

implied : (x y : Bool) → (x && not y) ≡ false → x ≡ true → y ≡ true
implied true true h e = refl
implied true false h e = cc
implied false y h e = cc

passes :
    (r : Result (Unit {0})) (b : Bool) (e : Error) {x : Unit {0}}
    → (r >> throw_if b e) ≡ ok x
    → (r ≡ ok tt) × (b ≡ false)
passes (err thrown) b e {x} h = cc
passes (ok u) true e {x} h = cc
passes (ok u) false e {x} h = (refl, refl)

check_url-eq-ok :
    (p : Platform) (u : Url) {x : Unit {0}}
    → check_url p u ≡ ok x
    → ((is_empty u.username ≡ true) × (is_empty u.password ≡ true))
      × (p.is_production ≡ true → is_https u ≡ true)
unfolding check_url
check_url-eq-ok p u {x} h =
    let scheme = not (is_https u || text_eq u.protocol (units "http:")) in
    let bare = not (is_empty u.username) || not (is_empty u.password) in
    let plain = p.is_production && not (is_https u) in
    let (before, tls) = passes (throw_if scheme _ >> throw_if bare _) plain _ h in
    let (_, login) = passes (throw_if scheme _) bare _ before in
    (
      open_false (is_empty u.username) (is_empty u.password) login,
      implied p.is_production (is_https u) tls,
    )

pub validate_http_url-IsSafe :
    (p : Platform) (input : Text) (u : Url) (address : Text)
    → validate_http_url p input ≡ ok (u, address)
    → (p.parse input ≡ some u) × IsSafe p u address
unfolding validate_http_url IsPublic
validate_http_url-IsSafe p input u address h =
    let (v, parsed, h1) = >>=-eq-ok (or_throw (p.parse input) _) _ h in
    let (_, checked, h2) = >>=-eq-ok (check_url p v) _ h1 in
    let (found, resolved, h3) =
      >>=-eq-ok
        (resolve_host p.is_ip p.lower (allow_private p.is_production p.allow_private_webhooks)
          v.hostname p.lookup)
        _ h2 in
    let pair : (v, found) ≡ (u, address) = ok-injective h3 in
    let same_url : v ≡ u = ap (λ x. x.0) pair in
    let (bare, tls) = check_url-eq-ok p v checked in
    let safe : IsSafe p v found = record {
      no_credentials = bare;
      resolved =
          resolve_host-first p.is_ip p.lower
            (allow_private p.is_production p.allow_private_webhooks) v.hostname p.lookup found
            resolved;
      encrypted = tls;
      public = λ closed. resolve_host-public p.is_ip p.lower v.hostname p.lookup found (
          subst (λ b. resolve_host p.is_ip p.lower b v.hostname p.lookup ≡ ok found) closed
            resolved);
    } in
    (
      or_throw-eq-ok (p.parse input) _ parsed ∙ ap some same_url,
      subst (λ x. IsSafe p x.0 x.1) pair safe,
    )

port_of-bounds : (u : Url) {n : ℕ} → port_of u ≡ ok n → (1 ≤ n) × (n ≤ 65535)
unfolding port_of
port_of-bounds u {n} h =
    let (port, _, h1) = >>=-eq-ok (or_throw (chosen_port u) _) _ h in
    let (_, valid, h2) = >>=-eq-ok (throw_if (ltb port 1 || ltb 65535 port) _) _ h1 in
    let inside = throw_if-eq-ok (ltb port 1 || ltb 65535 port) _ valid in
    let same : port ≡ n = ok-injective h2 in ground (arith, same)

-- When `postWebhook` answers at all, its text was read as a URL without credentials, over HTTPS in
-- production; the request went to the address that its host is, or else to the first one that the
-- host resolves to, which is public unless private networks are allowed; it went to a port from 1 to
-- 65535, with the given headers and body, and the answer is that of this one request.
pub post_webhook-IsSafe :
    (p : Platform) (request : Request) (input : Text) (headers : Headers) (body : Text)
    (r : Option Response)
    → post_webhook p request input headers body ≡ ok r
    → (u : Url) × (address : Text) × (port : ℕ) × (p.parse input ≡ some u)
      × IsSafe p u address
      × (1 ≤ port)
      × (port ≤ 65535)
      × (r ≡ response_of (request u address port headers body))
unfolding post_webhook port_of
post_webhook-IsSafe p request input headers body r h =
    let ((u, address), valid, h1) = >>=-eq-ok (validate_http_url p input) _ h in
    let (port, chosen, h2) = >>=-eq-ok (port_of u) _ h1 in
    let (parsed, safe) = validate_http_url-IsSafe p input u address valid in
    let (low, high) = port_of-bounds u chosen in
    (u, address, port, parsed, safe, low, high, sym (ok-injective h2))
