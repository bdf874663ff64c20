-- ===== src/Security/Network/Outbound.antt =====
-- `validateHttpUrl` and `postWebhook` of apps/api/src/infra/security/network-safety.service.ts. What
-- `new URL` reads of a text, the name lookup and the request itself are the platform's.
pub mod Safe
pub mod Body
use klyvero.Common.{
  ℕ, ◌+◌, ◌-◌, min, Bool, not, ◌&&◌, ◌||◌, List, [], ◌∷◌, ◌++◌, Option, none, some, length, take,
  leb, ltb, if◌then◌else◌, Text, units, text_eq, Result, ok, ◌>>=◌, ◌>>◌, throw_if, or_throw,
  bad_request,
}
use klyvero.Security.Network.{Family, is_empty, number_from, allow_private, resolve_host}

-- What `new URL` reads of a text.
pub record Url : Type 0 where
  pub protocol : Text
  pub username : Text
  pub password : Text
  pub hostname : Text
  pub port : Text
  pub target : Text

pub record Platform : Type 0 where
  pub parse : Text → Option Url
  pub is_ip : Text → Family
  pub lower : Text → Text
  pub lookup : Text → List Text
  pub is_production : Bool
  pub allow_private_webhooks : Bool

abbrev pub is_https : Url → Bool
is_https u = text_eq u.protocol (units "https:")

unfoldable pub check_url : Platform → Url → Result (Unit {0})
unfolding text_eq
check_url p u =
    throw_if (not (is_https u || text_eq u.protocol (units "http:")))
      (bad_request "Only HTTP(S) destinations are supported")
    >> throw_if (not (is_empty u.username) || not (is_empty u.password))
        (bad_request "Credentials in URL are not allowed")
    >> throw_if (p.is_production && not (is_https u))
        (bad_request "HTTPS is required for outbound webhooks in production")

unfoldable pub validate_http_url : Platform → Text → Result (Url × Text)
unfolding check_url allow_private resolve_host
validate_http_url p input = or_throw (p.parse input) (bad_request "Invalid URL") >>= λ u.
    check_url p u
    >> (resolve_host p.is_ip p.lower (allow_private p.is_production p.allow_private_webhooks)
          u.hostname p.lookup
        >>= λ address. ok (u, address))

-- `url.port`, digits, or the port of the protocol.
unfoldable pub chosen_port : Url → Option ℕ
unfolding number_from text_eq
chosen_port u =
    if is_empty u.port then some (if is_https u then 443 else 80) else number_from 0 u.port

unfoldable pub port_of : Url → Result ℕ
unfolding chosen_port
port_of u = or_throw (chosen_port u) (bad_request "Invalid destination port") >>= λ n.
    throw_if (ltb n 1 || ltb 65535 n) (bad_request "Invalid destination port") >> ok n

-- The chunks of a response that are kept, `size` bytes into it.
unfoldable pub collect : ℕ → List (List ℕ) → List ℕ
collect size [] = []
collect size (chunk ∷ chunks) =
    let remaining = 4096 - size in
    let kept = collect (size + min (length chunk) remaining) chunks in
    let skipped = collect size chunks in
    if ltb size 4096 then take remaining chunk ++ kept else skipped

-- The headers that change from one request to the next.
pub record Headers : Type 0 where
  pub event : Text
  pub timestamp : Text
  pub signature : Text

pub record Response : Type 0 where
  pub status : ℕ
  pub is_ok : Bool
  pub body : List ℕ

-- A status, where there is one, and the chunks of the body; `none` is a failed or timed out request.
abbrev pub Answer : Type 0
Answer = Option (Option ℕ × List (List ℕ))

abbrev pub status_of : Option ℕ → ℕ
status_of none = 0
status_of (some n) = n

abbrev pub response_of : Answer → Option Response
response_of none = none
response_of (some (code, chunks)) = some (record {
  status = status_of code;
  is_ok = leb 200 (status_of code) && ltb (status_of code) 300;
  body = collect 0 chunks;
})

-- The request to an address at a port, with its headers and its body.
abbrev pub Request : Type 0
Request = Url → Text → ℕ → Headers → Text → Answer

unfoldable pub post_webhook : Platform → Request → Text → Headers → Text → Result (Option Response)
unfolding validate_http_url port_of collect
post_webhook p request input headers body = validate_http_url p input >>= λ at.
    port_of at.0 >>= λ port. ok (response_of (request at.0 at.1 port headers body))
