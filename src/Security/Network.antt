-- ===== src/Security/Network.antt =====
-- apps/api/src/infra/security/network-safety.service.ts: the destinations that outgoing requests may
-- reach. Which texts are addresses (`isIP`), what a name resolves to and the spelling of a host are
-- the platform's, and arguments here; `lower` is `toLowerCase`.
pub mod Blocks
pub mod Pinned
pub mod Outbound
use klyvero.Common.{
  ℕ, ◌+◌, ◌*◌, ◌-◌, Bool, true, false, not, ◌&&◌, ◌||◌, List, [], ◌∷◌, Option, none, some, map, leb,
  ◌==◌, if◌then◌else◌, any, drop, Text, units, text_eq, is_digit, Result, ok, err, ◌>>◌, throw_if,
  bad_request,
}
use klyvero.Text.Phone.{starts_with}

-- `address.split(unit)`
unfoldable pub split_on : ℕ → Text → List Text
split_on sep [] = [] ∷ []
split_on sep (c ∷ s) =
    let rest = split_on sep s in
    if c == sep
    then [] ∷ rest
    else elim rest [ [] ↦ (c ∷ []) ∷ [] | part ∷ parts ↦ (c ∷ part) ∷ parts ]

-- `Number(part)` on the parts of an IPv4 address, which are digits; anything else is not an integer
-- here, and an empty part is 0.
unfoldable pub number_from : ℕ → Text → Option ℕ
number_from n [] = some n
number_from n (c ∷ s) =
    let rest = number_from (10 * n + (c - b'0')) s in if is_digit c then rest else none

abbrev is_octet : ℕ → Bool
is_octet v = leb v 255

-- The ranges that are refused, by the first three octets.
abbrev pub is_reserved : ℕ → ℕ → ℕ → Bool
is_reserved a b c =
    a == 0
    || a == 10
    || a == 127
    || (a == 100 && leb 64 b && leb b 127)
    || (a == 169 && b == 254)
    || (a == 172 && leb 16 b && leb b 31)
    || (a == 192 && b == 168)
    || (a == 192 && b == 0)
    || (a == 192 && b == 0 && c == 2)
    || (a == 198 && (b == 18 || b == 19))
    || (a == 198 && b == 51 && c == 100)
    || (a == 203 && b == 0 && c == 113)
    || leb 224 a

unfoldable pub is_non_public_ipv4 : Text → Bool
unfolding split_on number_from
is_non_public_ipv4 address = elim (map (number_from 0) (split_on b'.' address)) [
  | some a ∷ some b ∷ some c ∷ some d ∷ [] ↦
      if is_octet a && is_octet b && is_octet c && is_octet d then is_reserved a b c else true
  | _ ↦ true
]

abbrev is_hex : ℕ → Bool
is_hex c = is_digit c || (leb b'a' c && leb c b'f')

-- `/^fe[89ab]/`
abbrev is_link_local : Text → Bool
is_link_local s =
    starts_with (units "fe") s
    && elim (drop 2 s) [ c ∷ t ↦ c == b'8' || c == b'9' || c == b'a' || c == b'b' | _ ↦ false ]

-- `/^2001:(?:001[0-9a-f]|002[0-9a-f]):/`
abbrev is_orchid : Text → Bool
is_orchid s =
    (starts_with (units "2001:001") s || starts_with (units "2001:002") s)
    && elim (drop 8 s) [ c ∷ d ∷ t ↦ is_hex c && d == b':' | _ ↦ false ]

abbrev head_of : List Text → Text
head_of [] = []
head_of (x ∷ xs) = x

pub data Family : Type 0 where
  ipv4 ipv6 no_address : Family

unfoldable pub is_non_public_ipv6 : (Text → Family) → (Text → Text) → Text → Bool
unfolding split_on text_eq is_non_public_ipv4
is_non_public_ipv6 is_ip lower address =
    let value = head_of (split_on b'%' (lower address)) in
    if text_eq value (units "::")
      || text_eq value (units "::1")
      || starts_with (units "fc") value
      || starts_with (units "fd") value
      || is_link_local value
      || starts_with (units "2001:db8:") value
      || starts_with (units "2001:0:") value
      || is_orchid value
      || starts_with (units "2002:") value
      || starts_with (units "64:ff9b:") value
      || starts_with (units "ff") value
    then true
    else if starts_with (units "::ffff:") value
    then elim (is_ip (drop 7 value)) [
      | ipv4 ↦ is_non_public_ipv4 (drop 7 value)
      | ipv6 ↦ true
      | no_address ↦ true
    ]
    else false

unfoldable pub is_non_public_ip : (Text → Family) → (Text → Text) → Text → Bool
unfolding is_non_public_ipv4 is_non_public_ipv6
is_non_public_ip is_ip lower address = elim (is_ip address) [
  | ipv4 ↦ is_non_public_ipv4 address
  | ipv6 ↦ is_non_public_ipv6 is_ip lower address
  | no_address ↦ true
]

abbrev pub rows_of : Family → Text → List Text → List Text
rows_of ipv4 clean found = clean ∷ []
rows_of ipv6 clean found = clean ∷ []
rows_of no_address clean found = found

-- `addresses.some(isNonPublicIp)` and the address that the request is pinned to, the first one.
abbrev pub pinned : (Text → Bool) → Bool → List Text → Result Text
pinned is_refused allow_private [] = err (bad_request "destination did not resolve")
pinned is_refused allow_private (row ∷ more) =
    throw_if (not allow_private && any is_refused (row ∷ more))
      (bad_request "destination resolves to a private, local, reserved, or metadata network")
    >> ok row

-- `.replace(/\]$/, '')` and its like
unfoldable pub without_last : ℕ → Text → Text
without_last u [] = []
without_last u (c ∷ []) = if c == u then [] else c ∷ []
without_last u (c ∷ d ∷ s) = c ∷ without_last u (d ∷ s)

abbrev without_first : ℕ → Text → Text
without_first u [] = []
without_first u (c ∷ s) = if c == u then s else c ∷ s

-- `.replace(/^\[|\]$/g, '').replace(/\.$/, '')`
unfoldable pub clean_host : Text → Text
unfolding without_last
clean_host h = without_last b'.' (without_last b']' (without_first b'[' h))

-- `h.endsWith(suffix)`
unfoldable pub ends_with : Text → Text → Bool
unfolding text_eq
ends_with suffix [] = text_eq [] suffix
ends_with suffix (c ∷ s) = text_eq (c ∷ s) suffix || ends_with suffix s

unfoldable pub reject_hostname : (Text → Text) → Text → Bool
unfolding clean_host text_eq ends_with
reject_hostname lower hostname =
    let h = clean_host (lower hostname) in
    text_eq h (units "localhost")
    || ends_with (units ".localhost") h
    || ends_with (units ".local") h
    || ends_with (units ".internal") h
    || text_eq h (units "metadata")
    || text_eq h (units "metadata.google.internal")

unfoldable pub allow_private : Bool → Bool → Bool
allow_private is_production setting = if is_production then false else setting

abbrev pub is_empty : Text → Bool
is_empty [] = true
is_empty (c ∷ s) = false

-- `resolveHost`; the last argument is what the name resolves to, where it is no address itself.
unfoldable pub resolve_host :
    (Text → Family) → (Text → Text) → Bool → Text → (Text → List Text) → Result Text
unfolding is_non_public_ip clean_host reject_hostname
resolve_host is_ip lower allowed hostname lookup =
    let clean = clean_host hostname in
    throw_if ((is_empty clean || reject_hostname lower clean) && not allowed)
      (bad_request "destination is not publicly routable")
    >> pinned (is_non_public_ip is_ip lower) allowed (rows_of (is_ip clean) clean (lookup clean))
