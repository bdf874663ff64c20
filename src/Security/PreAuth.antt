-- ===== src/Security/PreAuth.antt =====
-- apps/api/src/common/pre-auth-rate-limit.guard.ts: the limits by address, before a request is
-- authenticated. Its counters are those of `RateLimit.increment`, in a map of its own.
use klyvero.Common.{
  ℕ, ◌*◌, ◌/◌, ◌≡◌, refl, sym, subst, arith, Bool, true, List, [], ◌∷◌, ◌++◌, Option, any,
  if◌then◌else◌, ltb, ==_refl, Result, too_many_requests, throw_if, Text, units, String,
}
use klyvero.Text.Phone.{starts_with}
use klyvero.Security.RateLimit.{includes, RateKey, auth_edge, public_edge, edge, Counts, increment}

pub data Group : Type 0 where
  auth_group public_group edge_group : Group

abbrev pub auth_paths : List String
auth_paths =
    "/auth/login" ∷ "/auth/refresh" ∷ "/auth/bootstrap" ∷ "/auth/forgot-password"
    ∷ "/auth/reset-password" ∷ "/auth/owner-recovery" ∷ "/signup" ∷ []

abbrev pub public_paths : List String
public_paths =
    "/email/track/" ∷ "/email/unsubscribe/" ∷ "/email/inbound" ∷ "/billing/webhook"
    ∷ "/calendar/google/callback" ∷ "/internal/whatsapp/events" ∷ []

unfoldable pub group_of : Text → Group
unfolding includes
group_of path =
    if any (λ p. includes (units p) path) auth_paths
    then auth_group
    else if any (λ p. includes (units p) path) public_paths
    then public_group
    else edge_group

pub record EdgeLimits : Type 0 where
  pub window_seconds : ℕ
  pub auth_max : ℕ
  pub public_max : ℕ
  pub edge_max : ℕ

abbrev pub edge_max_for : EdgeLimits → Group → ℕ
edge_max_for l auth_group = l.auth_max
edge_max_for l public_group = l.public_max
edge_max_for l edge_group = l.edge_max

abbrev pub edge_key : Group → ℕ → ℕ → RateKey
edge_key auth_group print bucket = auth_edge print bucket
edge_key public_group print bucket = public_edge print bucket
edge_key edge_group print bucket = edge print bucket

unfoldable pub edge_activate :
    (Text → ℕ) → EdgeLimits → Counts → Option ℕ → ℕ → Text → Text → Counts × Result (Unit {0})
unfolding increment group_of
edge_activate fingerprint l m redis now ip path =
    let group = group_of path in
    let (m', count) =
      increment m redis now (edge_key group (fingerprint ip) (now / (l.window_seconds * 1000)))
        l.window_seconds in
    (m', throw_if (ltb (edge_max_for l group) count) (too_many_requests "Too many requests"))

starts_with-append : (part rest : Text) → starts_with part (part ++ rest) ≡ true
starts_with-append [] rest = refl
starts_with-append (c ∷ part) rest = rw (==_refl c) (starts_with-append part rest)

includes-middle : (part before after : Text) → includes part (before ++ (part ++ after)) ≡ true
unfolding includes
includes-middle [] [] [] = refl
includes-middle [] [] (c ∷ after) = refl
includes-middle (c ∷ part) [] after = rw (==_refl c, starts_with-append part after) refl
includes-middle part (c ∷ before) after = ground (arith, includes-middle part before after)

any-member :
    (p : String → Bool) (x : String) (before after : List String)
    → p x ≡ true
    → any p (before ++ x ∷ after) ≡ true
any-member p x [] after h = rw h refl
any-member p x (y ∷ before) after h = ground (arith, any-member p x before after)

group_of-any :
    (path : Text)
    → any (λ p. includes (units p) path) auth_paths ≡ true
    → group_of path ≡ auth_group
unfolding group_of
group_of-any path h = rw (group_of, h) refl

-- A path that names one of the sensitive endpoints is counted in the strict group, whatever comes
-- before or after the name.
pub group_of-auth :
    (listed later : List String) (name : String) (before after : Text)
    → auth_paths ≡ listed ++ name ∷ later
    → group_of (before ++ (units name ++ after)) ≡ auth_group
group_of-auth listed later name before after e =
    let path = before ++ (units name ++ after) in
    group_of-any path (
      subst (λ ps. any (λ p. includes (units p) path) ps ≡ true) (sym e)
        (any-member (λ p. includes (units p) path) name listed later
          (includes-middle (units name) before after)))
