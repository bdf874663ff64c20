-- ===== src/Security/Network/Pinned.antt =====
-- Where a request may go once its host is resolved.
use klyvero.Common.{
  ◌≡◌, refl, Bool, true, false, not, ◌&&◌, ◌||◌, List, [], ◌∷◌, any, head?, some, ap, Text, ok,
  throw_if, >>=-eq-ok, throw_if-eq-ok, ok-injective, subst,
}
use klyvero.Security.Network.{
  Family, is_empty, pinned, rows_of, clean_host, reject_hostname, is_non_public_ip, resolve_host,
}

left_false : (x y : Bool) → (x || y) ≡ false → x ≡ false
left_false true y h = cc
left_false false y h = refl

right_false : (x y : Bool) → ((x || y) && not false) ≡ false → y ≡ false
right_false true y h = cc
right_false false true h = cc
right_false false false h = refl

pinned-eq-ok :
    (refused : Text → Bool) (rows : List Text) (row : Text)
    → pinned refused false rows ≡ ok row
    → refused row ≡ false
pinned-eq-ok refused [] row h = cc
pinned-eq-ok refused (x ∷ xs) row h =
    let (u, passes, same) = >>=-eq-ok (throw_if (refused x || any refused xs) _) _ h in
    let all_public = throw_if-eq-ok (refused x || any refused xs) _ passes in
    subst (λ y. refused y ≡ false) (ok-injective same)
      (left_false (refused x) (any refused xs) all_public)

pinned-head :
    (refused : Text → Bool) (allowed : Bool) (rows : List Text) (row : Text)
    → pinned refused allowed rows ≡ ok row
    → head? rows ≡ some row
pinned-head refused allowed [] row h = cc
pinned-head refused allowed (x ∷ xs) row h =
    let (u, passes, same) = >>=-eq-ok (throw_if (not allowed && any refused (x ∷ xs)) _) _ h in
    ap some (ok-injective same)

-- The address is the host itself, if this is an address, and else the first that it resolves to.
pub resolve_host-first :
    (is_ip : Text → Family) (lower : Text → Text) (allowed : Bool) (hostname : Text)
    (lookup : Text → List Text) (row : Text)
    → resolve_host is_ip lower allowed hostname lookup ≡ ok row
    → let clean = clean_host hostname in
      head? (rows_of (is_ip clean) clean (lookup clean)) ≡ some row
unfolding resolve_host
resolve_host-first is_ip lower allowed hostname lookup row h =
    let clean = clean_host hostname in
    let bad = (is_empty clean || reject_hostname lower clean) && not allowed in
    let (u, passes, rest) = >>=-eq-ok (throw_if bad _) _ h in
    pinned-head (is_non_public_ip is_ip lower) allowed (rows_of (is_ip clean) clean (lookup clean))
      row rest

-- Where private destinations are not allowed, a host that resolves is no local or metadata name, and
-- the address that the request is pinned to is public.
pub resolve_host-public :
    (is_ip : Text → Family) (lower : Text → Text) (hostname : Text) (lookup : Text → List Text)
    (row : Text)
    → resolve_host is_ip lower false hostname lookup ≡ ok row
    → (reject_hostname lower (clean_host hostname) ≡ false)
      × (is_non_public_ip is_ip lower row ≡ false)
unfolding resolve_host
resolve_host-public is_ip lower hostname lookup row h =
    let clean = clean_host hostname in
    let bad = (is_empty clean || reject_hostname lower clean) && not false in
    let (u, passes, rest) = >>=-eq-ok (throw_if bad _) _ h in
    (
      right_false (is_empty clean) (reject_hostname lower clean) (throw_if-eq-ok bad _ passes),
      pinned-eq-ok (is_non_public_ip is_ip lower) (rows_of (is_ip clean) clean (lookup clean)) row
          rest,
    )
