-- ===== src/Campaign/Unsubscribe.antt =====
-- The tokens of unsubscribe links: `unsubscribeToken` and `verifyUnsubscribeToken` of
-- apps/api/src/modules/email/email.service.ts. Lower casing, base64url and the signature are the
-- platform's.
mod Examples
use klyvero.Common.{
  ℕ, ◌+◌, ◌≤◌, ◌≡◌, refl, ap, ◌∙◌, subst, arith, Bool, true, false, not, ◌||◌, ◌==◌, List, [], ◌∷◌,
  ◌++◌, Option, none, some, length, ltb, All, if◌then◌else◌, Text, units, Result, ok, err, ◌>>=◌,
  ◌>>◌, throw_if, throw_if-eq-ok, >>=-eq-ok, ok-injective, bad_request, Error,
}
use klyvero.Text.ConstantTime.{
  constant_time_equals, constant_time_equals_refl, eq_of_constant_time_equals,
}
use klyvero.Security.Network.{split_on, is_empty}

pub record Signing : Type 0 where
  pub lower : Text → Text
  pub encode : Text → Text
  pub decode : Text → Text
  pub hmac : Text → Text

unfoldable pub unsubscribe_token : Signing → Text → Text → Text
unsubscribe_token m tenant_id email =
    let payload = m.encode (tenant_id ++ b'|' ∷ m.lower email) in payload ++ b'.' ∷ m.hmac payload

abbrev pub invalid_token : Error
invalid_token = bad_request "Invalid token"

-- `decoded.slice(0, i)` and `decoded.slice(i + 1)` at the first unit that is found.
unfoldable pub cut : ℕ → Text → Option (Text × Text)
cut u [] = none
cut u (c ∷ s) =
    let rest = cut u s in
    if c == u
    then some ([], s)
    else elim rest [ none ↦ none | some parts ↦ some (c ∷ parts.0, parts.1) ]

abbrev pub check_parts : Option (Text × Text) → Result (Text × Text)
check_parts none = err invalid_token
check_parts (some parts) =
    throw_if (is_empty parts.0 || is_empty parts.1 || ltb 254 (length parts.1)) invalid_token
    >> ok parts

abbrev pub is_extra : List Text → Bool
is_extra [] = false
is_extra (extra ∷ rest) = not (is_empty extra)

abbrev pub verify_parts : Signing → List Text → Result (Text × Text)
verify_parts m (payload ∷ signature ∷ rest) =
    throw_if (is_empty payload || is_empty signature || is_extra rest) invalid_token
    >> throw_if (not (constant_time_equals signature (m.hmac payload))) invalid_token
    >> check_parts (cut b'|' (m.decode payload))
verify_parts m parts = err invalid_token

unfoldable pub verify_unsubscribe_token : Signing → Text → Result (Text × Text)
unfolding split_on constant_time_equals cut
verify_unsubscribe_token m token = verify_parts m (split_on b'.' token)

-- The unit does not occur.
abbrev pub IsFree : ℕ → Text → Type 0
IsFree u s = All (λ c. (c == u) ≡ false) s

split_on-free : (u : ℕ) (s : Text) → IsFree u s → split_on u s ≡ s ∷ []
unfolding split_on
split_on-free u [] h = refl
split_on-free u (c ∷ s) h = rw (split_on-free u s h.1, h.0) refl

split_on-append : (u : ℕ) (p s : Text) → IsFree u p → split_on u (p ++ u ∷ s) ≡ p ∷ split_on u s
unfolding split_on
split_on-append u [] s h = ground arith
split_on-append u (c ∷ p) s h = rw (split_on-append u p s h.1, h.0) refl

cut-append : (u : ℕ) (p s : Text) → IsFree u p → cut u (p ++ u ∷ s) ≡ some (p, s)
unfolding cut
cut-append u [] s h = ground arith
cut-append u (c ∷ p) s h = rw (cut-append u p s h.1, h.0) refl

both_pass :
    {A : Type 0} (a b : Bool) (e e' : Error) (r : Result A)
    → a ≡ false
    → b ≡ false
    → (throw_if a e >> throw_if b e' >> r) ≡ r
both_pass a b e e' r h k = rw (h, k) refl

both_passed :
    {A : Type 0} (a b : Bool) (e e' : Error) (r : Result A) {x : A}
    → (throw_if a e >> throw_if b e' >> r) ≡ ok x
    → (a ≡ false) × (b ≡ false) × (r ≡ ok x)
both_passed true b e e' r {x} h = cc
both_passed false true e e' r {x} h = cc
both_passed false false e e' r {x} h = (refl, refl, h)

last_false : (x y z : Bool) → (x || y || z) ≡ false → z ≡ false
last_false true y z h = cc
last_false false true z h = cc
last_false false false z h = h

open_of_closed : (b : Bool) → not b ≡ false → b ≡ true
open_of_closed true h = refl
open_of_closed false h = cc

check_parts-eq-ok :
    (o : Option (Text × Text)) {x : Text × Text}
    → check_parts o ≡ ok x
    → (o ≡ some x) × (length x.1 ≤ 254)
check_parts-eq-ok none {x} h = cc
check_parts-eq-ok (some y) {x} h =
    let bad = is_empty y.0 || is_empty y.1 || ltb 254 (length y.1) in
    let (_, passed, same) = >>=-eq-ok (throw_if bad invalid_token) _ h in
    let good = throw_if-eq-ok bad _ passed in
    let e : y ≡ x = ok-injective same in (ap some e, subst (λ z. length z.1 ≤ 254) e (ground arith))

-- A token for an address is read back as the workspace and the address in lower case, if decoding
-- undoes the encoding of the workspace, a bar and the address, this encoding is not empty and has no
-- dot, nor is any signature empty or has one, the workspace has no bar, and neither the workspace nor
-- the address is empty and the latter has at most 254 units.
pub verify-unsubscribe_token :
    (m : Signing) (t email : Text)
    → m.decode (m.encode (t ++ b'|' ∷ m.lower email)) ≡ t ++ b'|' ∷ m.lower email
    → IsFree b'.' (m.encode (t ++ b'|' ∷ m.lower email))
    → is_empty (m.encode (t ++ b'|' ∷ m.lower email)) ≡ false
    → ((s : Text) → IsFree b'.' (m.hmac s) × (is_empty (m.hmac s) ≡ false))
    → IsFree b'|' t
    → is_empty t ≡ false
    → is_empty (m.lower email) ≡ false
    → length (m.lower email) ≤ 254
    → verify_unsubscribe_token m (unsubscribe_token m t email) ≡ ok (t, m.lower email)
unfolding verify_unsubscribe_token unsubscribe_token constant_time_equals
verify-unsubscribe_token m t email coded free filled signed bar some_tenant some_email short =
    let payload = m.encode (t ++ b'|' ∷ m.lower email) in
    let parts : split_on b'.' (payload ++ b'.' ∷ m.hmac payload) ≡ payload ∷ m.hmac payload ∷ [] =
      split_on-append b'.' payload (m.hmac payload) free
      ∙ ap (λ x. payload ∷ x) (split_on-free b'.' (m.hmac payload) (signed payload).0) in
    let cuts : cut b'|' (m.decode payload) ≡ some (t, m.lower email) =
      ap (cut b'|') coded ∙ cut-append b'|' t (m.lower email) bar in
    let fits : ltb 254 (length (m.lower email)) ≡ false = ground arith in
    let full : (is_empty t || is_empty (m.lower email) || ltb 254 (length (m.lower email)))
        ≡ false =
      rw (some_tenant, some_email, fits) refl in
    let formed : (is_empty payload || is_empty (m.hmac payload) || false) ≡ false =
      rw (filled, (signed payload).1) refl in
    let genuine : not (constant_time_equals (m.hmac payload) (m.hmac payload)) ≡ false =
      ap not (constant_time_equals_refl (m.hmac payload) (signed payload).1) in
    ap (verify_parts m) parts
    ∙ both_pass _ _ invalid_token invalid_token (check_parts (cut b'|' (m.decode payload))) formed
        genuine
    ∙ ap check_parts cuts
    ∙ rw full refl

verify_parts-eq-ok :
    (m : Signing) (parts : List Text) {x : Text × Text}
    → verify_parts m parts ≡ ok x
    → (payload : Text) × (rest : List Text) × (parts ≡ payload ∷ m.hmac payload ∷ rest)
      × (is_extra rest ≡ false)
      × (cut b'|' (m.decode payload) ≡ some x)
      × (length x.1 ≤ 254)
verify_parts-eq-ok m [] {x} h = cc
verify_parts-eq-ok m (payload ∷ []) {x} h = cc
verify_parts-eq-ok m (payload ∷ signature ∷ rest) {x} h =
    let bad = is_empty payload || is_empty signature || is_extra rest in
    let same = constant_time_equals signature (m.hmac payload) in
    let (formed, genuine, parts) =
      both_passed bad (not same) invalid_token invalid_token
        (check_parts (cut b'|' (m.decode payload))) h in
    let (found, short) = check_parts-eq-ok (cut b'|' (m.decode payload)) parts in
    let signed =
      eq_of_constant_time_equals signature (m.hmac payload) (open_of_closed same genuine) in
    (
      payload,
      rest,
      ap (λ x. payload ∷ x ∷ rest) signed,
      last_false (is_empty payload) (is_empty signature) (is_extra rest) formed,
      found,
      short,
    )

-- A token that is accepted has, before its first dot, a text, and between its first and its second
-- dot, or its end, the signature of this text; the workspace and the address that are read from it
-- stand before and after the first bar of the decoded text, and the address has at most 254 units.
pub verify_unsubscribe_token-IsSigned :
    (m : Signing) (token t email : Text)
    → verify_unsubscribe_token m token ≡ ok (t, email)
    → (payload : Text) × (rest : List Text) × (split_on b'.' token
        ≡ payload ∷ m.hmac payload ∷ rest)
      × (is_extra rest ≡ false)
      × (cut b'|' (m.decode payload) ≡ some (t, email))
      × (length email ≤ 254)
unfolding verify_unsubscribe_token
verify_unsubscribe_token-IsSigned m token t email h = verify_parts-eq-ok m (split_on b'.' token) h
