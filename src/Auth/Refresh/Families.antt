-- ===== src/Auth/Refresh/Families.antt =====
-- How the updates of the session table act on a family of sessions.
use klyvero.Common.{
  ℕ, ◌+◌, ◌≤◌, ◌≡◌, refl, sym, ◌∙◌, inl, inr, arith, Bool, true, ◌&&◌, List, [], ◌∷◌, Text, ◌==◌,
  Bool-cases, All, count_where, update_many,
}
use klyvero.Auth.Model.{Session, Revocation, is_live, revoke}
use klyvero.Auth.Refresh.{revoke_family, is_claimable, replaced}

-- The row is the same session, and no more live than it was.
abbrev pub IsWeaker : Session → Session → Type 0
IsWeaker s t = (t.id ≡ s.id) × (t.family_id ≡ s.family_id) × (is_live t ≡ true → is_live s ≡ true)

-- The table has the same sessions, none of them more live than it was.
abbrev pub AreWeaker : List Session → List Session → Type 0
AreWeaker [] [] = Unit
AreWeaker [] (t ∷ ts) = ⊥
AreWeaker (s ∷ ss) [] = ⊥
AreWeaker (s ∷ ss) (t ∷ ts) = IsWeaker s t × AreWeaker ss ts

pub AreWeaker-refl : (ss : List Session) → AreWeaker ss ss
AreWeaker-refl [] = tt
AreWeaker-refl (s ∷ ss) = ((refl, refl, λ h. h), AreWeaker-refl ss)

pub AreWeaker-trans :
    (ss ts us : List Session) → AreWeaker ss ts → AreWeaker ts us → AreWeaker ss us
AreWeaker-trans [] [] [] h k = tt
AreWeaker-trans [] [] (u ∷ us) h k = elim k [ ]
AreWeaker-trans [] (t ∷ ts) us h k = elim h [ ]
AreWeaker-trans (s ∷ ss) [] us h k = elim h [ ]
AreWeaker-trans (s ∷ ss) (t ∷ ts) [] h k = elim k [ ]
AreWeaker-trans (s ∷ ss) (t ∷ ts) (u ∷ us) ((a, b, c), h) ((a', b', c'), k) =
    ((a' ∙ a, b' ∙ b, λ l. c (c' l)), AreWeaker-trans ss ts us h k)

pub update_many-AreWeaker :
    (p : Session → Bool) (f : Session → Session) (ss : List Session)
    → ((s : Session) → IsWeaker s (f s))
    → AreWeaker ss (update_many p f ss)
unfolding update_many
update_many-AreWeaker p f [] w = tt
update_many-AreWeaker p f (s ∷ ss) w = elim (Bool-cases (p s)) [
  | inl e ↦ (rw e (w s), update_many-AreWeaker p f ss w)
  | inr e ↦ (rw e (refl, refl, λ h. h), update_many-AreWeaker p f ss w)
]

pub revoke-IsWeaker : (now : ℕ) (why : Revocation) (s : Session) → IsWeaker s (revoke now why s)
revoke-IsWeaker now why s = (refl, refl, ground arith)

abbrev pub is_live_in : ℕ → Session → Bool
is_live_in family s = s.family_id == family && is_live s

pub count_live-le :
    (family : ℕ) (ss ts : List Session)
    → AreWeaker ss ts
    → count_where (is_live_in family) ts ≤ count_where (is_live_in family) ss
unfolding count_where
count_live-le family [] [] h = omega arith
count_live-le family [] (t ∷ ts) h = elim h [ ]
count_live-le family (s ∷ ss) [] h = elim h [ ]
count_live-le family (s ∷ ss) (t ∷ ts) (h, k) = ground (arith, count_live-le family ss ts k)

-- Every row with the identifier of `s` has its family.
abbrev pub AreKin : Session → List Session → Type 0
AreKin s ss = All (λ r. r.id ≡ s.id → r.family_id ≡ s.family_id) ss

pub AreKin-weaker :
    (s : Session) (ss ts : List Session) → AreWeaker ss ts → AreKin s ss → AreKin s ts
AreKin-weaker s [] [] w h = tt
AreKin-weaker s [] (t ∷ ts) w h = elim w [ ]
AreKin-weaker s (r ∷ ss) [] w h = elim w [ ]
AreKin-weaker s (r ∷ ss) (t ∷ ts) ((a, b, c), w) (h, k) =
    (λ e. b ∙ h (sym a ∙ e), AreKin-weaker s ss ts w k)

-- What the claim takes away from the live sessions of its family.
pub count_live-claimed :
    (now : ℕ) (next_hash : Text) (s : Session) (ss : List Session)
    → AreKin s ss
    → count_where
          (is_live_in s.family_id)
          (update_many (is_claimable s) (replaced now next_hash) ss)
        + count_where (is_claimable s) ss
      ≡ count_where (is_live_in s.family_id) ss
unfolding count_where update_many
count_live-claimed now next_hash s [] h = refl
count_live-claimed now next_hash s (r ∷ ss) (h, k) =
    ground (arith, count_live-claimed now next_hash s ss k)

-- The claim takes no more than the live sessions of the family.
pub count_claimable-le :
    (s : Session) (ss : List Session)
    → AreKin s ss
    → count_where (is_claimable s) ss ≤ count_where (is_live_in s.family_id) ss
unfolding count_where
count_claimable-le s [] h = omega arith
count_claimable-le s (r ∷ ss) (h, k) = ground (arith, count_claimable-le s ss k)

-- Revoking a family leaves nothing live in it.
pub revoke_family-none :
    (now : ℕ) (why : Revocation) (family : ℕ) (ss : List Session)
    → count_where (is_live_in family) (revoke_family now why family ss) ≡ 0
unfolding count_where update_many revoke_family
revoke_family-none now why family [] = refl
revoke_family-none now why family (s ∷ ss) = ground (arith, revoke_family-none now why family ss)
