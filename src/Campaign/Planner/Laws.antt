-- ===== src/Campaign/Planner/Laws.antt =====
-- The planner: which step comes next, and what is queued for it.
use klyvero.Common.{
  ℕ, ◌≤◌, ◌<◌, ◌≡◌, inl, inr, Bool, true, ◌&&◌, List, [], ◌∷◌, Option, none, some, arith, ltb, ◌==◌,
  Option-cases, All, head?, select, order_by, head-order_by-le, head?-All, order_by-All,
  All-order_by, select-All, select-holds, All-select, All-self, All-map, Memᴰ,
}
use klyvero.Campaign.Model.{Step, Db}
use klyvero.Campaign.Planner.{next_step}

-- The steps that may follow a position: active steps of the campaign, further on.
abbrev pub Follows : ℕ → ℕ → Step → Type 0
Follows campaign_id position s =
    (s.campaign_id ≡ campaign_id) × (s.is_on ≡ true) × (position < s.position)

abbrev follows : ℕ → ℕ → Step → Bool
follows campaign_id position s = s.campaign_id == campaign_id && s.is_on && ltb position s.position

follows-Follows : (c p : ℕ) (s : Step) → follows c p s ≡ true → Follows c p s
follows-Follows c p s h = ground arith

Follows-follows : (c p : ℕ) (s : Step) → Follows c p s → follows c p s ≡ true
Follows-follows c p s h = ground arith

-- The step that is found follows the position, is a step of the table, and no other that follows
-- stands before it.
pub record IsNext (db : Db) (campaign_id position : ℕ) (s : Step) : Type 0 where
  pub listed : Memᴰ s db.steps
  pub following : Follows campaign_id position s
  pub least : All (λ t. Follows campaign_id position t → s.position ≤ t.position) db.steps

next_step-IsNext : (db : Db) (c p : ℕ) (s : Step) → next_step db c p ≡ some s → IsNext db c p s
unfolding next_step
next_step-IsNext db c p s e =
    let rows = select (follows c p) db.steps in
    let key = λ (t : Step). t.position in
    record {
      listed =
          head?-All (λ t. Memᴰ t db.steps) (order_by key rows) e
            (order_by-All (λ t. Memᴰ t db.steps) key rows
              (select-All (λ t. Memᴰ t db.steps) (follows c p) db.steps (All-self db.steps)));
      following = follows-Follows c p s (
          head?-All (λ t. follows c p t ≡ true) (order_by key rows) e
            (order_by-All (λ t. follows c p t ≡ true) key rows
              (select-holds (follows c p) db.steps)));
      least =
          All-map (λ t. follows c p t ≡ true → s.position ≤ t.position)
            (λ t. Follows c p t → s.position ≤ t.position) db.steps
            (λ t h f. h (Follows-follows c p t f))
            (All-select (λ t. s.position ≤ t.position) (follows c p) db.steps
              (head-order_by-le key rows e));
    }

order_by-eq-nil {ℓ} :
    {A : Type ℓ} (key : A → ℕ) (xs : List A) → head? (order_by key xs) ≡ none → All (λ x. ⊥) xs
order_by-eq-nil {A} key xs e = All-order_by (λ x. ⊥) key xs (nothing (order_by key xs) e)
  where
    nothing : (ys : List A) → head? ys ≡ none → All (λ x. ⊥) ys
    nothing [] h = tt
    nothing (y ∷ ys) h = cc

next_step-none : (db : Db) (c p : ℕ) → next_step db c p ≡ none → All (λ t. ¬ Follows c p t) db.steps
unfolding next_step
next_step-none db c p e =
    All-map (λ t. follows c p t ≡ true → ⊥) (λ t. ¬ Follows c p t) db.steps
      (λ t h f. h (Follows-follows c p t f))
      (All-select (λ t. ⊥) (follows c p) db.steps
        (order_by-eq-nil (λ t. t.position) (select (follows c p) db.steps) e))

abbrev pub IsNextResult : Db → ℕ → ℕ → Option Step → Type 0
IsNextResult db c p none = All (λ t. ¬ Follows c p t) db.steps
IsNextResult db c p (some s) = IsNext db c p s

-- The planner finds the next active step of the campaign, the one with the least position after
-- the given one, and finds none exactly where no active step of the campaign stands further on.
pub next_step-IsNextResult : (db : Db) (c p : ℕ) → IsNextResult db c p (next_step db c p)
next_step-IsNextResult db c p = elim (Option-cases (next_step db c p)) [
  | inl e ↦ rw e (next_step-none db c p e)
  | inr (s, e) ↦ rw e (next_step-IsNext db c p s e)
]
