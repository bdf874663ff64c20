-- ===== src/Crm/Coherence.antt =====
-- Every deal stands on a stage of its pipeline, and the pipeline is its tenant's.
use klyvero.Common.{
  ℕ, ◌≡◌, ◌≢◌, refl, sym, subst, ap, inl, inr, arith, Bool, true, false, ◌&&◌, List, [], ◌∷◌, ◌++◌,
  some, ◌==◌, ==_iff, ==_refl, any, Bool-cases, ok, >>=-eq-ok, ok-injective, or_throw,
  or_throw-eq-ok, find_first, update_many-All, All, All-map,
}
use klyvero.Crm.Pipelines.{listing, default_stages, add_default, ensured, pipelines}
use klyvero.Crm.{
  Pipeline, Stage, Deal, DealStatus, Db, DealDto, is_stage_of, check_parties, create_deal, is_deal,
  move, close,
}

-- The deal's stage is in its pipeline, which is a pipeline of its tenant.
abbrev pub IsPlaced : Db → Deal → Type 0
IsPlaced db d =
    any (λ s. is_stage_of db.pipelines d.tenant_id d.stage_id s && s.pipeline_id == d.pipeline_id)
      db.stages
    ≡ true

any_of_find_first {ℓ} :
    {A : Type ℓ} (p : A → Bool) (xs : List A) {a : A} → find_first p xs ≡ some a → any p xs ≡ true
unfolding find_first
any_of_find_first p [] {a} h = cc
any_of_find_first p (x ∷ xs) {a} h = ground (arith, any_of_find_first p xs {a = a})

nothing_found : (p : Stage → Bool) (s : Stage) → find_first p [] ≢ some s
unfolding find_first
nothing_found p s h = cc

first_is :
    (p : Stage → Bool) (t s : Stage) (ss : List Stage)
    → find_first p (t ∷ ss) ≡ some s
    → p t ≡ true
    → t ≡ s
unfolding find_first
first_is p t s ss h k = ground arith

later_is :
    (p : Stage → Bool) (t s : Stage) (ss : List Stage)
    → find_first p (t ∷ ss) ≡ some s
    → p t ≡ false
    → find_first p ss ≡ some s
unfolding find_first
later_is p t s ss h k = ground arith

any_stage :
    (p : Stage → Bool) (pipeline : ℕ) (ss : List Stage) (s : Stage)
    → find_first p ss ≡ some s
    → s.pipeline_id ≡ pipeline
    → any (λ t. p t && t.pipeline_id == pipeline) ss ≡ true
any_stage p pipeline [] s h e = absurd (nothing_found p s h)
any_stage p pipeline (t ∷ ss) s h e = elim (Bool-cases (p t)) [
  | inl k ↦ rw (k, ap (λ x. x.pipeline_id) (first_is p t s ss h k), e, ==_refl pipeline) refl
  | inr k ↦ rw k (any_stage p pipeline ss s (later_is p t s ss h k) e)
]

pub data Event : Db → Db → Type 0 where
  creates :
      (db db' : Db) (tenant : ℕ) (dto : DealDto) → create_deal db tenant dto ≡ ok db' → Event db db'
  moves : (db db' : Db) (tenant id stage : ℕ) → move db tenant id stage ≡ ok db' → Event db db'
  closes :
      (db : Db) (tenant id now : ℕ) (status : DealStatus) → Event db (close db tenant id now status)
  lists : (db : Db) (now tenant : ℕ) → Event db (pipelines now db tenant).0

pub data Reach (db : Db) : Db → Type 0 where
  here : Reach db db
  next : {y z : Db} → Reach db y → Event y z → Reach db z

abbrev pub IsCoherent : Db → Type 0
IsCoherent db = All (IsPlaced db) db.deals

create_deal-IsCoherent :
    (db db' : Db) (tenant : ℕ) (dto : DealDto)
    → create_deal db tenant dto ≡ ok db'
    → IsCoherent db
    → IsCoherent db'
unfolding create_deal
create_deal-IsCoherent db db' tenant dto h k =
    let (s, a, h₁) =
      >>=-eq-ok
        (or_throw
          (find_first
            (λ s.
              is_stage_of db.pipelines tenant dto.stage_id s && s.pipeline_id == dto.pipeline_id)
            db.stages)
          _)
        _ h in
    let (_, _, h₂) = >>=-eq-ok (check_parties db tenant dto) _ h₁ in
    let found =
      or_throw-eq-ok
        (find_first
          (λ s. is_stage_of db.pipelines tenant dto.stage_id s && s.pipeline_id == dto.pipeline_id)
          db.stages)
        _ a in
    subst IsCoherent (ok-injective h₂) (any_of_find_first _ db.stages found, k)

move-IsCoherent :
    (db db' : Db) (tenant id stage : ℕ)
    → move db tenant id stage ≡ ok db'
    → IsCoherent db
    → IsCoherent db'
unfolding move
move-IsCoherent db db' tenant id stage h k =
    let (d, _, h₁) = >>=-eq-ok (or_throw (find_first (is_deal tenant id) db.deals) _) _ h in
    let (s, a, h₂) =
      >>=-eq-ok (or_throw (find_first (is_stage_of db.pipelines tenant stage) db.stages) _) _ h₁ in
    let found = or_throw-eq-ok (find_first (is_stage_of db.pipelines tenant stage) db.stages) _ a in
    subst IsCoherent (ok-injective h₂) (
      update_many-All (IsPlaced db) (is_deal tenant id) _ db.deals
        (λ d _ mine. moved db tenant stage id s d found mine) k)
  where
    moved :
        (db : Db) (tenant stage id : ℕ) (s : Stage) (d : Deal)
        → find_first (is_stage_of db.pipelines tenant stage) db.stages ≡ some s
        → is_deal tenant id d ≡ true
        → IsPlaced db (record d { stage_id = stage; pipeline_id = s.pipeline_id })
    moved db tenant stage id s d found mine =
        let own : d.tenant_id ≡ tenant = (==_iff d.tenant_id tenant).0 (ground arith) in
        subst
          (λ t.
            any (λ x. is_stage_of db.pipelines t stage x && x.pipeline_id == s.pipeline_id)
              db.stages
            ≡ true)
          (sym own)
          (any_stage (is_stage_of db.pipelines tenant stage) s.pipeline_id db.stages s found refl)

close-IsCoherent :
    (db : Db) (tenant id now : ℕ) (status : DealStatus)
    → IsCoherent db
    → IsCoherent (close db tenant id now status)
unfolding close
close-IsCoherent db tenant id now status k =
    update_many-All (IsPlaced db) (is_deal tenant id) _ db.deals (λ d h _. h) k

any_mono {ℓ} :
    {A : Type ℓ} (p q : A → Bool) (xs : List A)
    → ((x : A) → p x ≡ true → q x ≡ true)
    → any p xs ≡ true
    → any q xs ≡ true
any_mono p q [] w h = cc
any_mono p q (x ∷ xs) w h = ground (arith, w x, any_mono p q xs w)

any_append {ℓ} :
    {A : Type ℓ} (p : A → Bool) (xs ys : List A) → any p ys ≡ true → any p (xs ++ ys) ≡ true
any_append p [] ys h = h
any_append p (x ∷ xs) ys h = ground (arith, any_append p xs ys h)

IsPlaced-grows :
    (now tenant : ℕ) (db : Db) (d : Deal) → IsPlaced db d → IsPlaced (add_default now tenant db) d
unfolding add_default
IsPlaced-grows now tenant db d h =
    let grown = (add_default now tenant db).pipelines in
    let old =
      any_mono
        (λ s. is_stage_of db.pipelines d.tenant_id d.stage_id s && s.pipeline_id == d.pipeline_id)
        (λ s. is_stage_of grown d.tenant_id d.stage_id s && s.pipeline_id == d.pipeline_id)
        db.stages (λ s e. ground arith) h in
    any_append _ (default_stages db.next_id) db.stages old

ensured-IsCoherent :
    (now tenant : ℕ) (db : Db) (rows : List (Pipeline × List Stage))
    → IsCoherent db
    → IsCoherent (ensured now tenant db rows).0
unfolding add_default
ensured-IsCoherent now tenant db [] k =
    All-map (IsPlaced db) (IsPlaced (add_default now tenant db)) db.deals
      (λ d h. IsPlaced-grows now tenant db d h) k
ensured-IsCoherent now tenant db (row ∷ rows) k = k

step-IsCoherent : (db db' : Db) → Event db db' → IsCoherent db → IsCoherent db'
unfolding pipelines
step-IsCoherent db db' (Event.creates _ _ tenant dto h) k =
    create_deal-IsCoherent db db' tenant dto h k
step-IsCoherent db db' (Event.moves _ _ tenant id stage h) k =
    move-IsCoherent db db' tenant id stage h k
step-IsCoherent db _ (Event.closes _ tenant id now status) k =
    close-IsCoherent db tenant id now status k
step-IsCoherent db _ (Event.lists _ now tenant) k =
    ensured-IsCoherent now tenant db (listing db tenant) k

-- Creating, moving and closing deals, and listing the pipelines, keeps every deal on a stage of its own pipeline, and that
-- pipeline one of the deal's workspace.
pub Reach-IsCoherent : (db db' : Db) → Reach db db' → IsCoherent db → IsCoherent db'
Reach-IsCoherent db _ Reach.here k = k
Reach-IsCoherent db z (Reach.next {y} r e) k = step-IsCoherent y z e (Reach-IsCoherent db y r k)
