-- ===== src/Webhooks/Dispatching.antt =====
-- What `dispatch` puts into the queue.
use klyvero.Common.{
  ℕ, ◌+◌, ◌≡◌, refl, ap, ◌∙◌, arith, Bool, ◌&&◌, ◌==◌, List, [], ◌∷◌, length, count_where, select,
  Text, text_eq, text_eq_refl,
}
use klyvero.Webhooks.{Endpoint, Payload, Delivery, Db}
use klyvero.Webhooks.Service.{listens, enqueue, enqueue_all, dispatch}

-- The deliveries of an event to an endpoint.
abbrev pub is_for : ℕ → Text → Delivery → Bool
is_for i event d = d.endpoint_id == i && text_eq d.event event

abbrev pub has_endpoint_id : ℕ → Endpoint → Bool
has_endpoint_id i e = e.id == i

enqueue_all-counts :
    (now : ℕ) (event : Text) (payload : Payload) (i : ℕ) (es : List Endpoint) (db : Db)
    → let after = enqueue_all now event payload es db in
      (count_where (is_for i event) after.deliveries
        ≡ count_where (is_for i event) db.deliveries + count_where (has_endpoint_id i) es)
      × (length after.deliveries ≡ length db.deliveries + length es)
      × (length after.jobs ≡ length db.jobs + length es)
unfolding enqueue_all enqueue count_where
enqueue_all-counts now event payload i [] db = (omega arith, omega arith, omega arith)
enqueue_all-counts now event payload i (e ∷ es) db =
    let same = text_eq_refl event in
    let (here, all, jobs) =
      enqueue_all-counts now event payload i es (enqueue now event payload e.id db) in
    (ground arith, omega (arith, all), omega (arith, jobs))

count_where-select-and :
    {A : Type 0} (p q : A → Bool) (xs : List A)
    → count_where q (select p xs) ≡ count_where (λ x. q x && p x) xs
unfolding count_where select
count_where-select-and p q [] = refl
count_where-select-and p q (x ∷ xs) = ground (arith, count_where-select-and p q xs)

length-select {ℓ} :
    {A : Type ℓ} (p : A → Bool) (xs : List A) → length (select p xs) ≡ count_where p xs
unfolding count_where select
length-select p [] = refl
length-select p (x ∷ xs) = ground (arith, length-select p xs)

-- A dispatch adds, for every endpoint identifier, as many deliveries of the event as there are active
-- endpoints of the workspace with this identifier that listen to the event; in all it adds as many
-- deliveries, and as many jobs, as there are such endpoints, which is the number it answers.
pub dispatch-queues :
    (payload_id : Text) (now : ℕ) (db : Db) (tenant : ℕ) (event body : Text) (i : ℕ)
    → let after = dispatch payload_id now db tenant event body in
      let listening = count_where (listens tenant event) db.endpoints in
      (count_where (is_for i event) after.0.deliveries
        ≡ count_where (is_for i event) db.deliveries
          + count_where (λ e. has_endpoint_id i e && listens tenant event e) db.endpoints)
      × (length after.0.deliveries ≡ length db.deliveries + listening)
      × (length after.0.jobs ≡ length db.jobs + listening)
      × (after.1 ≡ listening)
unfolding dispatch
dispatch-queues payload_id now db tenant event body i =
    let es = select (listens tenant event) db.endpoints in
    let (mine, all, jobs) =
      enqueue_all-counts now event
        (record { id = payload_id; event = event; created_at = now; body = body }) i es db in
    let chosen = count_where-select-and (listens tenant event) (has_endpoint_id i) db.endpoints in
    let listening = length-select (listens tenant event) db.endpoints in
    (
      mine ∙ ap (λ n. count_where (is_for i event) db.deliveries + n) chosen,
      all ∙ ap (λ n. length db.deliveries + n) listening,
      jobs ∙ ap (λ n. length db.jobs + n) listening,
      listening,
    )
