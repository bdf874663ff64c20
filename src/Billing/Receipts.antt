-- ===== src/Billing/Receipts.antt =====
-- Each event of the payment service counts once.
use klyvero.Common.{
  ℕ, ◌≡◌, refl, ap, ◌∙◌, arith, Bool, true, false, List, [], ◌∷◌, Text, text_eq, text_eq_refl,
  if◌then◌else◌, any,
}
use klyvero.Billing.{Db, StripeEvent}
use klyvero.Billing.Events.{process_event, reserve_event, receive}

-- Deliveries of events, each at its time, with whether what follows the receipt was stored.
pub record Delivery : Type 0 where
  pub now : ℕ
  pub stored : Bool
  pub event : StripeEvent

unfoldable pub receive_all : List Delivery → Db → Db
receive_all [] db = db
receive_all (d ∷ ds) db = receive_all ds (receive d.now d.stored db d.event).0

abbrev pub is_received : Text → Db → Bool
is_received id db = any (λ r. text_eq r id) db.receipts

process_event-receipts :
    (now : ℕ) (db : Db) (e : StripeEvent) → (process_event now db e).receipts ≡ db.receipts
unfolding process_event
process_event-receipts now db e = ground arith

receive-keeps :
    (now : ℕ) (stored : Bool) (db : Db) (e : StripeEvent) (id : Text)
    → is_received id db ≡ true
    → is_received id (receive now stored db e).0 ≡ true
unfolding receive reserve_event
receive-keeps now stored db e id h =
    ground (arith, process_event-receipts now (record db { receipts = e.id ∷ db.receipts }) e)

pub receive-receives :
    (now : ℕ) (stored : Bool) (db : Db) (e : StripeEvent)
    → is_received e.id (receive now stored db e).0 ≡ true
unfolding receive reserve_event
receive-receives now stored db e = ground (
  arith,
  text_eq_refl e.id,
  process_event-receipts now (record db { receipts = e.id ∷ db.receipts }) e,
)

receive_all-keeps :
    (ds : List Delivery) (db : Db) (id : Text)
    → is_received id db ≡ true
    → is_received id (receive_all ds db) ≡ true
unfolding receive_all
receive_all-keeps [] db id h = h
receive_all-keeps (d ∷ ds) db id h =
    receive_all-keeps ds (receive d.now d.stored db d.event).0 id
      (receive-keeps d.now d.stored db d.event id h)

receive_all-receives :
    (db : Db) (first : Delivery) (ds : List Delivery)
    → is_received first.event.id (receive_all (first ∷ ds) db) ≡ true
unfolding receive_all
receive_all-receives db first ds =
    receive_all-keeps ds (receive first.now first.stored db first.event).0 first.event.id
      (receive-receives first.now first.stored db first.event)

pub receive-again :
    (now : ℕ) (stored : Bool) (db : Db) (e : StripeEvent)
    → is_received e.id db ≡ true
    → receive now stored db e ≡ (db, true)
unfolding receive reserve_event
receive-again now stored db e h = rw (receive, reserve_event, h) refl

-- An event that was received once, whether or not its effect could be stored then, changes nothing
-- when it is delivered again after any other deliveries, and is answered as a duplicate.
pub receive-duplicate :
    (db : Db) (first : Delivery) (ds : List Delivery) (now : ℕ) (stored : Bool)
    → receive now stored (receive_all (first ∷ ds) db) first.event
      ≡ (receive_all (first ∷ ds) db, true)
receive-duplicate db first ds now stored =
    receive-again now stored (receive_all (first ∷ ds) db) first.event
      (receive_all-receives db first ds)

pub receive-first :
    (now : ℕ) (stored : Bool) (db : Db) (e : StripeEvent)
    → is_received e.id db ≡ false
    → receive now stored db e ≡ (
      if stored
          then process_event now (record db { receipts = e.id ∷ db.receipts }) e
          else record db { receipts = e.id ∷ db.receipts },
      false,
    )
unfolding receive reserve_event
receive-first now stored db e h = rw (receive, reserve_event, h) refl

-- An event whose effect could not be stored after its receipt was written is lost: delivered again it
-- is taken for a duplicate, and the subscriptions stay as they were before both deliveries.
pub receive-lost :
    (now later : ℕ) (db : Db) (e : StripeEvent)
    → is_received e.id db ≡ false
    → ((receive later true (receive now false db e).0 e).1 ≡ true)
      × ((receive later true (receive now false db e).0 e).0.subscriptions ≡ db.subscriptions)
receive-lost now later db e h =
    let once = ap (λ x. x.0) (receive-first now false db e h) in
    let twice =
      receive-again later true (receive now false db e).0 e (receive-receives now false db e) in
    (ap (λ x. x.1) twice, ap (λ x. x.0.subscriptions) twice ∙ ap (λ d. d.subscriptions) once)
