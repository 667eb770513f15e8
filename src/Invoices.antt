-- ===== src/Invoices.antt =====
-- src/services/clientOrderInvoiceWorker.ts: invoices of orders on their way to managers: the rows, the
-- claim of an invoice by a worker, and the delivery over one channel. The bots, the validation by 1C
-- and the files are outside: an attempt has what they answer. Texts of errors are left out.
pub mod Runs
pub mod Once
pub mod Leases
mod Tests
use leader_product_api.Base.{
  ℕ, ◌+◌, ◌-◌, ◌*◌, ◌^◌, min, Bool, true, false, ◌&&◌, ◌||◌, not, Option, none, some, List, [], ◌∷◌,
  ◌++◌, ◌==◌, leb, ltb, if◌then◌else◌,
}
use leader_product_api.Table.{Table}
use leader_product_api.Orders.Export.{env_int}

pub data State : Type 0 where
  waiting queued sending available partial sent error superseded cancelled : State

pub data DeliveryState : Type 0 where
  pending sending sent error skipped : DeliveryState

pub record Invoice : Type 0 where
  pub id : ℕ
  pub order_id : ℕ
  pub state : State
  pub attempts : ℕ
  pub next_attempt_at : Option ℕ
  pub lease_until : Option ℕ
  pub sent_at : Option ℕ

pub record Delivery : Type 0 where
  pub state : DeliveryState
  pub attempts : ℕ
  pub next_attempt_at : Option ℕ
  pub sent_at : Option ℕ

-- RETRYABLE_STATES and PROCESSABLE_STATES
abbrev pub is_retryable : State → Bool
is_retryable queued = true
is_retryable sending = true
is_retryable partial = true
is_retryable error = true
is_retryable _ = false

abbrev pub is_available : State → Bool
is_available available = true
is_available _ = false

abbrev pub is_processable : State → Bool
is_processable s = is_retryable s || is_available s

abbrev pub is_past : Option ℕ → ℕ → Bool
is_past none now = true
is_past (some t) now = leb t now

abbrev pub has_id : ℕ → Invoice → Bool
has_id id i = i.id == id

-- The wait after the attempts, for the settings where they are numbers.
unfoldable pub backoff_ms : (base_raw max_raw : Option ℕ) → ℕ → ℕ
backoff_ms base_raw max_raw attempts =
    let base = env_int base_raw 15_000 1000 in
    min (env_int max_raw 900_000 base) (base * 2 ^ (attempts - 1))

module _ (now : ℕ) where
  abbrev pub is_claimable : ℕ → Invoice → Bool
  is_claimable id i = has_id id i && (is_processable i.state && is_past i.lease_until now)

  abbrev pub claimed : (lease : ℕ) → Invoice → Invoice
  claimed lease i = record i {
    state = State.sending;
    lease_until = some (now + lease);
    attempts = i.attempts + 1;
  }

  -- The first query of processInvoice: whether the invoice was claimed, and the table.
  unfoldable pub claim_invoice : Table Invoice → (lease id : ℕ) → List Invoice → Bool × List Invoice
  claim_invoice invoices lease id rows =
      let (n, after) = invoices.update_many (is_claimable id) (claimed lease) rows in
      (not (n == 0), after)

  -- The query of runOnce; whether the order wants an invoice is another column.
  abbrev pub is_candidate :
      (requested : ℕ → Bool) → (ready_at : Invoice → Option ℕ) → Invoice → Bool
  is_candidate requested ready_at i =
      (is_retryable i.state || (is_available i.state && requested i.order_id))
      && (is_past (ready_at i) now && (is_past i.next_attempt_at now && is_past i.lease_until now))

pub data DeliveryResult : Type 0 where
  sent skipped error superseded : DeliveryResult

pub data Message : Type 0 where
  document note : Message

-- One call of deliverChannel: the channel, whether 1C still has the candidate, whether the bot takes
-- each message, and whether the database takes the updates that follow: that the document was taken,
-- that all was delivered, and that the attempt has failed.
pub record Attempt : Type 0 where
  pub now : ℕ
  pub enabled : Bool
  pub recipient : Option ℕ
  pub is_valid : Bool
  pub takes_document : Bool
  pub takes_note : Bool
  pub records_document : Bool
  pub records_end : Bool
  pub records_error : Bool

abbrev pub is_sent : DeliveryState → Bool
is_sent sent = true
is_sent _ = false

abbrev pub is_none : Option ℕ → Bool
is_none none = true
is_none (some n) = false

module _ (backoff : ℕ → ℕ) (a : Attempt) where
  abbrev pub is_eligible : Bool
  is_eligible = a.enabled && not (is_none a.recipient)

  abbrev pub started : Delivery → Delivery
  started r = record r { state = DeliveryState.sending; attempts = r.attempts + 1 }

  abbrev pub failed : Delivery → Delivery
  failed r = record r {
    state = DeliveryState.error;
    next_attempt_at = some (a.now + backoff r.attempts);
  }

  abbrev pub document_taken : Delivery → Delivery
  document_taken r = record r { sent_at = some a.now; next_attempt_at = none }

  abbrev pub delivered : Delivery → Delivery
  delivered r = record r {
    state = DeliveryState.sent;
    sent_at = some a.now;
    next_attempt_at = none;
  }

  -- The `catch`: without a result, the update of the row throws in its turn.
  abbrev pub give_up : List Message → Delivery → Delivery × Option DeliveryResult × List Message
  give_up messages r =
      if a.records_error
      then (failed r, some DeliveryResult.error, messages)
      else (r, none, messages)

  -- The note that follows the document, and the update after it.
  abbrev pub send_note : List Message → Delivery → Delivery × Option DeliveryResult × List Message
  send_note before r =
      if not a.takes_note
      then give_up before r
      else if not a.records_end
      then give_up (before ++ (note ∷ [])) r
      else (delivered r, some DeliveryResult.sent, before ++ (note ∷ []))

  -- The `try`: a document that the bot has taken may go unrecorded.
  abbrev pub send : Delivery → Delivery × Option DeliveryResult × List Message
  send r =
      if not (is_none r.sent_at)
      then send_note [] r
      else if not a.takes_document
      then give_up [] r
      else if not a.records_document
      then give_up (document ∷ []) r
      else send_note (document ∷ []) (document_taken r)

  -- The delivery over a channel: its row, the result, and the messages that the bot has taken.
  -- A query that fails before the sending throws and leaves the row as it was, as if there was no call.
  unfoldable pub deliver_channel : Delivery → Delivery × Option DeliveryResult × List Message
  deliver_channel r =
      if is_sent r.state
      then (r, some DeliveryResult.sent, [])
      else if not is_eligible
      then (record r { state = DeliveryState.skipped }, some DeliveryResult.skipped, [])
      else if not (is_past r.next_attempt_at a.now)
      then (r, some DeliveryResult.error, [])
      else if not a.is_valid
      then (r, some DeliveryResult.superseded, [])
      else send (started r)

-- Attempts over one channel, one after the other.
unfoldable pub deliver_all : (ℕ → ℕ) → List Attempt → Delivery → Delivery × List Message
unfolding deliver_channel
deliver_all backoff [] r = (r, [])
deliver_all backoff (a ∷ rest) r =
    let (after, _, messages) = deliver_channel backoff a r in
    let (last, others) = deliver_all backoff rest after in (last, messages ++ others)

-- The state in which processInvoice leaves an invoice: whether anything was sent at all, and of the
-- channels that are on, how many there are, how many have sent and how many have failed.
unfoldable pub final_state : (has_sent : Bool) → (eligible delivered failures : ℕ) → State
final_state has_sent eligible delivered failures =
    if eligible == 0
    then if has_sent then State.sent else State.error
    else if failures == 0 && delivered == eligible
    then State.sent
    else if ltb 0 delivered
    then State.partial
    else State.error
