-- ===== src/Invoices/Runs.antt =====
-- src/services/clientOrderInvoiceWorker.ts: the updates of an invoice at the end of processInvoice, each of
-- which clears its lease, and the claims and ends of several runs one after the other.
use leader_product_api.Base.{
  ℕ, ◌+◌, ◌<◌, ◌≡◌, Bool, true, false, ◌&&◌, not, none, some, List, if◌then◌else◌, ◌==◌,
}
use leader_product_api.Table.{Table}
use leader_product_api.Invoices.{Invoice, State, has_id, claim_invoice}

abbrev is_superseded : State → Bool
is_superseded State.superseded = true
is_superseded _ = false

abbrev is_sent_state : State → Bool
is_sent_state State.sent = true
is_sent_state _ = false

-- How a run ends: the candidate is out of date, its file is stored for an order that wants no invoice, the
-- channels are through, or an error was thrown. `attempts` is the count that the run has read.
pub data End : Type 0 where
  replaced stored : End
  delivered : (now : ℕ) (final : State) (attempts : ℕ) → End
  failed : (now attempts : ℕ) → End

abbrev pub mark_superseded : Invoice → Invoice
mark_superseded i = record i { state = State.superseded; lease_until = none }

abbrev pub mark_available : Invoice → Invoice
mark_available i = record i { state = State.available; lease_until = none; next_attempt_at = none }

module _ (backoff : ℕ → ℕ) (now : ℕ) where
  abbrev pub mark_delivered : (final : State) (attempts : ℕ) → Invoice → Invoice
  mark_delivered final attempts i = record i {
    state = final;
    sent_at = if is_sent_state final then some now else none;
    lease_until = none;
    next_attempt_at = if is_sent_state final then none else some (now + backoff (attempts + 1));
  }

  abbrev pub mark_failed : (attempts : ℕ) → Invoice → Invoice
  mark_failed attempts i = record i {
    state = State.error;
    lease_until = none;
    next_attempt_at = some (now + backoff (attempts + 1));
  }

module _ (invoices : Table Invoice) (backoff : ℕ → ℕ) where
  unfoldable pub end_run : ℕ → End → List Invoice → List Invoice
  end_run id replaced rows = (invoices.update_many (has_id id) mark_superseded rows).1
  end_run id stored rows = (invoices.update_many (has_id id) mark_available rows).1
  end_run id (delivered now final attempts) rows =
      (invoices.update_many (has_id id) (mark_delivered backoff now final attempts) rows).1
  end_run id (failed now attempts) rows =
      (invoices.update_many (λ i. has_id id i && not (is_superseded i.state))
        (mark_failed backoff now attempts) rows).1

  -- What the workers do before `until` while the run over the invoice `id` goes on: claims of any
  -- invoices, that one included, and the ends of runs over others.
  pub data Between (id until : ℕ) (rows : List Invoice) : List Invoice → Type 0 where
    here : Between id until rows rows
    claims :
        {after : List Invoice} (now lease other : ℕ)
        → Between id until rows after
        → now < until
        → Between id until rows (claim_invoice now invoices lease other after).1
    ends :
        {after : List Invoice} (other : ℕ) (end : End)
        → Between id until rows after
        → (other == id) ≡ false
        → Between id until rows (end_run other end after)
