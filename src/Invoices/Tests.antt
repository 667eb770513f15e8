-- ===== src/Invoices/Tests.antt =====
-- An invoice with its deliveries, and the theorems at such inputs.
use leader_product_api.Base.{
  List, ◌⊎◌, ℕ, ◌+◌, ◌≤◌, ◌≡◌, refl, true, false, none, some, [], ◌∷◌, arith, count,
}
use leader_product_api.Table.{in_memory}
use leader_product_api.Invoices.{
  Invoice, Delivery, DeliveryState, Attempt, State, deliver_all, claim_invoice, backoff_ms, is_sent,
}
use leader_product_api.Invoices.Runs.{end_run, failed, here, claims, ends}
use leader_product_api.Invoices.Leases.{claim_excludes}
use leader_product_api.Invoices.Once.{is_document, loses, deliver_all_once}

abbrev invoice : Invoice
invoice = record {
  id = 1;
  order_id = 7;
  state = State.queued;
  attempts = 0;
  next_attempt_at = none;
  lease_until = none;
  sent_at = none;
}

abbrev undelivered : Delivery
undelivered = record {
  state = DeliveryState.pending;
  attempts = 0;
  next_attempt_at = none;
  sent_at = none;
}

-- The bot takes the document and then not the note.
abbrev note_refused : Attempt
note_refused = record {
  now = 10;
  enabled = true;
  recipient = some 53;
  is_valid = true;
  takes_document = true;
  takes_note = false;
  records_document = true;
  records_end = true;
  records_error = true;
}

abbrev all_taken : Attempt
all_taken = record note_refused { now = 60_000; takes_note = true }

one_document :
    count is_document
      (deliver_all (backoff_ms none none) (note_refused ∷ all_taken ∷ []) undelivered).1
    ≡ 1
unfolding deliver_all backoff_ms
one_document = refl

-- The database does not take the update that the document was sent.
abbrev unrecorded : Attempt
unrecorded = record note_refused { records_document = false }

-- The next attempt sends it again.
document_twice :
    count is_document
      (deliver_all (backoff_ms none none) (unrecorded ∷ all_taken ∷ []) undelivered).1
    ≡ 2
unfolding deliver_all backoff_ms
document_twice = refl

abbrev three : List Attempt
three = note_refused ∷ unrecorded ∷ all_taken ∷ []

deliver_all_once_example :
    (count is_document (deliver_all (backoff_ms none none) three undelivered).1
      ≤ 1 + count loses three)
    × ((is_sent (deliver_all (backoff_ms none none) three undelivered).0.state ≡ false)
        ⊎ (1 ≤ count is_document (deliver_all (backoff_ms none none) three undelivered).1))
deliver_all_once_example = deliver_all_once (backoff_ms none none) three undelivered refl refl

first_claims : (claim_invoice 10 in_memory 120_000 1 (invoice ∷ [])).0 ≡ true
unfolding claim_invoice
first_claims = refl

abbrev no_wait : ℕ → ℕ
no_wait n = 0

-- Another worker tries in between, and a run over another invoice fails.
claim_excludes_example :
    let after =
      end_run in_memory no_wait 2
        (failed 18 1)
        (claim_invoice 15 in_memory 120_000 1
          (claim_invoice 10 in_memory 120_000 1 (invoice ∷ [])).1).1 in
    (claim_invoice 20 in_memory 120_000 1 after).0 ≡ false
claim_excludes_example =
    claim_excludes in_memory no_wait 10 20 120_000 120_000 1 (invoice ∷ []) _ (omega arith)
      first_claims (ends 2 (failed 18 1) (claims 15 120_000 1 here (omega arith)) refl)
      (omega arith)
