-- ===== src/Invoices/Once.antt =====
-- src/services/clientOrderInvoiceWorker.ts: how often the bot takes the document of an invoice over a channel.
use leader_product_api.Base.{
  ℕ, ◌+◌, ◌≤◌, ◌≡◌, inl, inr, Bool, true, false, ◌&&◌, not, List, [], ◌∷◌, ◌++◌, count, arith,
  if◌then◌else◌, Option-cases, Bool-cases, none, ◌⊎◌,
}
use leader_product_api.Invoices.{
  Delivery, Attempt, Message, document, note, deliver_channel, deliver_all, is_sent, is_none,
}

abbrev pub is_document : Message → Bool
is_document document = true
is_document note = false

-- How many documents a row still allows.
abbrev allowance : Delivery → ℕ
allowance r = if is_none r.sent_at && not (is_sent r.state) then 1 else 0

count-append :
    (xs ys : List Message)
    → count is_document (xs ++ ys) ≡ count is_document xs + count is_document ys
count-append [] ys = omega arith
count-append (x ∷ xs) ys = ground (arith, count-append xs ys)

-- An attempt in which the bot takes the document and the database not the update that says so.
abbrev pub loses : Attempt → Bool
loses a = a.takes_document && not a.records_document

abbrev lost : Attempt → ℕ
lost a = if loses a then 1 else 0

module _ (backoff : ℕ → ℕ) where
  -- An attempt uses up what it sends, if it records it.
  deliver_channel-allowance :
      (a : Attempt) (r : Delivery)
      → count is_document (deliver_channel backoff a r).2
          + allowance (deliver_channel backoff a r).0
        ≤ allowance r + lost a
  unfolding deliver_channel
  deliver_channel-allowance a r = elim (Option-cases r.sent_at) [
    | inl e ↦ ground (arith, e)
    | inr (t, e) ↦ ground (arith, e)
  ]

  deliver_all-allowance :
      (attempts : List Attempt) (r : Delivery)
      → count is_document (deliver_all backoff attempts r).1 ≤ allowance r + count loses attempts
  unfolding deliver_all
  deliver_all-allowance [] r = omega arith
  deliver_all-allowance (a ∷ rest) r = ground (
    arith,
    deliver_channel-allowance a r,
    deliver_all-allowance rest (deliver_channel backoff a r).0,
    count-append (deliver_channel backoff a r).2
        (deliver_all backoff rest (deliver_channel backoff a r).0).1,
  )

module _ (backoff : ℕ → ℕ) where
  -- What was allowed and is not any more has been sent.
  deliver_channel-used :
      (a : Attempt) (r : Delivery)
      → allowance r
        ≤ count is_document (deliver_channel backoff a r).2
          + allowance (deliver_channel backoff a r).0
  unfolding deliver_channel
  deliver_channel-used a r = elim (Option-cases r.sent_at) [
    | inl e ↦ ground (arith, e)
    | inr (t, e) ↦ ground (arith, e)
  ]

  deliver_all-used :
      (attempts : List Attempt) (r : Delivery)
      → allowance r
        ≤ count is_document (deliver_all backoff attempts r).1
          + allowance (deliver_all backoff attempts r).0
  unfolding deliver_all
  deliver_all-used [] r = omega arith
  deliver_all-used (a ∷ rest) r = ground (
    arith,
    deliver_channel-used a r,
    deliver_all-used rest (deliver_channel backoff a r).0,
    count-append (deliver_channel backoff a r).2
        (deliver_all backoff rest (deliver_channel backoff a r).0).1,
  )

-- Over any attempts on a channel, one after the other, from a row that is new, whatever the bots, 1C and
-- the settings answer: the bot takes at most one document more than there are attempts in which it
-- takes the document and the update that records this fails, so at most one where no such update fails;
-- and a row that is sent at the end has had its document taken.
pub deliver_all_once :
    (backoff : ℕ → ℕ) (attempts : List Attempt) (r : Delivery)
    → r.sent_at ≡ none
    → is_sent r.state ≡ false
    → (count is_document (deliver_all backoff attempts r).1 ≤ 1 + count loses attempts)
      × ((is_sent (deliver_all backoff attempts r).0.state ≡ false)
          ⊎ (1 ≤ count is_document (deliver_all backoff attempts r).1))
deliver_all_once backoff attempts r unsent open_row = (
  ground (arith, deliver_all-allowance backoff attempts r),
  elim (Bool-cases (is_sent (deliver_all backoff attempts r).0.state)) [
    | inr e ↦ inl e
    | inl e ↦ inr (ground (arith, deliver_all-used backoff attempts r, unsent, open_row, e))
  ],
)
