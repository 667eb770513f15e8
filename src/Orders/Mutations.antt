-- ===== src/Orders/Mutations.antt =====
-- src/modules/clientOrders/clientOrders.service.ts: what a mutation of the mobile application may choose
-- for a stored order.
use leader_product_api.Base.{ℕ, ◌≡◌, ◌<◌, inl, inr, false, List, Option-cases, arith, ltb, ◌==◌}
use leader_product_api.Orders.{
  Order, Content, Change, refuse, unchanged, write, Refusal, bad_references, conflicting_payload,
  Event,
}
use leader_product_api.Orders.Manage.{ensure_editable, assert_can_be_submitted}
use leader_product_api.Orders.Edits.{if_exits, check_exits}
use leader_product_api.Orders.Mobile.{
  Mutation, mutation_change, resubmitted, mutated, revision_of, is_other_payload, is_settled,
  same_version, newer_version, checked_content, should_queue,
}

-- The updates of an order that a mutation may choose.
pub data Mutated (now user_id : ℕ) (body : Mutation) (o : Order) : (Order → Order) → Type 0 where
  resubmits :
      body.client_revision ≡ revision_of o
      → is_settled o body ≡ false
      → Mutated now user_id body o (resubmitted now user_id body)
  mutates :
      (content : Content)
      → revision_of o < body.client_revision
      → Mutated now user_id body o (mutated now user_id body content)

module _ (now user_id : ℕ) (body : Mutation) (o : Order) (Q : Change → Type 0)
    (refused : (r : Refusal) → Q (refuse r)) (kept : Q unchanged)
    (writes : (f : Order → Order) (events : List Event)
      → Mutated now user_id body o f
      → Q (write f events)) where
  same_exits : body.client_revision ≡ revision_of o → Q (same_version now user_id body o)
  same_exits e =
      if_exits Q (is_other_payload o body) _ _ (λ a. refused conflicting_payload)
        λ a.
          if_exits Q (is_settled o body) _ _ (λ b. kept)
            λ b. check_exits Q (ensure_editable o) _ refused λ c.
              check_exits Q (assert_can_be_submitted o.content) _ refused
                λ k. writes (resubmitted now user_id body) _ (resubmits e b)

  newer_exits : revision_of o < body.client_revision → Q (newer_version now user_id body o)
  newer_exits e = elim (Option-cases body.prepared) [
    | inl p ↦ rw (p, newer_version) (refused bad_references)
    | inr (content, p) ↦
        rw (p, newer_version)
          (check_exits Q
            (checked_content now user_id body (should_queue now user_id body o) content) _ refused
            λ c.
              check_exits Q (ensure_editable o) _ refused
                λ k. writes (mutated now user_id body content) _ (mutates content e))
  ]

  -- What a property has to show of the change that a mutation chooses.
  pub mutation_change_exits : Q (mutation_change now user_id body o)
  unfolding mutation_change
  mutation_change_exits =
      if_exits Q (ltb body.client_revision (revision_of o)) _ _ (λ a. kept)
        λ a.
          if_exits Q (body.client_revision == revision_of o) _ _
            (λ b. same_exits (ground (arith, b))) λ b. newer_exits (ground (arith, a, b))
