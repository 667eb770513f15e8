-- ===== src/ServiceAccess/Agreement.antt =====
-- src/services/serviceAccess.ts: the list of a user's services against the access to each of them, which
-- are loaded and decided by code of their own.
use mathlib.Core.Path.{ap, subst, sym}
use leader_product_api.Base.{
  ℕ, suc, ◌∙◌, ◌≤◌, ◌≡◌, refl, inl, inr, Bool, true, false, ◌||◌, Option, some, List, [], ◌∷◌, map,
  All, if◌then◌else◌, Bool-cases, Option-cases, Text, count, count_unique, count-eq-zero, count-pos,
  Member, arith, text_eq_refl, All-intro, All-Member,
}
use leader_product_api.Table.{Table}
use leader_product_api.ServiceAccess.Context.{UserAccessContext, AccessUser, Roles}
use leader_product_api.ServiceAccess.Access.{Service, decide}
use leader_product_api.ServiceAccess.Calls.{
  Queries, resolve_service_access_for_user, list_services_for_user, found, Listing, Resolved,
  ServiceAccessView, context_of, to_service_access_view, listed, decide_listed,
}
use leader_product_api.ServiceAccess.Answers.{resolution, resolved-explain, resolved_found}
use leader_product_api.ServiceAccess.Rows.{
  has_key, explained_rows, listed_rows, Many, active_services, explained_service, stored_queries,
}

map_id : {A : Type 0} (f : A → A) → ((x : A) → f x ≡ x) → (xs : List A) → map f xs ≡ xs
map_id f h [] = refl
map_id f h (x ∷ xs) = ground (arith, h x, map_id f h xs)

-- The two mappings of the rules that were loaded come to the same decision.
decide_listed-decide : (ctx : UserAccessContext) (s : Service) → decide_listed ctx s ≡ decide ctx s
unfolding decide_listed decide
decide_listed-decide ctx s =
    rw (map_id _ (λ x. refl) s.user_access, map_id _ (λ x. refl) s.department_access) refl

module _ (roles : Roles) (find_user : ℕ → Option AccessUser) (services : Table Service)
    (many : Many) (rows : List Service) (unique : (key : Text) → count (has_key key) rows ≤ 1) where
  -- A stored service is found by its key.
  explained_service-stored :
      (ctx : UserAccessContext) (s : Service)
      → Member s rows
      → explained_service roles find_user services many rows ctx s.key ≡ some (explained_rows ctx s)
  explained_service-stored ctx s m =
      elim (Option-cases (services.find_first (has_key s.key) rows)) [
        | inl e ↦
            let absent =
              count-eq-zero (has_key s.key) rows (services.find_first_missing _ rows e) in
            let present = count-pos (has_key s.key) rows s m (text_eq_refl s.key) in
            let absurd : ⊥ = omega (arith, absent, present) in elim absurd [ ]
        | inr (t, e) ↦
            let (n, k) = services.find_first_found (has_key s.key) rows t e in
            let same : t ≡ s =
              count_unique (has_key s.key) rows t s (unique s.key) n k m (text_eq_refl s.key) in
            rw (e, explained_service) (ap (λ z. some (explained_rows ctx z)) same)
      ]

  module _ (n : ℕ) (user : AccessUser) (user_found : find_user (suc n) ≡ some user) where
    abbrev q : Queries
    q = stored_queries roles find_user services many rows

    abbrev ctx : UserAccessContext
    ctx = context_of q user

    -- A listed service and the access to it alone say the same.
    abbrev pub IsAgreed : ServiceAccessView → Type 0
    IsAgreed v =
        (r : Resolved) × (resolve_service_access_for_user q (suc n) v.key ≡ found r)
        × (v.id ≡ r.service.id)
        × (v.visible ≡ r.visible)
        × (v.enabled ≡ r.enabled)

    -- The view of a stored service with some flags, where the resolution comes to those.
    All-map-IsAgreed :
        (shows lets : Service → Bool)
        → ((s : Service)
            → resolution ctx.is_admin ctx.is_employee
                (decide ctx s).visible
                (decide ctx s).enabled
                s
              ≡ record { service = s; visible = shows s; enabled = lets s; is_employee = true })
        → (stored : List Service) → All (λ s. Member s rows) stored
        → All IsAgreed
            (map (λ s. to_service_access_view s (shows s) (lets s)) (map (listed_rows ctx) stored))
    All-map-IsAgreed shows lets h [] k = tt
    All-map-IsAgreed shows lets h (s ∷ stored) (m, k) = (
      (
        record {
          service = explained_rows ctx s;
          visible = shows (listed_rows ctx s);
          enabled = lets (listed_rows ctx s);
          is_employee = true;
        },
        resolved_found q n user user_found s.key (explained_rows ctx s)
              (explained_service-stored ctx s m)
            ∙ ap found (resolved-explain q ctx (explained_rows ctx s) ∙ h (explained_rows ctx s)),
        refl,
        refl,
        refl,
      ),
      All-map-IsAgreed shows lets h stored k,
    )

    map-to_view_id :
        (shows lets : Service → Bool) (stored : List Service)
        → map
            (λ v. v.id)
            (map (λ s. to_service_access_view s (shows s) (lets s)) (map (listed_rows ctx) stored))
          ≡ map (λ s. s.id) stored
    map-to_view_id shows lets [] = refl
    map-to_view_id shows lets (s ∷ stored) =
        ap (λ ids. s.id ∷ ids) (map-to_view_id shows lets stored)

    -- Where no two services share a key, the list of a user's services is always produced. An
    -- administrator or employee is listed every active service, anybody else none; and of each listed
    -- service the list, by its own query and mapping of the rules, says what the access to that
    -- service alone says.
    pub list_agrees :
        (l : Listing) × (list_services_for_user q (suc n) ≡ found l)
        × (l.is_employee ≡ (ctx.is_admin || ctx.is_employee))
        × (map (λ v. v.id) l.services ≡ (
            if l.is_employee
            then map (λ s. s.id) (active_services roles find_user services many rows)
            else []))
        × All IsAgreed l.services
    unfolding list_services_for_user
    list_agrees = elim (Bool-cases ctx.is_admin) [
      | inl a ↦ (
        record {
          services = map (λ s. to_service_access_view s true true) (q.find_active_services ctx);
          is_employee = true;
        },
        rw (user_found, list_services_for_user) (rw a refl),
        rw a refl,
        map-to_view_id (λ s. true) (λ s. true) _,
        All-map-IsAgreed (λ s. true) (λ s. true) (λ s. rw a refl) _ stored,
      )
      | inr a ↦ elim (Bool-cases ctx.is_employee) [
        | inr e ↦ (
          record { services = []; is_employee = false },
          rw (user_found, list_services_for_user) (rw (a, e) refl),
          rw (a, e) refl,
          refl,
          tt,
        )
        | inl e ↦ (
          record { services = map (listed ctx) (q.find_active_services ctx); is_employee = true },
          rw (user_found, list_services_for_user) (rw (a, e) refl),
          rw (a, e) refl,
          map-to_view_id (λ s. (decide_listed ctx s).visible) (λ s. (decide_listed ctx s).enabled)
              _,
          All-map-IsAgreed (λ s. (decide_listed ctx s).visible) (λ s. (decide_listed ctx s).enabled)
              (λ s.
                subst
                  (λ z.
                    resolution ctx.is_admin ctx.is_employee (decide ctx s).visible
                      (decide ctx s).enabled s
                    ≡ record {
                      service = s;
                      visible = z.visible;
                      enabled = z.enabled;
                      is_employee = true;
                    })
                  (sym (decide_listed-decide ctx s)) (rw (a, e) refl))
              _ stored,
        )
      ]
    ]
      where
        stored : All (λ s. Member s rows) (many.find_many (λ s. s.is_active) rows)
        stored =
            All-intro _ (many.find_many (λ s. s.is_active) rows)
              λ s m. (All-Member _ _ s (many.find_many_found (λ s. s.is_active) rows) m).0
