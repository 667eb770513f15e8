-- ===== src/ServiceAccess/Rows.antt =====
-- src/services/serviceAccess.ts: the two queries that load services, over the stored services with all
-- the rules of their tables. Each has its own conditions on the rules that it includes.
use leader_product_api.Base.{
  ℕ, ◌≡◌, Bool, true, ◌&&◌, ◌==◌, Option, none, some, List, map, keep, some_of, All, Member, Text,
  text_eq,
}
use leader_product_api.Table.{Table}
use leader_product_api.ServiceAccess.Context.{UserAccessContext, AccessUser, Roles}
use leader_product_api.ServiceAccess.Access.{Service}
use leader_product_api.ServiceAccess.Calls.{Queries}

-- `{ in: Array.from(ids) }`
abbrev pub is_in : List ℕ → ℕ → Bool
is_in ids id = some_of (λ i. i == id) ids

abbrev pub has_key : Text → Service → Bool
has_key key s = text_eq s.key key

-- The `include` of explainServiceAccessForUser.
abbrev pub explained_rows : UserAccessContext → Service → Service
explained_rows ctx s = record s {
  user_access = keep (λ r. r.user_id == ctx.user_id) s.user_access;
  department_role_access =
      keep (λ r. is_in ctx.department_ids r.department_id && is_in ctx.role_ids r.role_id)
        s.department_role_access;
  role_access = keep (λ r. is_in ctx.role_ids r.role_id) s.role_access;
  department_access = keep (λ r. is_in ctx.department_ids r.department_id) s.department_access;
}

-- The `include` of listServicesForUser.
abbrev pub listed_rows : UserAccessContext → Service → Service
listed_rows ctx s = record s {
  user_access = keep (λ r. r.user_id == ctx.user_id) s.user_access;
  department_role_access =
      keep (λ r. is_in ctx.department_ids r.department_id && is_in ctx.role_ids r.role_id)
        s.department_role_access;
  role_access = keep (λ r. is_in ctx.role_ids r.role_id) s.role_access;
  department_access = keep (λ r. is_in ctx.department_ids r.department_id) s.department_access;
}

-- `findMany` with `orderBy`: the rows that pass, in the order of the query.
pub record Many : Type 0 where
  pub find_many : (Service → Bool) → List Service → List Service
  pub find_many_found :
      (p : Service → Bool) (rows : List Service)
      → All (λ s. Member s rows × (p s ≡ true)) (find_many p rows)
  pub find_many_all :
      (p : Service → Bool) (rows : List Service) (s : Service)
      → Member s rows
      → p s ≡ true
      → Member s (find_many p rows)

-- The queries over the rows of the table of services.
module _ (roles : Roles) (find_user : ℕ → Option AccessUser) (services : Table Service)
    (many : Many) (rows : List Service) where
  abbrev pub active_services : List Service
  active_services = many.find_many (λ s. s.is_active) rows

  abbrev pub explained_service : UserAccessContext → Text → Option Service
  explained_service ctx key = elim (services.find_first (has_key key) rows) [
    | none ↦ none
    | some s ↦ some (explained_rows ctx s)
  ]

  abbrev pub stored_queries : Queries
  stored_queries = record {
    roles = roles;
    find_user = find_user;
    find_service = explained_service;
    find_active_services = λ ctx. map (listed_rows ctx) active_services;
  }
