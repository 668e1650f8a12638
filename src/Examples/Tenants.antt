-- ===== src/Examples/Tenants.antt =====
-- A tenant with its owner and a quota: crates/sessionweft-saas-postgres/src/tenancy.rs.
use sessionweft.Common.{
  ℕ, ◌+◌, ◌≤◌, ◌≡◌, refl, ◌↔◌, ◌⊎◌, some, true, List, [], ◌∷◌, ok, is_ok, arith, Io, any,
  find_where, timestamptz, update_where, trim, is_blank,
}
use sessionweft.Tenancy.{
  Tenant, Membership, active, owner, sessions, session, workflow, QuotaReservation, TenantContext,
  parse_dimension, dimension_text, parse_kind, kind_text, parse_principal, from_membership,
  has_role,
}
use sessionweft.Tenancy.Texts.{parse_tenancy_iff}
use sessionweft.Tenancy.Service.{postgres, context, context-IsMember, is_active}
use sessionweft.Tenancy.Store.{
  Tables, create_tenant, get_tenant, membership, reserve_quota, owns_resource, set_quota,
  bind_resource, transaction, tenant_exists, tenant_from_row, membership_from_row, used, hard_limit,
}
use sessionweft.Tenancy.Store.Usage.{
  Request, Call, creates, limits, binds, reserves, run, empty, IsBalanced, run_tenancy-IsBalanced,
  reserve_quota-bounded,
}
use sessionweft.Tenancy.Store.Replays.{reserve_quota-replay}
use sessionweft.Tenancy.Store.Resources.{owned_for_good}
use sessionweft.Tenancy.Store.Tenants.{create_tenant-found}

abbrev at : ℕ → Io
at n = record { clock = λ k. n + k; uuid = λ k. n + k }

abbrev acme : Tenant
acme = record {
  id = 7;
  slug = "acme";
  display_name = "Acme";
  status = active;
  created_at = 1001;
  updated_at = 1002;
}

abbrev first_owner : Membership
first_owner = record {
  tenant_id = 7;
  principal_id = "ann";
  roles = owner ∷ [];
  created_at = 1;
  updated_at = 1;
}

abbrev call : ℕ → Request → Call
call n r = record { io = at n; request = r }

-- A quota of ten, reservations of six, of six again under the same key, and of five, which does not fit.
abbrev history : List Call
history =
    call 100 (creates acme first_owner)
    ∷ call 200
        (limits (record { tenant_id = 7; dimension = sessions; hard_limit = 10; updated_at = 2 }))
    ∷ call 300 (binds 7 workflow "w-1")
    ∷ call 400 (reserves 7 sessions 6 "one")
    ∷ call 500 (reserves 7 sessions 6 "one")
    ∷ call 600 (reserves 7 sessions 5 "two")
    ∷ []

abbrev tables : Tables
tables = run empty history

used_after : used 7 "sessions" tables ≡ 6
unfolding run used create_tenant set_quota bind_resource reserve_quota transaction dimension_text
    has_role any find_where update_where tenant_exists is_blank
used_after = refl

balance : is_ok (create_tenant (at 100) acme first_owner empty).0 ≡ true
unfolding create_tenant transaction has_role any tenant_exists
balance = refl

create_tenant-found_example :
    ((get_tenant 7 (create_tenant (at 100) acme first_owner empty).1).0
      ≡ ok (some (record acme { created_at = 1000; updated_at = 1000 })))
    × ((r : Membership) × ((membership 7 "ann" (create_tenant (at 100) acme first_owner empty).1).0
          ≡ ok (some r))
        × (r.tenant_id ≡ 7)
        × (r.principal_id ≡ "ann")
        × (r.roles ≡ owner ∷ [])
        × (r.updated_at ≡ 0))
unfolding parse_principal trim timestamptz
create_tenant-found_example = create_tenant-found (at 100) acme first_owner empty balance refl

-- The first reservation, and one of nine under its key.
abbrev six : QuotaReservation
six = record {
  tenant_id = 7;
  dimension = sessions;
  amount = 6;
  idempotency_key = "one";
  used_after = 6;
  hard_limit = 10;
}

abbrev limited : Tables
limited = run empty (
    call 100 (creates acme first_owner)
    ∷ call 200
        (limits (record { tenant_id = 7; dimension = sessions; hard_limit = 10; updated_at = 2 }))
    ∷ [])

six_reserved : (reserve_quota (at 400) 7 sessions 6 "one" limited).0 ≡ ok six
unfolding run used create_tenant set_quota reserve_quota transaction dimension_text has_role any
    find_where update_where tenant_exists is_blank
six_reserved = refl

reserve_quota-replay_example :
    reserve_quota (at 500) 7 sessions 9 "one" (reserve_quota (at 400) 7 sessions 6 "one" limited).1
    ≡ (ok six, (reserve_quota (at 400) 7 sessions 6 "one" limited).1)
reserve_quota-replay_example =
    reserve_quota-replay (at 400) (at 500) 7 sessions 6 9 "one" limited six six_reserved refl
      (ground arith)

bound : (owns_resource 7 workflow "w-1" (run empty history)).0 ≡ ok true
unfolding run owns_resource kind_text create_tenant set_quota bind_resource reserve_quota
    transaction dimension_text has_role any find_where update_where tenant_exists is_blank
bound = refl

bound_later : (owns_resource 7 workflow "w-1" (run (run empty history) history)).0 ≡ ok true
unfolding run owns_resource kind_text create_tenant set_quota bind_resource reserve_quota
    transaction dimension_text has_role any find_where update_where tenant_exists is_blank
bound_later = refl

owned_for_good_example : acme.id ≡ acme.id
owned_for_good_example = owned_for_good history history 7 7 workflow "w-1" bound bound_later

abbrev stored : Tables
stored = (create_tenant (at 100) acme first_owner empty).1

abbrev ann : TenantContext
ann = record { tenant_id = 7; principal_id = "ann"; roles = owner ∷ []; correlation_id = 9 }

given : (context postgres 7 "ann" 9 stored).0 ≡ ok ann
unfolding context get_tenant membership from_membership create_tenant transaction has_role any
    tenant_exists find_where parse_principal trim tenant_from_row membership_from_row
given = refl

context-IsMember_example :
    (tenant : Tenant) × (m : Membership) × (t : Tables) × (u : Tables) × (get_tenant 7 stored
      ≡ (ok (some tenant), t))
    × (is_active tenant.status ≡ true)
    × (membership 7 "ann" t ≡ (ok (some m), u))
    × (ann ≡ from_membership m 9)
context-IsMember_example = context-IsMember postgres 7 "ann" 9 stored ann given

parse_tenancy_iff_example :
    ((parse_dimension "sessions" ≡ ok sessions) ↔ ("sessions" ≡ dimension_text sessions))
    × ((parse_kind "session" ≡ ok session) ↔ ("session" ≡ kind_text session))
parse_tenancy_iff_example = parse_tenancy_iff "sessions" "session" sessions session

run_tenancy-IsBalanced_example : IsBalanced (run empty history)
run_tenancy-IsBalanced_example = run_tenancy-IsBalanced history

reserve_quota-bounded_example :
    (used 7 "sessions" (reserve_quota (at 700) 7 sessions 4 "three" tables).1
      ≡ used 7 "sessions" tables)
    ⊎ (used 7 "sessions" (reserve_quota (at 700) 7 sessions 4 "three" tables).1
        ≤ hard_limit 7 "sessions" tables)
reserve_quota-bounded_example =
    reserve_quota-bounded (at 700) 7 sessions 4 "three" tables 7 "sessions"
