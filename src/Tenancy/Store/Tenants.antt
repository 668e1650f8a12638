-- ===== src/Tenancy/Store/Tenants.antt =====
-- A tenant and its owner are read back as they were created, to the microsecond:
-- crates/sessionweft-saas-postgres/src/tenancy.rs, `create_tenant`, `get_tenant` and `membership`.
use sessionweft.Common.{
  ℕ, String, ◌≡◌, refl, sym, subst, ◌∙◌, true, false, inl, inr, Option, none, some, List, [], ◌∷◌,
  ◌++◌, any, ◌||◌, arith, Option-cases, Result, ok, is_ok, Io, find_where, find_where_last,
  find_where_updated, timestamptz, find_where-test, ◌==◌, str_eq, eq_iff, eq_refl,
}
use sessionweft.Tenancy.{TenancyError, Tenant, Membership, parse_principal}
use sessionweft.Tenancy.Store.{
  Tables, TenantRow, tenant_row, tenant_from_row, membership_from_row, read_row, is_membership,
  put_membership, membership_row, create_tenant, get_tenant, membership, transaction,
  insert_membership, insert_audit, refer_to_tenant,
}
use sessionweft.Tenancy.Texts.{status_from_text-status_text}

no_tenant :
    (id : ℕ) (slug : String) (rows : List TenantRow)
    → any (λ (r : TenantRow). r.id == id || str_eq r.slug slug) rows ≡ false
    → find_where (λ (r : TenantRow). r.id == id) rows ≡ none
unfolding any find_where
no_tenant id slug [] h = refl
no_tenant id slug (r ∷ rows) h = ground (arith, no_tenant id slug rows)

-- A tenant whose instants are those that the columns keep.
abbrev pub to_microseconds : Tenant → Tenant
to_microseconds t = record t {
  created_at = timestamptz t.created_at;
  updated_at = timestamptz t.updated_at;
}

read_tenant : (t : Tenant) → tenant_from_row (tenant_row t) ≡ ok (to_microseconds t)
unfolding tenant_from_row tenant_row
read_tenant t = let h = status_from_text-status_text t.status in ground arith

row_id : (t : Tenant) → ((tenant_row t).id == t.id) ≡ true
unfolding tenant_row
row_id t = ground arith

-- What `create_tenant` writes.
record Created (t : Tenant) (m : Membership) (s s' : Tables) : Type 0 where
  pub free : any (λ (r : TenantRow). r.id == t.id || str_eq r.slug t.slug) s.tenants ≡ false
  pub tenants_of : s'.tenants ≡ s.tenants ++ tenant_row t ∷ []
  pub members : s'.memberships ≡ put_membership m s.memberships
  pub same : m.tenant_id ≡ t.id

create_tenant-Created :
    (io : Io) (t : Tenant) (m : Membership) (s : Tables)
    → is_ok (create_tenant io t m s).0 ≡ true
    → Created t m s (create_tenant io t m s).1
unfolding create_tenant transaction insert_membership insert_audit refer_to_tenant
create_tenant-Created io t m s h = record {
  free = ground arith;
  tenants_of = ground arith;
  members = ground arith;
  same = ground arith;
}

put_membership-found :
    (m : Membership) (rows : List Membership)
    → (r : Membership) × (find_where
          (is_membership m.tenant_id m.principal_id)
          (put_membership m rows)
        ≡ some r)
      × (r.tenant_id ≡ m.tenant_id)
      × (r.principal_id ≡ m.principal_id)
      × (r.roles ≡ m.roles)
      × (r.updated_at ≡ timestamptz m.updated_at)
unfolding put_membership membership_row
put_membership-found m rows =
    elim (Option-cases (find_where (is_membership m.tenant_id m.principal_id) rows)) [
      | inl e ↦
          let last =
            find_where_last (is_membership m.tenant_id m.principal_id) (membership_row m) rows
              (ground (arith, eq_refl m.principal_id)) e in
          (membership_row m, ground arith, refl, refl, refl, refl)
      | inr (old, e) ↦
          let new : Membership = record old {
            roles = m.roles;
            updated_at = timestamptz m.updated_at;
          } in
          let there = find_where-test (is_membership m.tenant_id m.principal_id) old rows e in
          let found =
            find_where_updated (is_membership m.tenant_id m.principal_id)
              (λ (r : Membership). record r {
                roles = m.roles;
                updated_at = timestamptz m.updated_at;
              })
              old rows (λ r. refl) e in
          (
            new,
            ground arith,
            ground arith,
            ground (arith, eq_iff old.principal_id m.principal_id),
            refl,
            refl,
          )
    ]

read_member :
    (r : Membership)
    → parse_principal r.principal_id ≡ ok r.principal_id
    → membership_from_row r ≡ ok r
unfolding membership_from_row
read_member r h = ground arith

read_row-ok :
    {A B : Type 0} (from : A → Result TenancyError B) (r : Option A) (a : A) (b : B)
    → r ≡ some a
    → from a ≡ ok b
    → read_row from r ≡ ok (some b)
unfolding read_row
read_row-ok from r a b e f = ground arith

-- A tenant that was created is found by its identifier as it was given, its two instants to the
-- microsecond, and its owner is found by its principal with the roles and the instant of update that
-- were given, to the microsecond, where the principal is one that `parse` accepts as it is.
pub create_tenant-found :
    (io : Io) (t : Tenant) (m : Membership) (s : Tables)
    → is_ok (create_tenant io t m s).0 ≡ true
    → parse_principal m.principal_id ≡ ok m.principal_id
    → ((get_tenant t.id (create_tenant io t m s).1).0 ≡ ok (some (to_microseconds t)))
      × ((r : Membership) × ((membership t.id m.principal_id (create_tenant io t m s).1).0
            ≡ ok (some r))
          × (r.tenant_id ≡ t.id)
          × (r.principal_id ≡ m.principal_id)
          × (r.roles ≡ m.roles)
          × (r.updated_at ≡ timestamptz m.updated_at))
unfolding get_tenant membership
create_tenant-found io t m s h parsed =
    let c = create_tenant-Created io t m s h in
    let tenants_of = c.tenants_of in
    let members = c.members in
    let last =
      find_where_last (λ (r : TenantRow). r.id == t.id) (tenant_row t) s.tenants (row_id t)
        (no_tenant t.id t.slug s.tenants c.free) in
    let read = read_tenant t in
    let (r, found, at, by, roles, updated) = put_membership-found m s.memberships in
    let found' : find_where (is_membership t.id m.principal_id)
          (create_tenant io t m s).1.memberships
        ≡ some r =
      subst
        (λ n.
          find_where (is_membership n m.principal_id) (create_tenant io t m s).1.memberships
          ≡ some r)
        c.same
        (subst (λ rows. find_where (is_membership m.tenant_id m.principal_id) rows ≡ some r)
          (sym members) found) in
    let there : find_where (λ (x : TenantRow). x.id == t.id) (create_tenant io t m s).1.tenants
        ≡ some (tenant_row t) =
      rw tenants_of last in
    let back = read_member r (subst (λ p. parse_principal p ≡ ok p) (sym by) parsed) in
    (
      read_row-ok tenant_from_row _ (tenant_row t) (to_microseconds t) there read,
      (r, read_row-ok membership_from_row _ r r found' back, at ∙ c.same, by, roles, updated),
    )
