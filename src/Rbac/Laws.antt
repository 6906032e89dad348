-- ===== src/Rbac/Laws.antt =====
-- rbac.service.ts against the rules of the roles: who may do what, and where.
use oc.Base.{
  String, some, none, true, false, List, [], ◌∷◌, ◌≡◌, refl, ◌↔◌, ◌⊎◌, inl, inr, ◌≢◌, arith, eq_iff,
  Option,
}
use oc.Base.{ap, ◌∙◌, str_eq_refl, Bool-cases}
use oc.Base.Text.{truthy}
use oc.Base.Text.Truthy.{truthy-ne, ne-truthy}
use oc.Base.Exec.{ok, err, forbidden}
use oc.Contracts.{AuthContext, RoleCode, super_admin, tenant, tenant_admin, editor, reader}
use oc.Rbac.{
  is_cross_tenant, Permission, admin, record_read, record_write, role_allows, some_role_allows,
  assert_tenant_permission,
}

-- The rules: the global role and tenant_admin may do everything, an editor reads and writes, and a
-- reader reads.
pub data Grants : RoleCode → Permission → Type 0 where
  global : {p : Permission} → Grants super_admin p
  administrator : {p : Permission} → Grants (tenant tenant_admin) p
  editor_reads : Grants (tenant editor) record_read
  editor_writes : Grants (tenant editor) record_write
  reader_reads : Grants (tenant reader) record_read

-- Some role of the list grants the permission.
abbrev pub SomeGrants : List RoleCode → Permission → Type 0
SomeGrants [] p = ⊥
SomeGrants (r ∷ rs) p = Grants r p ⊎ SomeGrants rs p

-- A caller may act on a company with global authority, or as a member of that company, whose id is
-- not empty, with a role that grants the permission.
abbrev pub MayAct : AuthContext → String → Permission → Type 0
MayAct context company_id p =
    (context.is_super_admin ≡ true)
    ⊎ ((context.company_id ≡ some company_id) × (company_id ≢ "") × SomeGrants context.roles p)

role_allows_sound : (r : RoleCode) (p : Permission) → role_allows r p ≡ true → Grants r p
unfolding role_allows
role_allows_sound super_admin p h = global
role_allows_sound (tenant tenant_admin) p h = administrator
role_allows_sound (tenant editor) record_read h = editor_reads
role_allows_sound (tenant editor) record_write h = editor_writes
role_allows_sound (tenant reader) record_read h = reader_reads
role_allows_sound _ _ h = cc

role_allows_complete : {r : RoleCode} {p : Permission} → Grants r p → role_allows r p ≡ true
unfolding role_allows
role_allows_complete global = refl
role_allows_complete (administrator {p}) = all_granted p
  where
    all_granted : (p : Permission) → role_allows (tenant tenant_admin) p ≡ true
    all_granted admin = refl
    all_granted _ = refl
role_allows_complete editor_reads = refl
role_allows_complete editor_writes = refl
role_allows_complete reader_reads = refl

some_role_allows_sound :
    (rs : List RoleCode) (p : Permission) → some_role_allows rs p ≡ true → SomeGrants rs p
unfolding some_role_allows
some_role_allows_sound [] p h = cc
some_role_allows_sound (r ∷ rs) p h =
    ground (arith, role_allows_sound r p, some_role_allows_sound rs p)

some_role_allows_complete :
    (rs : List RoleCode) (p : Permission) → SomeGrants rs p → some_role_allows rs p ≡ true
unfolding some_role_allows
some_role_allows_complete [] p h = absurd h
some_role_allows_complete (r ∷ rs) p (inl g) = rw (role_allows_complete g)
some_role_allows_complete (r ∷ rs) p (inr g) = ground (arith, some_role_allows_complete rs p g)

is_cross_tenant-false :
    (o : Option String) (c : String) → is_cross_tenant o c ≡ false → (o ≡ some c) × (c ≢ "")
is_cross_tenant-false none c h = cc
is_cross_tenant-false (some d) c h =
    let same : d ≡ c = ground (arith, eq_iff d c) in
    let filled : truthy d ≡ true = ground arith in (ap some same, rw (← same) (truthy-ne d filled))

is_cross_tenant_own : (c : String) → c ≢ "" → is_cross_tenant (some c) c ≡ false
is_cross_tenant_own c h = rw (ne-truthy c h, str_eq_refl c)

-- The caller is a member, so the tests pass on to the roles.
member_may :
    (context : AuthContext) (company_id : String) (p : Permission)
    → context.company_id ≡ some company_id
    → company_id ≢ ""
    → SomeGrants context.roles p
    → assert_tenant_permission context company_id p ≡ ok tt
unfolding assert_tenant_permission
member_may context company_id p member filled g =
    let own : is_cross_tenant context.company_id company_id ≡ false =
      rw member (is_cross_tenant_own company_id filled) in
    ground (arith, some_role_allows_complete context.roles p g)

-- A permission on a company is granted exactly to a caller with global authority, or to a member
-- of that company, by an id that is not empty, with a role that grants it by the rules.
pub assert_tenant_permission-MayAct :
    (context : AuthContext) (company_id : String) (p : Permission)
    → (assert_tenant_permission context company_id p ≡ ok tt) ↔ MayAct context company_id p
unfolding assert_tenant_permission
assert_tenant_permission-MayAct context company_id p = (to, from)
  where
    to : assert_tenant_permission context company_id p ≡ ok tt → MayAct context company_id p
    to h = elim (Bool-cases context.is_super_admin) [
      | inl super ↦ inl super
      | inr ordinary ↦
          let own : is_cross_tenant context.company_id company_id ≡ false = ground arith in
          let allowed : some_role_allows context.roles p ≡ true = ground arith in
          let (member, filled) = is_cross_tenant-false _ _ own in
          inr (member, filled, some_role_allows_sound _ p allowed)
    ]

    from : MayAct context company_id p → assert_tenant_permission context company_id p ≡ ok tt
    from (inl super) = rw super
    from (inr (member, filled, g)) = member_may context company_id p member filled g

-- A denial says why: either that it is across tenants, and the caller is no member of the company
-- by an id that is not empty, or that the role is missing, and the caller is a member none of
-- whose roles grants the permission.
pub assert_tenant_permission-reason :
    (context : AuthContext) (company_id : String) (p : Permission) (message : String)
    → assert_tenant_permission context company_id p ≡ err (forbidden message)
    → ((message ≡ "Cross-tenant access is forbidden.")
        × ¬ ((context.company_id ≡ some company_id) × (company_id ≢ "")))
      ⊎ ((message ≡ "Insufficient tenant role permission.")
          × (context.company_id ≡ some company_id)
          × ¬ SomeGrants context.roles p)
unfolding assert_tenant_permission
assert_tenant_permission-reason context company_id p message h =
    elim (Bool-cases (is_cross_tenant context.company_id company_id)) [
      | inl across ↦ inl (
        ground arith,
        λ own.
            cc
              (ap (λ o. is_cross_tenant o company_id) own.0 ∙ is_cross_tenant_own company_id own.1),
      )
      | inr within ↦ inr (
        ground arith,
        (is_cross_tenant-false _ _ within).0,
        λ g. ground (arith, some_role_allows_complete context.roles p g),
      )
    ]
