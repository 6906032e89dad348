-- ===== src/Sql/Authority.antt =====
-- Global authority in the tables: who has it, and that no statement of the API gives or takes it.
use oc.Base.{
  String, Bool, true, false, some, List, [], ◌∷◌, ◌++◌, map, ◌≡◌, refl, sym, ap, ◌∙◌, not, is_some,
  if◌then◌else◌,
}
use oc.Contracts.{tenant, tenant_admin, role_eq}
use oc.Sql.Schema.{Role, User, UserRole, Tables, Session}
use oc.Sql.Policy.{Dialect}
use oc.Sql.Run.{Moment, select}
use oc.Sql.Rows.{tenant_admin_role_rows}
use oc.Sql.Execute.{update_target}
use oc.Sql.Identity.{Identity, identity, identity-update_target}
use oc.Sql.Writes.{Kept, nothing, company, admin, roles, audit_event, protection, bootstrap}

-- The users with the global administrator flag, by the columns that the login reads
abbrev pub global_admins : Tables → List Identity
global_admins t = map identity (select (λ (u : User). u.is_global_admin) t.users)

-- the role assignments of no company
abbrev pub global_assignments : Tables → List UserRole
global_assignments t = select (λ (r : UserRole). not (is_some r.company_id)) t.user_roles

pub record SameAuthority (t₀ t : Tables) : Type 0 where
  pub admins : global_admins t ≡ global_admins t₀
  pub assignments : global_assignments t ≡ global_assignments t₀
  pub roles : t.roles ≡ t₀.roles

pub SameAuthority-refl : (t : Tables) → SameAuthority t t
SameAuthority-refl t = record { admins = refl; assignments = refl; roles = refl }

carried : {t₀ t t' : Tables} → SameAuthority t t' → SameAuthority t₀ t → SameAuthority t₀ t'
carried k h = record {
  admins = k.admins ∙ h.admins;
  assignments = k.assignments ∙ h.assignments;
  roles = k.roles ∙ h.roles;
}

same_tables : {t t' : Tables} → t' ≡ t → SameAuthority t t'
same_tables e = record {
  admins = ap global_admins e;
  assignments = ap global_assignments e;
  roles = ap (λ (t : Tables). t.roles) e;
}

not_global :
    (user_id company_id : String) (rs : List Role) (old : List UserRole)
    → select
        (λ (r : UserRole). not (is_some r.company_id))
        (map
            (λ (r : Role). record {
              user_id = user_id;
              role_id = r.id;
              company_id = some company_id;
            })
            rs
          ++ old)
      ≡ select (λ (r : UserRole). not (is_some r.company_id)) old
unfolding select
not_global user_id company_id [] old = refl
not_global user_id company_id (r ∷ rs) old = not_global user_id company_id rs old

abbrev listed : Identity → List Identity → List Identity
listed i rest = if i.is_global_admin then i ∷ rest else rest

listed_if :
    (b : Bool) (u : User) (us : List User)
    → map identity (if b then u ∷ us else us)
      ≡ (if b then identity u ∷ map identity us else map identity us)
listed_if true u us = refl
listed_if false u us = refl

module _ (dialect : Dialect) (m : Moment) (s : Session) (user_id : String) where
  updated_admins :
      (us : List User)
      → map identity (
          select (λ (u : User). u.is_global_admin) (map (update_target dialect m.now s user_id) us))
        ≡ map identity (select (λ (u : User). u.is_global_admin) us)
  unfolding select
  updated_admins [] = refl
  updated_admins (u ∷ us) =
      let v = update_target dialect m.now s user_id u in
      listed_if v.is_global_admin v _
      ∙ ap (λ rest. listed (identity v) rest) (updated_admins us)
      ∙ ap (λ i. listed i (map identity (select (λ (u : User). u.is_global_admin) us)))
          (identity-update_target dialect m.now s user_id u)
      ∙ sym (listed_if u.is_global_admin u _)

pub SameAuthority-Kept : (dialect : Dialect) (t₀ : Tables) → Kept dialect (SameAuthority t₀)
unfolding tenant_admin_role_rows select
SameAuthority-Kept dialect t₀ m t t' (nothing e) h = carried (same_tables e) h
SameAuthority-Kept dialect t₀ m t t' (company name free e) h =
    carried (same_tables e)
      (record { admins = h.admins; assignments = h.assignments; roles = h.roles })
SameAuthority-Kept dialect t₀ m t t' (admin company_id email known free e) h =
    carried (same_tables e)
      (record { admins = h.admins; assignments = h.assignments; roles = h.roles })
SameAuthority-Kept dialect t₀ m t t' (roles user_id company_id user known free e) h =
    carried (same_tables e) (record {
      admins = h.admins;
      assignments =
          not_global user_id company_id
            (select (λ (r : Role). role_eq r.code (tenant tenant_admin)) t.roles) t.user_roles
          ∙ h.assignments;
      roles = h.roles;
    })
SameAuthority-Kept dialect t₀ m t t' (audit_event row fits e) h =
    carried (same_tables e)
      (record { admins = h.admins; assignments = h.assignments; roles = h.roles })
SameAuthority-Kept dialect t₀ m t t' (protection p fits e) h =
    carried (same_tables e)
      (record { admins = h.admins; assignments = h.assignments; roles = h.roles })
SameAuthority-Kept dialect t₀ m t t' (bootstrap session user_id e) h =
    carried (same_tables e) (record {
      admins = updated_admins dialect m session user_id t.users ∙ h.admins;
      assignments = h.assignments;
      roles = h.roles;
    })
