-- ===== src/Contracts.antt =====
-- packages/contracts/src/index.ts: the types that cross the boundary of API and web.
use oc.Base.{String, Option, List, Bool, true, false, ◌||◌}
use oc.Base.{[], ◌∷◌, ◌≡◌, ◌↔◌, arith}

-- `TenantRole`
pub data TenantRole : Type 0 where
  tenant_admin editor reader : TenantRole

-- `RoleCode`: the global role or a tenant role
pub data RoleCode : Type 0 where
  super_admin : RoleCode
  tenant : TenantRole → RoleCode

pub data BootstrapAccessMode : Type 0 where
  temporary_password invite_link one_time_token : BootstrapAccessMode

pub record AuthContext : Type 0 where
  pub user_id : String
  pub company_id : Option String
  pub roles : List RoleCode
  pub is_super_admin : Bool
  pub source_ip : Option String

pub record LoginRequest : Type 0 where
  pub username : String
  pub password : String

pub record LoginResponse : Type 0 where
  pub user_id : String
  pub roles : List RoleCode
  pub is_super_admin : Bool

pub record CreateCompanyRequest : Type 0 where
  pub company_name : String
  pub admin_email : String

-- The source's field `forceRotateOnFirstUse` has the type `true`; it is kept a Boolean here.
pub record CreateCompanyResponse : Type 0 where
  pub company_id : String
  pub admin_user_id : String
  pub bootstrap_access_mode : BootstrapAccessMode
  pub force_rotate_on_first_use : Bool

-- `metadata` holds strings only, as every caller in the source writes it.
pub record AuditEventInput : Type 0 where
  pub company_id : Option String
  pub actor_user_id : Option String
  pub source_ip : Option String
  pub event_type : String
  pub target_type : Option String
  pub target_id : Option String
  pub reason : String
  pub metadata : Option (List (String × String))

abbrev pub role_name : RoleCode → String
role_name super_admin = "super_admin"
role_name (tenant tenant_admin) = "tenant_admin"
role_name (tenant editor) = "editor"
role_name (tenant reader) = "reader"

abbrev pub is_super_admin_role : RoleCode → Bool
is_super_admin_role super_admin = true
is_super_admin_role (tenant _) = false

-- `roles.includes("super_admin")`
abbrev pub includes_super_admin : List RoleCode → Bool
includes_super_admin [] = false
includes_super_admin (r ∷ rs) = is_super_admin_role r || includes_super_admin rs

-- `===` on role codes
unfoldable pub role_eq : RoleCode → RoleCode → Bool
role_eq super_admin super_admin = true
role_eq (tenant tenant_admin) (tenant tenant_admin) = true
role_eq (tenant editor) (tenant editor) = true
role_eq (tenant reader) (tenant reader) = true
role_eq _ _ = false

pub role_eq_iff : (r s : RoleCode) → (role_eq r s ≡ true) ↔ (r ≡ s)
unfolding role_eq
role_eq_iff r s = ground arith
