-- ===== src/Sql/Recorded.antt =====
-- A company with its administrator in the tables, and that no statement of the API removes them.
use oc.Base.{
  String, none, some, true, false, List, [], ◌∷◌, ◌++◌, map, ◌≡◌, ◌≢◌, refl, sym, ap, inl, inr,
}
use mathlib.Core.Path.{subst}
use oc.Contracts.{tenant, tenant_admin, role_eq}
use oc.Sql.Schema.{Role, User, UserRole, Tables, Session}
use oc.Sql.Policy.{Dialect}
use oc.Sql.Run.{Moment, select}
use oc.Sql.Rows.{tenant_admin_role_rows}
use oc.Sql.Execute.{update_target}
use oc.Sql.Effects.{with_company, with_admin, with_tenant_admin, with_audit_event}
use oc.Database.Statements.{AuditEventRow}
use oc.Sql.Identity.{Identity, identity, identity-update_target}
use oc.Sql.Writes.{Kept, nothing, company, admin, roles, audit_event, protection, bootstrap}
use oc.Auth.Credentials.Rows.{In, In-select}

-- an administrator of one company, without global authority and without a password
abbrev pub company_admin : (id email company_id : String) → Identity
company_admin id email company_id = record {
  id = id;
  email = email;
  company_id = some company_id;
  password_hash = none;
  is_global_admin = false;
}

abbrev pub assignment : (user_id company_id : String) → Role → UserRole
assignment user_id company_id role = record {
  user_id = user_id;
  role_id = role.id;
  company_id = some company_id;
}

-- The company is there, the user is its administrator, and a tenant_admin role is assigned to the
-- user for this company.
pub record IsRecorded (company_id company_name admin_id email : String) (t : Tables) : Type 0 where
  pub company : In (record { id = company_id; name = company_name }) t.companies
  pub admin : In (company_admin admin_id email company_id) (map identity t.users)
  pub role : Role
  pub known : In role t.roles
  pub is_tenant_admin : role_eq role.code (tenant tenant_admin) ≡ true
  pub assigned : In (assignment admin_id company_id role) t.user_roles

In-behind : {A : Type 0} (x : A) (xs ys : List A) → In x ys → In x (xs ++ ys)
In-behind x [] ys h = h
In-behind x (y ∷ xs) ys h = inr (In-behind x xs ys h)

In-before : {A : Type 0} (x : A) (xs ys : List A) → In x xs → In x (xs ++ ys)
In-before x [] ys h = absurd h
In-before x (y ∷ xs) ys (inl e) = inl e
In-before x (y ∷ xs) ys (inr h) = inr (In-before x xs ys h)

In-map : {A B : Type 0} (f : A → B) (x : A) (xs : List A) → In x xs → In (f x) (map f xs)
In-map f x [] h = absurd h
In-map f x (y ∷ xs) (inl e) = inl (ap f e)
In-map f x (y ∷ xs) (inr h) = inr (In-map f x xs h)

same_identities :
    (dialect : Dialect) (m : Moment) (s : Session) (user_id : String) (us : List User)
    → map identity (map (update_target dialect m.now s user_id) us) ≡ map identity us
same_identities dialect m s user_id [] = refl
same_identities dialect m s user_id (u ∷ us) =
    rw (identity-update_target dialect m.now s user_id u, same_identities dialect m s user_id us)
      refl

module _ (company_id company_name admin_id email : String) where
  abbrev Recorded : Tables → Type 0
  Recorded = IsRecorded company_id company_name admin_id email

  carried :
      {t t' t'' : Tables}
      → t'' ≡ t'
      → (h : Recorded t) → In (record { id = company_id; name = company_name }) t'.companies
      → In (company_admin admin_id email company_id) (map identity t'.users)
      → In h.role t'.roles
      → In (assignment admin_id company_id h.role) t'.user_roles
      → Recorded t''
  carried e h there user known assigned = subst Recorded (sym e) (record {
    company = there;
    admin = user;
    role = h.role;
    known = known;
    is_tenant_admin = h.is_tenant_admin;
    assigned = assigned;
  })

  pub IsRecorded-Kept : (dialect : Dialect) → Kept dialect Recorded
  IsRecorded-Kept dialect m t t' (nothing e) h = subst Recorded (sym e) h
  IsRecorded-Kept dialect m t t' (company name free e) h =
      carried e h (inr h.company) h.admin h.known h.assigned
  IsRecorded-Kept dialect m t t' (admin of_company address known free e) h =
      carried e h h.company (inr h.admin) h.known h.assigned
  IsRecorded-Kept dialect m t t' (roles user_id of_company user known free e) h =
      carried e h h.company h.admin h.known
        (In-behind _ (tenant_admin_role_rows user_id of_company t.roles) t.user_roles h.assigned)
  IsRecorded-Kept dialect m t t' (audit_event row fits e) h =
      carried e h h.company h.admin h.known h.assigned
  IsRecorded-Kept dialect m t t' (protection p fits e) h =
      carried e h h.company h.admin h.known h.assigned
  IsRecorded-Kept dialect m t t' (bootstrap session user_id e) h =
      carried e h h.company
        (subst (In (company_admin admin_id email company_id))
          (sym (same_identities dialect m session user_id t.users)) h.admin)
        h.known h.assigned

-- the first of the roles that a new administrator is given
first_role :
    (t : Tables) (admin_id company_id : String)
    → tenant_admin_role_rows admin_id company_id t.roles ≢ []
    → (role : Role) × In role (select (λ (r : Role). role_eq r.code (tenant tenant_admin)) t.roles)
unfolding tenant_admin_role_rows
first_role t admin_id company_id some_row = go _ some_row
  where
    go :
        (rs : List Role) → map (assignment admin_id company_id) rs ≢ [] → (role : Role) × In role rs
    go [] h = absurd (h refl)
    go (r ∷ rs) h = (r, inl refl)

-- the tables after the four INSERTs of a provisioning
pub IsRecorded-provisioned :
    (m₁ m₂ m₃ : Moment) (name email : String) (event : AuditEventRow) (t : Tables)
    → tenant_admin_role_rows m₂.fresh_id m₁.fresh_id t.roles ≢ []
    → IsRecorded m₁.fresh_id name m₂.fresh_id email (
        with_audit_event m₃ event (
          with_tenant_admin m₂.fresh_id m₁.fresh_id
            (with_admin m₂ m₁.fresh_id email (with_company m₁ name t))))
unfolding tenant_admin_role_rows
IsRecorded-provisioned m₁ m₂ m₃ name email event t some_row =
    let (role, selected) = first_role t m₂.fresh_id m₁.fresh_id some_row in
    let (known, is_tenant_admin) = In-select _ t.roles role selected in
    record {
      company = inl refl;
      admin = inl refl;
      role = role;
      known = known;
      is_tenant_admin = is_tenant_admin;
      assigned =
          In-before _ _ t.user_roles (In-map (assignment m₂.fresh_id m₁.fresh_id) role _ selected);
    }
