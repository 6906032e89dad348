-- ===== src/Auth/Credentials/Rows.antt =====
-- The join of auth-credential.service.ts: where its rows come from, under the key of the login.
use oc.Base.{
  String, Bool, true, Option, some, none, List, [], ◌∷◌, ◌++◌, ◌≡◌, refl, ◌⊎◌, inl, inr, arith,
  ◌==◌, Bool-cases,
}
use oc.Base.{◌&&◌, not, is_some}
use oc.Database.Statements.{GlobalUserCredentialRow}
use oc.Sql.Schema.{User, UserRole, Role}
use oc.Sql.Policy.{Dialect, tenant_or_global_principal_filter}
use oc.Sql.Run.{select}
use oc.Sql.Rows.{credential_roles, credential_user_roles}
use oc.Sql.Execute.{credential_rows, is_login_candidate}

-- membership
abbrev pub In : {A : Type 0} → A → List A → Type 0
In x [] = ⊥
In x (y ∷ ys) = (x ≡ y) ⊎ In x ys

pub In-select :
    {A : Type 0} (p : A → Bool) (xs : List A) (x : A) → In x (select p xs) → In x xs × (p x ≡ true)
unfolding select
In-select p [] x h = absurd h
In-select p (y ∷ ys) x h = elim (Bool-cases (p y)) [
  | inl kept ↦ elim (rw kept at h) [
    | inl same ↦ (inl same, rw same kept)
    | inr later ↦ let (i, q) = In-select p ys x later in (inr i, q)
  ]
  | inr dropped ↦ let (i, q) = In-select p ys x (rw dropped at h) in (inr i, q)
]

-- Every row is that of its user, whatever the roles.
abbrev OfUser : User → GlobalUserCredentialRow → Type 0
OfUser u row = (row.user_id ≡ u.id) × (row.password_hash ≡ u.password_hash)

In-append : {A : Type 0} (xs ys : List A) (x : A) → In x (xs ++ ys) → In x xs ⊎ In x ys
In-append [] ys x h = inr h
In-append (y ∷ xs) ys x (inl e) = inl (inl e)
In-append (y ∷ xs) ys x (inr h) = elim (In-append xs ys x h) [ inl l ↦ inl (inr l) | inr r ↦ inr r ]

roles-OfUser :
    (u : User) (ur : UserRole) (rs : List Role) (row : GlobalUserCredentialRow)
    → In row (credential_roles u ur rs)
    → OfUser u row
unfolding credential_roles
roles-OfUser u ur [] row h = absurd h
roles-OfUser u ur (r ∷ rs) row h = ground (arith, roles-OfUser u ur rs row)

user_roles-OfUser :
    (u : User) (urs : List UserRole) (rs : List Role) (row : GlobalUserCredentialRow)
    → In row (credential_user_roles u urs rs)
    → OfUser u row
unfolding credential_user_roles
user_roles-OfUser u [] rs row h = absurd h
user_roles-OfUser u (ur ∷ urs) rs row h =
    elim (Bool-cases (ur.user_id == u.id && not (is_some ur.company_id))) [
      | inl joined ↦ elim (In-append _ _ row (rw joined at h)) [
        | inl here ↦ roles-OfUser u ur rs row here
        | inr later ↦ user_roles-OfUser u urs rs row later
      ]
      | inr skipped ↦ user_roles-OfUser u urs rs row (rw skipped at h)
    ]

-- A row of the join is that of a visible user that may log in under the name.
pub credential_rows_from :
    (dialect : Dialect) (username : String) (us : List User) (urs : List UserRole) (rs : List Role)
    (row : GlobalUserCredentialRow)
    → In row (credential_rows dialect username us urs rs)
    → (u : User) × In u us
      × (is_login_candidate dialect username u ≡ true)
      × (row.user_id ≡ u.id)
      × (row.password_hash ≡ u.password_hash)
unfolding credential_rows
credential_rows_from dialect username [] urs rs row h = absurd h
credential_rows_from dialect username (u ∷ us) urs rs row h =
    elim (Bool-cases (is_login_candidate dialect username u)) [
      | inl may ↦ elim (In-append _ _ row (rw may at h)) [
        | inl here ↦ let (a, b) = user_roles-OfUser u urs rs row here in (u, inl refl, may, a, b)
        | inr later ↦ go (credential_rows_from dialect username us urs rs row later)
      ]
      | inr bars ↦ go (credential_rows_from dialect username us urs rs row (rw bars at h))
    ]
  where
    go :
        (v : User) × In v us
          × (is_login_candidate dialect username v ≡ true)
          × (row.user_id ≡ v.id)
          × (row.password_hash ≡ v.password_hash)
        → (v : User) × In v (u ∷ us)
          × (is_login_candidate dialect username v ≡ true)
          × (row.user_id ≡ v.id)
          × (row.password_hash ≡ v.password_hash)
    go (v, i, m, a, b) = (v, inr i, m, a, b)

-- Under the login's key alone only global principals are visible.
pub filter-login :
    (dialect : Dialect) (company_id : Option String)
    → tenant_or_global_principal_filter dialect
        (record { company_id = none; user_role = none; global_principal_login = true })
        company_id
      ≡ true
    → company_id ≡ none
unfolding tenant_or_global_principal_filter
filter-login dialect none h = refl
filter-login dialect (some c) h = absurd (cc)
