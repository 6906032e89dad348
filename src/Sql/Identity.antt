-- ===== src/Sql/Identity.antt =====
-- What an UPDATE of bootstrap-access.service.ts leaves of a user.
use oc.Base.{
  ℕ, String, Option, Bool, List, [], ◌∷◌, ◌≡◌, refl, ap, map, true, false, ◌==◌, if◌then◌else◌,
}
use oc.Sql.Schema.{User, Session}
use oc.Sql.Policy.{Dialect}
use oc.Sql.Run.{exists}
use oc.Sql.Rows.{use_bootstrap}
use oc.Sql.Execute.{is_target, update_target}

-- the columns that no statement of the API changes
pub record Identity : Type 0 where
  pub id : String
  pub email : String
  pub company_id : Option String
  pub password_hash : Option String
  pub is_global_admin : Bool

abbrev pub identity : User → Identity
identity u = record {
  id = u.id;
  email = u.email;
  company_id = u.company_id;
  password_hash = u.password_hash;
  is_global_admin = u.is_global_admin;
}

identity-if :
    (now : ℕ) (u : User) (b : Bool) → identity (if b then use_bootstrap now u else u) ≡ identity u
identity-if now u true = refl
identity-if now u false = refl

module _ (dialect : Dialect) (now : ℕ) (s : Session) (user_id : String) where
  pub identity-update_target :
      (u : User) → identity (update_target dialect now s user_id u) ≡ identity u
  unfolding update_target
  identity-update_target u = identity-if now u (is_target dialect s user_id u)

  pub user_known-update_target :
      (id : String) (us : List User)
      → exists (λ (u : User). u.id == id) (map (update_target dialect now s user_id) us)
        ≡ exists (λ (u : User). u.id == id) us
  unfolding exists
  user_known-update_target id [] = refl
  user_known-update_target id (u ∷ us) =
      rw (ap (λ i. i.id) (identity-update_target u), user_known-update_target id us) refl
