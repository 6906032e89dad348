-- ===== src/Companies/Returns.antt =====
-- companies.service.ts: when the parts of a provisioning return.
use oc.Base.{suc, String, some, true, false, List, [], ◌∷◌}
use oc.Base.{◌≡◌, ◌≢◌, refl, ap, length, ltb, arith, if◌then◌else◌}
use oc.Base.Text.{truthy}
use oc.Base.Exec.{throw, forbidden, ok, pure}
use oc.Contracts.{AuthContext, CreateCompanyRequest}
use oc.Database.{SqlDriver, transaction}
use oc.Companies.{provision, require_id, require_assigned, create_as}

module _ {W : Type 0} where
  pub require_id-ok :
      (id message : String) (w : W) → truthy id ≡ true → require_id (some id) message w ≡ (ok id, w)
  unfolding pure
  require_id-ok id message w h = rw h refl

  pub require_assigned-ok :
      {A : Type 0} (rows : List A) (w : W)
      → rows ≢ []
      → require_assigned (some (length rows)) w ≡ (ok tt, w)
  unfolding pure
  require_assigned-ok [] w h = absurd (h refl)
  require_assigned-ok (r ∷ rs) w h =
      let more : ltb (suc (length rs)) 1 ≡ false = ground arith in rw more refl

pub create_as_super :
    {W : Type 0} (driver : SqlDriver W) (request : CreateCompanyRequest) (actor : AuthContext)
    → actor.is_super_admin ≡ true
    → create_as driver request actor ≡ transaction driver (provision actor request)
unfolding create_as
create_as_super driver request actor h =
    ap
      (λ b.
        if b
        then transaction driver (provision actor request)
        else throw (forbidden "Only super_admin can provision companies."))
      h
