-- ===== src/Auth/Bootstrap/Laws.antt =====
-- bootstrap-access.service.ts under the row-level security policy.
use oc.Base.{String, Option, some, none, false, List, [], ◌∷◌, ◌≡◌, refl, ap, sym, ◌∙◌, first}
use oc.Base.Exec.{ok, pure, throw}
use oc.Base.Exec.Laws.{bind_returned}
use oc.Database.{SqlDriver}
use oc.Database.Statements.{QueryResult, select_bootstrap}
use oc.Database.Transaction.{transaction_returned}
use oc.Sql.Schema.{Tables, User, Server, cleared}
use oc.Sql.Policy.{Dialect, tenant_or_global_principal_filter}
use oc.Sql.Run.{Moment, select, take}
use oc.Sql.Execute.{execute, visible_users, run_select_bootstrap}
use oc.Sql.Driver.{RunsSql}
use oc.Auth.Bootstrap.{
  BootstrapFirstUseResult, find_unused_bootstrap_access, first_use_work, complete_first_use,
}

module _ (dialect : Dialect) where
  filter-cleared : (c : Option String) → tenant_or_global_principal_filter dialect cleared c ≡ false
  unfolding tenant_or_global_principal_filter
  filter-cleared none = refl
  filter-cleared (some c) = refl

  no_user_visible :
      (us : List User)
      → select (λ (u : User). tenant_or_global_principal_filter dialect cleared u.company_id) us
        ≡ []
  unfolding select
  no_user_visible [] = refl
  no_user_visible (u ∷ us) = rw (filter-cleared u.company_id) (no_user_visible us)

  select_bootstrap-cleared :
      (m : Moment) (hash : String) (t : Tables) (r : QueryResult String) (s : Server)
      → run_select_bootstrap dialect hash (record { session = cleared; tables = t }) ≡ (ok r, s)
      → first r.rows ≡ none
  unfolding run_select_bootstrap visible_users select take
  select_bootstrap-cleared m hash t r s h =
      let k = rw (no_user_visible t.users) at h in let rows : r.rows ≡ [] = cc in rw rows refl

module _ {W : Type 0} {dialect : Dialect} {driver : SqlDriver W}
    (law : RunsSql dialect driver) where
  -- On a driver with the laws of RunsSql the first use of a bootstrap access never completes,
  -- whatever token is given.
  pub complete_first_use-refused :
      (hash : String) (w w' : W) (r : BootstrapFirstUseResult)
      → ¬ (complete_first_use driver hash w ≡ (ok r, w'))
  unfolding complete_first_use first_use_work find_unused_bootstrap_access pure throw execute
  complete_first_use-refused hash w w' r h =
      let c = transaction_returned driver _ w h in
      bind_returned _ _ c.worked λ found w₁ looked rest.
        bind_returned _ _ looked λ result w₂ selected answer.
          let ran =
            law.query_runs w c.begun_at c.t c.begun (select_bootstrap hash) _ _ _ selected in
          let reads = law.begin_reads w c.begun_at c.t c.begun in
          let unseen =
            select_bootstrap-cleared dialect (law.moment c.begun_at) hash (law.durable w) result
              (law.view w₂) (ap (run_select_bootstrap dialect hash) (sym reads) ∙ ran) in
          let missing : found ≡ none = sym (cc (ap (λ o. o.0) answer)) ∙ unseen in absurd (cc)
