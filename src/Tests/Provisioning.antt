-- ===== src/Tests/Provisioning.antt =====
-- Company provisioning over the sample server.
use oc.Base.{ℕ, String, none, some, true, false, [], ◌∷◌, ◌≡◌, refl, ◌≢◌}
use oc.Base.Text.{utf16_length}
use oc.Base.Exec.{ok, err, forbidden, other, try_catch, ◌>>=◌}
use oc.Contracts.{
  one_time_token, AuthContext, CreateCompanyRequest, CreateCompanyResponse, super_admin, tenant,
  tenant_admin, role_eq,
}
use oc.Database.{transaction, apply_session_context, clear_session_context}
use oc.Database.Transaction.{begin_end, transaction-outcome, transaction_atomic}
use oc.Sql.Schema.{cleared}
use oc.Sql.Policy.{tenant_predicate}
use oc.Sql.Run.{select, exists}
use oc.Sql.Rows.{tenant_admin_role_rows, fits}
use oc.Sql.Execute.{
  execute, run_insert_company, run_insert_admin, run_insert_tenant_admin_role,
  run_insert_audit_event,
}
use oc.Audit.{record_event}
use oc.Tenant.Context.{get_required}
use oc.Audit.Json.{stringify}
use oc.Companies.{create_company, provision, provisioned}
use oc.Companies.Expected.{provisioned_data, tenant_admin_roles}
use oc.Companies.Provisioning.{create_company-provisions, provision-Confined}
use oc.Companies.Refines.{Provisions, create_company-Provisions}
use oc.Sample.Backend.{World, backend, backend-RunsSql, world, id_of, isolates}

-- what a run of provisioning computes with
runs : Unit {0}
unfolding create_company get_required transaction provision apply_session_context
    clear_session_context record_event execute run_insert_company run_insert_admin
    run_insert_tenant_admin_role run_insert_audit_event tenant_predicate select exists role_eq
    tenant_admin_role_rows fits utf16_length stringify try_catch ◌>>=◌
runs = tt

abbrev root : AuthContext
root = record {
  user_id = "root";
  company_id = none;
  roles = super_admin ∷ [];
  is_super_admin = true;
  source_ip = some "192.0.2.1";
}

abbrev ann : AuthContext
ann = record {
  user_id = "ann";
  company_id = some "acme";
  roles = tenant tenant_admin ∷ [];
  is_super_admin = false;
  source_ip = some "192.0.2.2";
}

abbrev globex : CreateCompanyRequest
globex = record { company_name = "Globex"; admin_email = "bob@globex.test" }

abbrev again : CreateCompanyRequest
again = record { company_name = "Acme"; admin_email = "eve@acme.test" }

abbrev answer : CreateCompanyResponse
answer = provisioned (id_of 2) (id_of 3)

abbrev after : World
after = (create_company backend (some root) globex world).1

globex_provisioned : create_company backend (some root) globex world ≡ (ok answer, after)
unfolding runs
globex_provisioned = refl

-- a name that is taken
again_refused : (create_company backend (some root) again world).1.durable ≡ world.durable
unfolding runs
again_refused = refl

create_company-provisions_example :
    (token : String) × (now : ℕ) × (root.is_super_admin ≡ true)
    × (answer.bootstrap_access_mode ≡ one_time_token)
    × (answer.force_rotate_on_first_use ≡ true)
    × (after.durable ≡ provisioned_data root globex answer token now world.durable)
    × (tenant_admin_roles world.durable ≢ [])
    × (after.server.session ≡ cleared)
create_company-provisions_example =
    create_company-provisions backend-RunsSql root globex world after answer globex_provisioned

ann_denied :
    (create_company backend (some ann) globex world).0
    ≡ err (forbidden "Only super_admin can provision companies.")
unfolding runs
ann_denied = refl

create_company-Provisions_example :
    Provisions
      (some root)
      globex
      world.durable
      (create_company backend (some root) globex world).0
      after.durable
create_company-Provisions_example =
    create_company-Provisions backend-RunsSql (some root) globex world

-- the second statement of the work fails: the address is taken
abbrev taken : CreateCompanyRequest
taken = record { company_name = "Globex"; admin_email = "sa" }

taken_fails : (transaction backend (provision root taken) world).0 ≡ err (other "SQL error")
unfolding runs
taken_fails = refl

transaction_atomic_example :
    (transaction backend (provision root taken) world).1.durable ≡ world.durable
transaction_atomic_example =
    transaction_atomic isolates (provision root taken)
      (provision-Confined (λ w. w.durable) root taken) world (other "SQL error") taken_fails

transaction-outcome_example :
    transaction backend (provision root taken) world
    ≡ begin_end (provision root taken) (backend.begin_transaction world)
transaction-outcome_example = transaction-outcome backend (provision root taken) world
