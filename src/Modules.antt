-- ===== src/Modules.antt =====
-- apps/api/src/*.module.ts and app.module.ts: the modules of the API, and what each class has injected.
pub mod Graph
use oc.Base.{List, [], ◌∷◌}

pub data ClassName : Type 0 where
  tenant_context_service tenant_context_middleware database_service companies_controller
        companies_service auth_controller auth_credential_service bootstrap_access_service
        session_token_issuer_service session_verification_key_service token_validator_service
        audit_service enumeration_protection_service rbac_service health_controller
        tenant_access_controller tenant_access_service :
      ClassName

pub data ModuleName : Type 0 where
  app auth audit companies database health rbac tenant tenant_access : ModuleName

-- The argument of `@Module`; `middleware` is what `configure` applies.
pub record Module : Type 0 where
  pub imports : List ModuleName
  pub controllers : List ClassName
  pub providers : List ClassName
  pub exports : List ClassName
  pub middleware : List ClassName

abbrev pub app_module : Module
app_module = record {
  imports = database ∷ tenant ∷ audit ∷ auth ∷ health ∷ rbac ∷ companies ∷ tenant_access ∷ [];
  controllers = [];
  providers = [];
  exports = [];
  middleware = tenant_context_middleware ∷ [];
}

abbrev auth_services : List ClassName
auth_services =
    auth_credential_service ∷ bootstrap_access_service ∷ session_token_issuer_service
    ∷ session_verification_key_service ∷ token_validator_service ∷ []

abbrev pub auth_module : Module
auth_module = record {
  imports = database ∷ [];
  controllers = auth_controller ∷ [];
  providers = auth_services;
  exports = auth_services;
  middleware = [];
}

abbrev pub audit_module : Module
audit_module = record {
  imports = database ∷ [];
  controllers = [];
  providers = audit_service ∷ enumeration_protection_service ∷ [];
  exports = audit_service ∷ enumeration_protection_service ∷ [];
  middleware = [];
}

abbrev pub companies_module : Module
companies_module = record {
  imports = audit ∷ database ∷ tenant ∷ [];
  controllers = companies_controller ∷ [];
  providers = companies_service ∷ [];
  exports = [];
  middleware = [];
}

abbrev pub database_module : Module
database_module = record {
  imports = [];
  controllers = [];
  providers = database_service ∷ [];
  exports = database_service ∷ [];
  middleware = [];
}

abbrev pub health_module : Module
health_module = record {
  imports = auth ∷ database ∷ [];
  controllers = health_controller ∷ [];
  providers = [];
  exports = [];
  middleware = [];
}

abbrev pub rbac_module : Module
rbac_module = record {
  imports = [];
  controllers = [];
  providers = rbac_service ∷ [];
  exports = rbac_service ∷ [];
  middleware = [];
}

abbrev pub tenant_module : Module
tenant_module = record {
  imports = auth ∷ [];
  controllers = [];
  providers = tenant_context_service ∷ [];
  exports = tenant_context_service ∷ [];
  middleware = [];
}

abbrev pub tenant_access_module : Module
tenant_access_module = record {
  imports = audit ∷ rbac ∷ tenant ∷ [];
  controllers = tenant_access_controller ∷ [];
  providers = tenant_access_service ∷ [];
  exports = [];
  middleware = [];
}

abbrev pub module_of : ModuleName → Module
module_of app = app_module
module_of auth = auth_module
module_of audit = audit_module
module_of companies = companies_module
module_of database = database_module
module_of health = health_module
module_of rbac = rbac_module
module_of tenant = tenant_module
module_of tenant_access = tenant_access_module

-- The parameters of a constructor. The driver of the database service is optional.
abbrev pub injects : ClassName → List ClassName
injects tenant_context_service = []
injects tenant_context_middleware =
    session_verification_key_service ∷ token_validator_service ∷ tenant_context_service ∷ []
injects database_service = []
injects companies_controller = companies_service ∷ []
injects companies_service = audit_service ∷ database_service ∷ tenant_context_service ∷ []
injects auth_controller = auth_credential_service ∷ session_token_issuer_service ∷ []
injects auth_credential_service = database_service ∷ []
injects bootstrap_access_service = database_service ∷ []
injects session_token_issuer_service = []
injects session_verification_key_service = []
injects token_validator_service = []
injects audit_service = database_service ∷ []
injects enumeration_protection_service = database_service ∷ []
injects rbac_service = []
injects health_controller =
    database_service ∷ session_token_issuer_service ∷ session_verification_key_service ∷ []
injects tenant_access_controller = tenant_access_service ∷ []
injects tenant_access_service =
    audit_service ∷ enumeration_protection_service ∷ rbac_service ∷ tenant_context_service ∷ []
