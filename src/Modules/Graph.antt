-- ===== src/Modules/Graph.antt =====
-- The container can build the application: the modules import no cycle, and every class finds in its
-- module what it has injected.
use oc.Base.{ℕ, ◌<◌, List, [], ◌∷◌, ◌++◌, ◌≡◌, ◌⊎◌, inl, inr, arith}
use oc.Modules.{
  ClassName, ModuleName, app, auth, audit, companies, database, health, rbac, tenant, tenant_access,
  module_of, injects,
}

abbrev Elem : ClassName → List ClassName → Type 0
Elem c [] = ⊥
Elem c (d ∷ ds) = (c ≡ d) ⊎ Elem c ds

abbrev ExportedBy : ClassName → List ModuleName → Type 0
ExportedBy c [] = ⊥
ExportedBy c (m ∷ ms) = Elem c (module_of m).exports ⊎ ExportedBy c ms

-- A module provides the class, or imports a module that exports it.
abbrev pub Resolves : ModuleName → ClassName → Type 0
Resolves m c = Elem c (module_of m).providers ⊎ ExportedBy c (module_of m).imports

abbrev EachResolves : ModuleName → List ClassName → Type 0
EachResolves m [] = Unit {0}
EachResolves m (c ∷ cs) = Resolves m c × EachResolves m cs

abbrev Builds : ModuleName → List ClassName → Type 0
Builds m [] = Unit {0}
Builds m (c ∷ cs) = EachResolves m (injects c) × Builds m cs

-- A class is exported only by the module that provides it.
abbrev ExportsOwn : ModuleName → List ClassName → Type 0
ExportsOwn m [] = Unit {0}
ExportsOwn m (c ∷ cs) = Elem c (module_of m).providers × ExportsOwn m cs

-- a height that falls along every import
abbrev height : ModuleName → ℕ
height database = 0
height rbac = 0
height auth = 1
height audit = 1
height tenant = 2
height health = 2
height companies = 3
height tenant_access = 3
height app = 4

abbrev EachLower : ModuleName → List ModuleName → Type 0
EachLower m [] = Unit {0}
EachLower m (n ∷ ns) = (height n < height m) × EachLower m ns

pub record WellFormed (m : ModuleName) : Type 0 where
  pub builds :
      Builds m ((module_of m).controllers ++ (module_of m).providers ++ (module_of m).middleware)
  pub exports : ExportsOwn m (module_of m).exports
  pub acyclic : EachLower m (module_of m).imports

-- Each class that a module makes finds what it has injected among the module's providers or the
-- exports of a module that is imported, a module exports what it provides, and imports make no cycle.
pub module_of-WellFormed : (m : ModuleName) → WellFormed m
module_of-WellFormed app = record {
  builds = search (inl, inr) depth 24;
  exports = search depth 24;
  acyclic = omega arith;
}
module_of-WellFormed auth = record {
  builds = search (inl, inr) depth 24;
  exports = search (inl, inr) depth 24;
  acyclic = omega arith;
}
module_of-WellFormed audit = record {
  builds = search (inl, inr) depth 24;
  exports = search (inl, inr) depth 24;
  acyclic = omega arith;
}
module_of-WellFormed companies = record {
  builds = search (inl, inr) depth 24;
  exports = search depth 24;
  acyclic = omega arith;
}
module_of-WellFormed database = record {
  builds = search depth 24;
  exports = search inl;
  acyclic = omega arith;
}
module_of-WellFormed health = record {
  builds = search (inl, inr) depth 24;
  exports = search depth 24;
  acyclic = omega arith;
}
module_of-WellFormed rbac = record {
  builds = search depth 24;
  exports = search inl;
  acyclic = omega arith;
}
module_of-WellFormed tenant = record {
  builds = search depth 24;
  exports = search inl;
  acyclic = omega arith;
}
module_of-WellFormed tenant_access = record {
  builds = search (inl, inr) depth 24;
  exports = search depth 24;
  acyclic = omega arith;
}
