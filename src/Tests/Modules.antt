-- ===== src/Tests/Modules.antt =====
-- The graph at the module that applies the middleware.
use oc.Modules.{app}
use oc.Database.Statements.{insert_admin}
use oc.Database.Texts.{sent_as}
use oc.Database.Parameters.{EachBinds, bind_parameters-placeholders}
use oc.Modules.Graph.{WellFormed, module_of-WellFormed}

module_of-WellFormed_example : WellFormed app
module_of-WellFormed_example = module_of-WellFormed app

bind_parameters-placeholders_example : EachBinds (sent_as (insert_admin "acme" "ann@acme.example"))
bind_parameters-placeholders_example =
    bind_parameters-placeholders (insert_admin "acme" "ann@acme.example")
