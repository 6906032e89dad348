-- ===== src/Tenant/Context.antt =====
-- apps/api/src/tenant/tenant-context.service.ts: AsyncLocalStorage hands a callback, and what it
-- awaits, the context of the enclosing `run`, so code under it is a function of that context.
use oc.Base.{Option, none, some}
use oc.Base.Exec.{Result, ok, err, unauthorized}
use oc.Contracts.{AuthContext}

-- `run(context, callback)`
unfoldable pub run : {T : Type 0} → AuthContext → (Option AuthContext → T) → T
run context callback = callback (some context)

-- `getOptional()`
unfoldable pub get_optional : Option AuthContext → Option AuthContext
get_optional store = store

-- `getRequired()`
unfoldable pub get_required : Option AuthContext → Result AuthContext
get_required none = err (unauthorized "Missing request tenant context.")
get_required (some context) = ok context
