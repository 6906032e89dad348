-- ===== src/Lib.antt =====
-- OC01, a multi-tenant control plane: an HTTP API (apps/api) over SQL Server, its web client
-- (apps/web), the types that the two share (packages/contracts), and two scripts that run the smoke
-- test of the row-level security (scripts).
--
-- A request passes the middleware of apps/api/src/tenant, which turns a session token into a context
-- or none; a route's handler runs under that context and calls the services, which query through the
-- database service. Provisioning and the login run in a transaction; the check of tenant access and
-- its audit record use pooled connections, one statement each.
--
--   Contracts      packages/contracts/src/index.ts
--   Database       apps/api/src/database/database.service.ts; Database.Statements has one constructor
--                  for each statement of the API, Database.Texts its SQL texts with the values that a
--                  call binds, Database.Parameters the binding, Database.Transaction the laws of
--                  `transaction`, Database.Pool the driver over the package mssql
--   Sql            db/sqlserver/schema and the SQL texts: tables, policy, and what a statement does;
--                  Sql.Driver states what the services rely on, Sql.Isolation is about a tenant's
--                  session, Sql.Writes lists what a statement can do to the tables, Sql.Integrity the
--                  constraints of the schema, Sql.Authority who has global authority, Sql.Recorded what
--                  stays of a provisioning
--   Rbac           apps/api/src/rbac
--   Audit          apps/api/src/audit: `record`, and in Audit.Enumeration the protection of sources
--   Tenant         apps/api/src/tenant: the context, and the middleware before every route
--   TenantAccess   apps/api/src/tenant-access
--   Companies      apps/api/src/companies; Companies.Expected spells out the rows of a provisioning,
--                  Companies.Refines has it as one step on the data
--   Auth           apps/api/src/auth: credentials, bootstrap access, tokens, keys, the login route
--   Health         apps/api/src/health
--   Modules        apps/api/src/*.module.ts: the module graph as data
--   Api            the controllers' methods behind the middleware, and sequences of requests: Api.Keeps
--                  carries a predicate that the statements keep through every request, Api.Protection is
--                  about a source under protection, Api.Provisions about what a provisioning commits
--   Web            apps/web/src/app: Web.Session the store, the guard, the interceptor and the routes;
--                  Web.Login and Web.Shell the two forms as state machines, whose steps are the user's
--                  events and the answers of the API, and what their templates show; Web.Shell.Page and
--                  Web.Login.Page the markup of the two pages, of which Web.Outlet shows one;
--                  Web.Email the check of an address
--   System         the login page against the API, while others send requests, and in
--                  System.Provisioning the provisioning page against it
--   Smoke          scripts/run-local-rls-smoke.mjs (Names, Queries, Sqlcmd, Local) and
--                  scripts/run-rls-smoke.mjs (Docker)
--   Sample         a server with one connection, and a signer of two payloads, for the examples
--   Base           shared helpers: tests, text operations, and Exec, code that may throw over a state
--
-- An operation of a service is a function of the same name in snake case, in the monad Exec W: from a
-- state of the world W to a result and a state. What a call did before it threw stays done. The driver
-- is any SqlDriver W; a theorem about the data asks for the laws of Sql.Driver, that statements run as
-- Sql.Execute says, that a transaction begins on the committed data with an empty session context, and
-- that only a commit publishes. Database.Pool.Reports says what the package mssql does, from which
-- Database.Pool.Refines derives those laws. node:crypto's SHA-256, the package jose, Number(), child
-- processes and, per statement, the server's clock and fresh ids are parameters. All loops are structural
-- recursion over lists or texts, and the wait for a server one over the attempts that are left, so there
-- is no fuel. Texts are lists of code points; the two lengths that the code compares are
-- written out in UTF-16 units and UTF-8 bytes. Time is in seconds, and there is no concurrency: one
-- request is served at a time.
--
-- The tables leave out the id columns of role assignments, audit events and protections, which nothing
-- reads, with their primary keys. A role of a token is one of the four codes of the contracts, and a body
-- of POST /api/admin/companies has its two texts; what the code does with other values is not modelled.
--
-- Not modelled: process start, the container that Nest builds from the module graph, the styles of the
-- client, and the bindings of events in its templates, which are the steps of Web.Login and Web.Shell.
mod Base
pub mod Contracts
pub mod Database
pub mod Sql
pub mod Rbac
pub mod Audit
pub mod Tenant
pub mod TenantAccess
pub mod Api
pub mod Companies
pub mod Auth
pub mod Sample
mod Tests
pub mod Modules
pub mod Health
pub mod Web
pub mod Smoke
pub mod System
