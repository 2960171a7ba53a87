-- ===== src/Lib.antt =====
-- Verification library of the property-management backend: NestJS services over TypeORM and
-- PostgreSQL.
--
-- The program lets units of properties to tenants. A lease is created in one transaction that also
-- issues its first invoice and stores its agreement; payments settle invoices; technicians work on
-- maintenance requests; users sign in with short access tokens and rotating refresh tokens. The
-- services call each other directly: LeasesService calls Units, Tenants, Invoices and Documents in
-- its transaction, AuthService calls Users and Tokens, MaintenanceService calls Technicians.
--
-- Files, with the code they model:
--   Model/*      the entities of src/*/entities as records and enums, the tables (Db), what lies
--                outside of a transaction (World: background tasks, stored files, mails), and the
--                exceptions that the services throw
--   Orm/*        handlers as actions that return a result or throw (Actions), the verbs of
--                repositories and transactions as an interface with its documented behaviour and a
--                reference implementation by lists (Repository), and shared steps (Service)
--   Calendar     src/common/date.util.ts (daysUntil is in Reports/Operational)
--   Money        src/common/money.util.ts
--   Codes/*      the allocation of business codes by COALESCE(MAX(CAST(SUBSTRING ...))) + 1, which
--                every service repeats, with decimal printing and padding
--   Properties, Units, Tenants, Leases/*, Invoices/*, Payments/*, Documents/*, Maintenance/*,
--   Technicians  src/<name>/<name>.service.ts, a function for each method; Documents also has the
--                storage of src/storage/storage.service.ts
--   Tokens/*     src/auth/token.service.ts
--   Users/*      src/users/users.service.ts, and what it takes from outside (Inputs)
--   Auth/*       src/auth/auth.service.ts (register in Registration),
--                src/auth/strategies/jwt.strategy.ts, src/auth/ttl.util.ts
--   Roles/*      src/roles/roles.service.ts, src/common/rbac/perm-catalog.ts (Catalog) and
--                src/roles/built-in-roles.ts (BuiltIn)
--   Overdue/*    src/invoices/invoice-overdue.job.ts, and the getter isOverdue of the entity
--   Notifications/*  src/notifications: the service with its rendering of templates (Rendering), the
--                pairs of templates (Templates), the preferences and the type guard of their shape
--                (Preferences)
--   Http         what guards and interceptors see of a request, its route and its handler
--   Audit/*      src/audit/audit.service.ts, src/audit/audit-icons.ts, and
--                src/audit/audit.interceptor.ts (Context, Values, Interceptor)
--   Permissions/*  src/auth/guards/permissions.guard.ts
--   Background/* src/common/background-task-tracker.service.ts
--   Serving/*    the way of a request: the guard, the interceptor of the trail,
--                src/common/interceptors/response.interceptor.ts, the handler, and
--                src/common/filters/all-exceptions.filter.ts
--   Reports/*    src/reports/reports.service.ts: the parts of a report (Shape), the reports
--                (Financial, Trends, Operational), and what holds of them
--   Tests/*      sample data, runs of handlers and the theorems at that data
--
-- Modelling choices. A row's uuid is a number that the request supplies, as are the clock, the
-- date and random values. Money is in cents, times are milliseconds, text is the list of its code
-- points. A table is the list of its rows in the order of creation. A transaction that throws puts
-- the tables back; tasks, files and mails stay. The bucket holds one object for a key. Handlers
-- run one at a time in the model, except where a theorem interleaves two of them (Payments/Race);
-- the source itself locks a table only while it allocates a code. Handlers return the row that the
-- source maps to its response object; the mapping itself is not modelled. TypeORM, PostgreSQL,
-- bcrypt, SHA-256, JWT, what the object storage accepts, the PDF renderer and Unicode case mapping
-- are parameters. All recursion is structural, but for decimal printing, which runs on fuel n + 1
-- for the number n, more than it has digits.
--
-- A promise that the tracker holds is a trigger or an audit entry in the state; at the shutdown
-- the promises make their steps in any order. An amount that is paid may have parts of a cent;
-- every stored amount is whole cents. Codes stay below 2 ^ 31, where INTEGER ends. A query without
-- ORDER BY returns the templates of a trigger in any order. Lengths of columns are modelled for
-- the audit trail, the titles of notifications and the names of uploaded files.
-- Characters are code points, where JavaScript slices by 16-bit units.
--
-- Not modelled: controllers but for the check of preferences, DTO validation, most response
-- objects, modules, pipes, ClassSerializerInterceptor, configuration, migrations, seeds and health
-- checks. Reports compute with exact numbers, and in the time zone UTC, where the code uses floating
-- point and the time zone of the server.
pub mod Common
pub mod Calendar
pub mod Model
pub mod Orm
pub mod Money
pub mod Units
pub mod Tenants
pub mod Documents
pub mod Invoices
pub mod Leases
pub mod Properties
pub mod Roles
pub mod Overdue
pub mod Notifications
pub mod Http
pub mod Audit
pub mod Permissions
pub mod Background
pub mod Reports
pub mod Serving
pub mod Auth
pub mod Users
pub mod Tokens
pub mod Technicians
pub mod Maintenance
pub mod Payments
pub mod Tests
pub mod Codes
