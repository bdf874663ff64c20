-- ===== src/Lib.antt =====
-- Klyvero, a multi-tenant sales platform: a verification library for the core of its API.
--
-- The program. Workspaces (tenants) hold leads, and campaigns send them sequences of e-mail and
-- WhatsApp steps. A lead is enrolled in a campaign; for each step of an enrollment there is at
-- most one run. The API changes campaigns and enrollments; a scheduler claims due runs, sends
-- them and moves the enrollment on; replies and opt-outs end enrollments meanwhile. Users log in
-- to sessions that rotate at each refresh, with throttling of failed logins and of requests, and
-- the work of a workspace counts against monthly quotas.
--
-- Files and code. Paths are from the root of the repository.
-- - Common: equality tests, lists, tables with the queries the services make, text as UTF-16 code
--   units, exceptions and results, what ordering guarantees.
-- - Text.Phone is apps/api/src/common/phone.ts, Text.Document is
--   apps/api/src/common/br-document.ts, Text.Template is
--   apps/api/src/modules/campaigns/campaign-template.ts.
-- - Campaign.Model holds the rows of apps/api/prisma/schema.prisma. Campaign.Planner is
--   sequence.planner.ts; Campaign.Scheduler (claim, recovery), Campaign.Delivery (sending),
--   Campaign.Execute (what follows a delivery) and Campaign.Pass (runDue, tick) are
--   sequence.scheduler.ts; Campaign.Service (create, update, remove, addStep, removeStep),
--   Campaign.Lifecycle (enroll, start, pause) and Campaign.Rescue (stopEnrollment,
--   retryEnrollment, and the statements of replies and opt-outs in whatsapp.service.ts and
--   email.service.ts) are campaigns.service.ts, all under apps/api/src/modules. Campaign.Trace is
--   the step relation over these operations.
-- - Security.Fallback and Security.AuthDefense are
--   apps/api/src/infra/security/auth-defense.service.ts; Security.RateLimit is
--   apps/api/src/common/rate-limit.guard.ts.
-- - Auth.Model, Auth.Login (login, logout, logoutAll), Auth.Refresh (refresh) and Auth.Reset
--   (forgotPassword, resetPassword, ownerRecovery) are apps/api/src/modules/auth/auth.service.ts;
--   Auth.Trace is the step relation over the session table, in which a refresh is two steps.
-- - Usage is apps/api/src/modules/usage/usage.service.ts.
-- - Security.PreAuth is apps/api/src/common/pre-auth-rate-limit.guard.ts. Signup holds the rows,
--   and Signup.Invites and Signup.Registration are apps/api/src/modules/signup/signup.service.ts;
--   Signup.Trace is their step relation, in which reading an invitation and using it are two
--   steps. Csv is apps/web/lib/csv.ts, and Csv.Import its parseCsvFile and resolveCsvValue.
-- - Billing holds the rows, and Billing.Checkout and Billing.Events are
--   apps/api/src/modules/billing/billing.service.ts.
-- - Crm is apps/api/src/modules/crm/crm.service.ts: creating, moving and closing deals, and the
--   first pipeline of a workspace.
-- - Security.Network is apps/api/src/infra/security/network-safety.service.ts: the addresses and
--   hosts that outgoing requests refuse.
-- - Tenancy holds the rows of workspaces; Tenancy.Hierarchy is
--   apps/api/src/common/tenant.service.ts, Tenancy.Guards the guards under apps/api/src/common
--   and Tenancy.Guards.Chain their order in apps/api/src/app.module.ts; Tenancy.Service,
--   Tenancy.Domains and Tenancy.Listing are apps/api/src/modules/tenants/tenants.service.ts, and
--   Tenancy.Features its features with apps/api/src/common/feature.guard.ts. The loops over
--   parents and levels run on fuel, one or two more than there are workspaces, and are shown to
--   need no more.
-- - Prospecting holds the rows and Prospecting.Scoring, Prospecting.Upsert, Prospecting.Jobs and
--   Prospecting.Leads are apps/api/src/modules/prospecting/prospecting.service.ts, over the
--   quotas of Usage; Prospecting.Trace is its step relation.
-- - Security.Network.Outbound is validateHttpUrl and postWebhook of
--   apps/api/src/infra/security/network-safety.service.ts. Webhooks holds endpoints and
--   deliveries; Webhooks.Service is apps/api/src/modules/webhooks/webhooks.service.ts and
--   Webhooks.Worker is webhook.worker.ts beside it. The job queue is not modelled: the runs of a
--   job are a sequence of calls of process.
-- - Campaign.Unsubscribe is the unsubscribe tokens of
--   apps/api/src/modules/email/email.service.ts, over Text.ConstantTime, which is
--   apps/api/src/common/constant-time.ts.
-- - Auth.Bootstrap is bootstrap and bootstrapStatus of apps/api/src/modules/auth/auth.service.ts.
--
-- State and operations. The database is a record of tables, each a list of rows; `findFirst`,
-- `findMany`, `updateMany` and `deleteMany` are find_first, select, update_many and delete_many.
-- An operation takes the database, the time and the random values it draws, and returns the new
-- database with a result, or the exception it throws. A transaction is one function. Where a
-- request reads before its transaction and another may come between, as with start and
-- retryEnrollment, a refresh or a registration, the step relation takes the two apart; the
-- relations of prospects and of domains take requests one after the other. What the program takes
-- from libraries and services (password and token hashes, signing, lower casing, mail and
-- WhatsApp gateways, the answers of Redis) is an argument.
--
-- Numbers. Times are milliseconds and natural numbers; differences that the code guards are
-- written so that subtraction does not pass zero. Identifiers are numbers. The loop of runDue
-- runs on fuel, one more than the most steps that a pass may take, and is shown to need no more.
--
-- Not modelled. The web and mobile applications, controllers and validation decorators, calendar,
-- inbox, analytics and the modules that wrap outside services; lists that only read; logging and
-- timers.
pub mod Common
pub mod Text
pub mod Campaign
pub mod Security
pub mod Auth
pub mod Usage
pub mod Billing
pub mod Crm
pub mod Csv
pub mod Prospecting
pub mod Signup
pub mod Tenancy
pub mod Webhooks
