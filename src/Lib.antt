-- ===== src/Lib.antt =====
-- The SaaS backend API: a Django service with accounts, subscription plans, API keys, request
-- analytics and a dashboard.
--
-- An account is registered, enrolled in the Free plan and verified by an e-mailed token; it logs in
-- for JWTs, whose refresh tokens have session rows, or presents an API key. A subscription joins a
-- user to a plan, and a quota row counts the requests of its period. Every request passes four
-- middleware, which give it an identifier, measure it, log it and count it against the quota, and
-- read the user's subscription for the throttle. A sweep moves users whose subscription is over to
-- the Free plan, and a rollup fills the table behind the monthly chart.
--
-- The modules and the code that they model:
--   Clock: the part of Python's datetime that the code uses.
--   Common: apps/common (exceptions, exception_handler, permissions, throttling, utils,
--     validators, responses, pagination, middleware); Common.Requests is a request, a response, and
--     what answers a request.
--   Users, Subscriptions, Authentication, ApiKeys, Analytics, Dashboard: the applications users,
--     subscriptions, authentication, api_keys, analytics and dashboard of apps/. In each, Models is
--     models.py, Selectors selectors.py, Services services.py, Views views.py with serializers.py,
--     and Middleware middleware.py. Users.Services has the manager too, Subscriptions.Seed is
--     management/commands/seed_plans.py, Authentication.Tokens is tokens.py with the login view,
--     Tasks is tasks.py, Authentication.Serializers serializers.py, and ApiKeys.Authentication
--     authentication.py. The order of the middleware and the throttle rates are those of
--     config/settings/base.py.
--   Store: the tables of all applications, the task queue, the environment, and the monad of the
--     operations.
--   The other modules hold proofs: Subscriptions.Table, Quotas, Enrollment, Changes, Usage (with
--     Concurrent, Periods and Rotation below it), Book, Expiry and LeapDay; Authentication.OneShot,
--     Sessions and Registration; Users.Passwords; ApiKeys.Table, Limits, Access, Lifecycle and
--     Concurrent; Analytics.Charts, Groups, Rollup, Months, Buckets and Stack; Common.Handling;
--     Dashboard.Params; Clock.Calendar. Subscriptions.Book has the abstract specification, a book
--     that says which plan a user is on, and Book.Simulation compares the operations with it.
--   System takes the applications together. Operations lists the calls of the service, Calls
--     makes them a step relation on its state, Sound and Kept say what every call keeps, by rules
--     for the parts of an action, Tables is about tables with keys and unique texts, Billing,
--     Accounts, Sessions and Keys go through the operations, and Reachable, Spent and Tenancy (with
--     Owned and Isolation) are about all the states that calls lead to; Quiet is about what a call
--     leaves of the others' quotas and of the log.
--   Api is the service as its clients see it. Routes is config/urls.py with the urls.py of the
--     applications, Endpoints the methods of all views with their permission classes, and Dispatch
--     the way of a request: the authentication classes of config/settings/base.py, the permission
--     class, the method. Resolution and Paths are about the routes, Access, Privacy and Undisturbed
--     about who gets which answer. Tests applies the theorems to a small installation.
--
-- How the code is read:
--   A table is a list of rows, newest first, which is the order of the querysets. A row's UUID is
--     the number of its draw, so that new keys are new; the other random texts are functions of
--     their draw, and that one of them is new is a hypothesis where it is used. No modelled
--     operation deletes a row.
--   An operation is a function from a state to a result and a state. An exception keeps what was
--     written, unless a transaction surrounds it: that restores the tables, but neither the queue
--     nor the draws. The database's constraints that the code can meet (unique e-mail, hash and
--     jti, one active subscription for each user, one quota for each start, the largest integer of
--     a column) are checked at the insertion.
--   Times are seconds since the start of year 1, and one operation reads the clock once, although
--     the code reads it several times; the largest year, 9999, is not modelled. A price is in
--     cents, and the success rate is a quotient that is not rounded.
--   Parameters of the model (Store.Env) are SHA-256, password hashing, the lower case, stripping
--     and comparison of texts, the classes of the re module, the texts that PostgreSQL takes as an
--     address, and the decoding and signing of tokens, with the few facts that a theorem needs as
--     its hypotheses. Django's authenticate is a parameter of login, the JWT library's
--     authentication and its refresh of a token are parameters of Api.Dispatch, and the framework's
--     reading of a UUID one of Api.Routes. That the framework tries routes in their order,
--     authenticates before it asks for the permission, and then calls the method is its documented
--     behaviour.
--   A request is one object which the middleware and the view write to; a view is any function
--     that answers, with the request as it leaves it.
--   Loops are recursions on their list or on a number of days; no definition takes fuel.
--
-- What is left out: the columns updated_at, the log lines, the rendering and sending of mails, the
-- cutting out of pages, the schema generator, what the JWT library does to refresh a token (so a
-- refresh is none of the calls of System), the throttling and the parsing of a body between routing
-- and method, migrations, admin pages and the parts of the settings that only configure the
-- framework. Calls follow one another whole, except in two modules. In ApiKeys.Concurrent the check
-- of create_api_key and its insertion are two steps of as many workers as one likes. In
-- Subscriptions.Usage.Concurrent the check of record_request and its write are two steps, of as
-- many workers as one likes; its enrolment and its rotation are one step with the check.
pub mod Prelude
pub mod Clock
pub mod Common
pub mod Users
pub mod Store
pub mod Subscriptions
pub mod Authentication
pub mod ApiKeys
pub mod Analytics
pub mod Dashboard
pub mod System
pub mod Api
pub mod Tests
