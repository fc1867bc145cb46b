-- ===== src/Lib.antt =====
-- The API of the calling agent, apps/api: a multi-tenant service in which tenants configure voice agents,
-- whose calls run through a bridge between Twilio and OpenAI.
--
-- A request comes in with a token (Access, Auth), a service acts on the tenant's rows through
-- repositories that filter by the tenant (Repo; Agents, Tenants, Compliance), and `get_db` commits what it
-- wrote or rolls it back (Http). A call comes in at a webhook, which leaves its tenant in Redis for the media
-- stream, or is placed by a user (Calls); live calls are kept in Redis (Sessions). The stream is run by the
-- bridge (Voice), which hands the AI's tool calls to the executor (Tools) and bills the call when it ends.
--
-- Which file models which part:
--   Prelude, with Prelude/*: the names, tests and list functions that the modules share.
--   Http: apps/api/database.py `get_db`; results, exceptions and the state monad of a handler.
--   Json: values of JSON columns and of the tools' arguments; `get`, `put` and truth of a value.
--   Repo: apps/api/repositories/base.py. `get_by_id`, `get_all`, `create`, `update` and `delete` are the
--     methods of `BaseRepository`; a table is the list of its rows. Repo/Isolation is about tenants.
--   Agents, with Agents/Model: apps/api/services/agent_service.py, apps/api/repositories/agent_repo.py and
--     apps/api/models/agent.py, one action per method of `AgentService`. Agents/Invariant, Inversion,
--     Published and Requests are about one published version per agent; Agents/Evolution and History about
--     what may happen to a version.
--   Tenants, with Tenants/Slug: the tenants and the choice of a free slug, of
--     apps/api/repositories/tenant_repo.py.
--   Auth, with Auth/Model: apps/api/services/auth_service.py and apps/api/repositories/session_repo.py, one
--     action per method of `AuthService`. Auth/Memory is a store with expiry in Redis' place; Auth/Login is
--     about failed logins, Auth/Sessions about refresh tokens.
--   Access: apps/api/middleware/auth.py, the current user and the checks of roles and permissions.
--   Users: apps/api/services/user_service.py without its listing; Users/Deactivation is about users who are
--     deactivated.
--   Compliance: apps/api/services/compliance_service.py and apps/api/repositories/compliance_repo.py, the
--     list of numbers that must not be called; Compliance/Clock has `check_calling_hours`, and Compliance/Hours
--     is about it.
--   Billing: apps/api/services/billing_service.py and apps/api/repositories/billing_repo.py without Stripe:
--     Billing/Usage is about the totals of a period, Billing/Limit about the monthly limit.
--   Sessions, with Sessions/Model: apps/api/realtime/session_manager.py, `CallSession` with its dictionary, and
--     one function per method of `SessionManager`. Sessions/RoundTrip is about reading back a session,
--     Sessions/Count about the count of live calls, Sessions/Memory is a Redis in memory.
--   Calls, with Calls/Model: apps/api/routers/voice.py, `verify_webhook_request`, `inbound_call_webhook` and
--     `call_status_callback`; Calls/Stream has `voice_stream_websocket` up to the start of the bridge, and
--     Calls/Outbound `initiate_outbound_call` and `list_active_calls`. Calls/Events has what may happen to
--     calls, one after the other; Calls/Keys, Sets and Inversion have the lemmas of Calls/Admission (what a
--     stream has passed), Calls/Limit (the number of running calls, which is that of the bridges) and
--     Calls/Connect (an accepted call gets its bridge); Calls/Placing is about outbound calls.
--   Chunks: `chunk_text` of apps/api/services/embedding_service.py; Chunks/Cover is about what it cuts.
--   Contacts: the contacts of apps/api/models/contact.py and their look-up by number. Contacts/Service:
--     apps/api/services/contact_service.py and apps/api/repositories/contact_repo.py, one action per method;
--     Contacts/Counts, Inversion and Changes are about the count of a list's members.
--   Pages: apps/api/schemas/common.py and the listings in pages; Pages/Cover is about all pages of one.
--   Campaigns: apps/api/models/campaign.py, repositories/campaign_repo.py and services/campaign_service.py of
--     apps/api, and `campaign_dialer` of apps/api/worker/tasks.py; Campaigns/Loop and Campaigns/Dialing are about
--     the dialer's loop.
--   Tools: apps/api/tools/registry.py and executor.py; Tools/Definitions has handlers of
--     apps/api/tools/definitions/transfer.py, Tools/Customers and Tools/Appointments those of contact.py and
--     appointment.py beside it. Tools/Guard is about the executor, Tools/Sms about text messages, and
--     Tools/Callers, with Kept and Steps, about the contacts that the AI can change.
--   Voice: apps/api/realtime/voice_bridge.py. Voice/Handlers has the handlers of OpenAI's events,
--     Voice/Cleanup what is written when a call ends, Voice/Run the loops and `start`.
--
-- How state is kept: a handler is an action, a function from the state to a result and the state after
-- it, raised or not. The rows of a table are a list in the order in which they were inserted; a query's
-- ORDER BY is an argument. What goes out of a call is a list of outputs, and an argument tells which of
-- them raise.
--
-- Arguments that stand for what is not part of the repository: passlib, jose and hashlib
-- (`Crypto`), Redis (an interface with its documented laws), Twilio's message API, OpenAI's and Twilio's
-- sockets (`Outside`), the signatures of Twilio and Plivo and their answers to a call (`World`), UUIDs and
-- their texts, and the keys that the database draws. The clock, the system's time zones, `json.loads`, `str`, `str.lower`
-- and the float product that turns bytes into milliseconds are arguments too.
--
-- Bounds: numbers are unbounded, as in Python. Two loops are not recursions on their data: the one that
-- looks for a free slug gets one round more than there are tenants, and the one that cuts a text into
-- chunks one round more than there are tokens; the entries on `create` and `chunk_text` below say that
-- this is enough. The rounding up of minutes is that of the
-- float quotient below 2 ^ 46 seconds.
--
-- Not modelled: time stamps that no decision reads, details of audit logs, log lines, explicit nulls for
-- columns that may not be null, characters beyond ASCII in the
-- calling hours, the loading of related rows, and a Twilio start message that
-- lacks its call id after its stream id. Events of a call interleave between handlers and not within
-- one. The routes of a call run one after the other; a URL stands for its path, and the answer to Twilio
-- for its XML. The import of contacts, the services of subscriptions, knowledge bases, analytics, webhooks
-- to customers, and the other routers are not modelled.
pub mod Prelude
pub mod Http
pub mod Json
pub mod Repo
pub mod Agents
pub mod Tenants
pub mod Auth
pub mod Access
pub mod Users
pub mod Compliance
pub mod Tools
pub mod Billing
pub mod Sessions
pub mod Calls
pub mod Contacts
pub mod Campaigns
pub mod Pages
pub mod Voice
pub mod Chunks
