-- ===== src/Lib.antt =====
-- A verification library for BYOS, a server that offers the accounts of several upstream providers as
-- one API. It is about the choice of an account for a request, the failover from one account to the
-- next, the cooldowns that failures leave behind, the catalogs of models and the registry of providers,
-- the throttle of administrator logins and their sessions, the keys of the API, the history of a
-- conversation that is rebuilt from stored responses, and the events that an upstream stream is turned into.
--
-- The parts and their files:
-- - Provider: internal/provider/provider.go, the identity of providers and the classification of
--   errors.
-- - Provider/Catalog: internal/provider/catalog.go, the static catalog of models, and Provider/Registry:
--   internal/provider/registry.go, the registry of capabilities; their Laws have the theorems.
-- - Time: instants and durations, and the whole seconds of a database column.
-- - Store/Accounts: internal/store/accounts.go, the table accounts as the list of its rows; Laws says
--   what a statement does to a row and to the others.
-- - Store/Cooldowns: internal/store/cooldowns.go, the table account_model_states. Rows has the table
--   and its upsert, Backoff, Lookup and Invariant the theorems. A statement that inserts a row is given the
--   accounts that there are, for the foreign key.
-- - Routing/Scheduler: internal/routing/scheduler.go. `order` is the Go method; its loops are `split`,
--   `preferred_index` and `rotation`. Admission is about which accounts are offered, Rotation and Order
--   about their order.
-- - Routing/Cooldown: internal/routing/cooldown.go, `apply` and `success`; Effects has the theorems.
-- - Routing/Failure, Routing/LocalUsage, Routing/Candidates, Routing/Attempt, Routing/Execute and
--   Routing/Plan: internal/routing/execute.go. Failure is the classification of errors, LocalUsage what a finished
--   request counts, Candidates what the scheduler is given, Attempt what the executor asks and writes,
--   Execute the loop over the candidates, and Plan `prepare`, `execute` and `stream` as a whole; Serving and
--   Cooling, Log, Trace and Success, Bounds and Opening below them have the theorems.
-- - Routing/Stream: RoutedStream of internal/routing/stream.go, with the sections under its mutex and each
--   effect after them as steps; Counts and Effects count what calls did and what is left of them, and Once
--   and Finish have the theorems.
-- - Throttle: the throttle of administrator logins. Policy and Guard are internal/auththrottle, Store is
--   internal/store/admin_auth_throttle.go; Check and Lockout have the theorems.
-- - Json: a JSON value as a data type, with the look-ups of a map.
-- - Store/Responses: internal/store/responses.go, the table response_sessions.
-- - Sessions: internal/sessions/reconstruct.go, and Sessions/Service: internal/sessions/service.go. `walk` is the
--   loop over the links, `append_nodes` the loop over the stored responses; Chain, History, its
--   children Gathered and Nodes, and Reconstruct have the theorems.
-- - Devin/StreamMapper: internal/devin/stream_mapper.go. Frames has its input and its events, with the types it
--   uses of internal/devin/proto/proto.go; Sections and Methods carry a relation from the sections of `push` and
--   `finalize` to the methods; Client is a reader of the events, Refinement and Reading relate it to the mapper,
--   and Limits has the bounds.
-- - Devin/Session: internal/devin/session.go; Normal has the normal form of a token.
-- - Store/ApiKeys: internal/store/api_keys.go, the table api_keys; Revocation has the theorems.
-- - RequestSource: internal/requestsource/source.go, the client's address; Client has the theorem.
-- - Store/AdminSessions: internal/store/admin_sessions.go, the table admin_sessions; Revocation has the theorem.
-- - Store/ModelCapabilities: internal/store/model_capabilities.go, the table account_model_capabilities.
-- - Models: internal/models/catalog.go, the catalog of the models that accounts offer. `refresh_from_models`
--   writes a snapshot, `account_supports` and `public` read it; Overlay has the aliases of the static catalog.
--
-- How they interact: `candidates` reads accounts, capabilities and cooldowns and calls `order`; the loop
-- of `Execute` visits the accounts in that order, calls the provider of each, and writes its failures
-- and its success through the cooldown manager into the two tables of `Db`.
--
-- How the state is modelled: a `World` holds the tables and a log of the actions, newest first. A
-- provider, a credential manager and the clock are the fields of `Env`; their answers depend on the
-- whole world, and a call may leave the tables changed, which also stands for requests that run at the
-- same time. A Go error is what errors.As and errors.Is find in it (`GoError`). The data of an event is
-- what json.Unmarshal makes of it. The decryption of credentials is the parameter `decode`.
--
-- Bounds: every loop runs over a list or over a number of rounds fixed before it begins, but for the
-- loop over the prefixes of a session token, whose fuel is the length of the token: a round takes the prefix
-- off. The loop over the links of a conversation has the rounds of its own limit of 256. Cursors are
-- uint64 and wrap around at 2^64. Instants and durations are natural numbers of nanoseconds, 0 for the
-- zero time; negative ones, and overflow of int64, are left out.
--
-- Hashes, ciphers, random texts, the encoding of JSON and the orders of the database are parameters.
--
-- Not modelled: a failure of the database other than a missing row, an unknown provider, credentials that
-- do not decode, a constraint of uniqueness, or the foreign key from the cooldowns to the accounts;
-- cancellation within the failover loop; the text of most errors; and the parts of the program that are
-- not named above.
pub mod Prelude
pub mod Provider
pub mod Time
pub mod Json
pub mod Sessions
pub mod Devin
pub mod RequestSource
pub mod Models
pub mod Store
pub mod Routing
pub mod Throttle
