-- ===== src/Lib.antt =====
-- The Discord support hub: a control plane that keeps the desired state of a merchant's support
-- spaces in Postgres and projects it to Discord by queued tasks, with a reconciler that repairs
-- drift. The parts and their files:
-- * Domain models the entities of internal/domain/domain.go.
-- * Store (Db, Spaces, Members, Jobs, Outbox, Users, Merchants, ApiKeys, Tokens, Listings) models
--   internal/store/postgres/postgres.go: each query is a statement, a function of the time and of
--   the tables. A table is a list of rows in the order of their creation. A constraint of
--   migrations/0001_init.sql that makes a statement fail is a definition of its own, which the
--   statement tests. A row's new id is a parameter.
-- * Discord models the calls on permissions of internal/discord/discord.go, and Discord.Guild those
--   on members and messages, over interfaces for discordgo, which is no code of the repository.
--   Discord.Laws states the documented behaviour that the theorems rely on.
-- * Effects is how a handler runs: the tables, a sequence of faults for the database calls, the
--   time, the Discord side, and the locks with the rest of Valkey are one state.
--   A fault loses a call before it runs or loses the answer of one that ran.
-- * Worker (Locks, Invite, Expel, Lifecycle, Provision, AgentRole, Nickname, Welcome, Sweep) models
--   `handle` of invite_collaborator.go, expel_collaborator.go, change_lifecycle.go,
--   provision_space.go, project_agent_role.go, apply_nickname_suffix.go, sync_welcome.go and
--   reconcile_space.go in internal/worker, and the test of a schedule in scheduler.go.
--   Worker.Dispatch is the registration of the handlers in worker.go. Worker.View follows one
--   overwrite through a handler's calls.
-- * Worker.Relay models `tick` of internal/worker/relay.go over an interface for the client of
--   asynq; in its Env the outer side is the queue in place of Discord.
-- * Reconcile models internal/reconcile/reconcile.go: the sweep of one space and of the guild.
-- * Worker.Retry models the retry delay of internal/worker/errors.go on 64 bits.
-- * Lock and Valkey model internal/lock/lock.go over an interface for Valkey.
-- * Ratelimit (Doubles, Hashes, Waits) models internal/ratelimit/ratelimit.go with the script that it
--   runs in Valkey. The script counts in doubles, which are an interface with the laws on signs and
--   order that rounding keeps; nothing is taken to be exact.
-- * Secrets models internal/secrets/secrets.go; Oauth (Nonces, State, Redeem, Tokens, Exchange)
--   models the state tokens, the nonce stores, the token store and the exchange of a code of
--   internal/oauth over parameters for the cryptography, the coding and HTTP.
-- * Api (Bearer, Auth, Guarded, Idempotency, Replays, Untouched) models internal/api/middleware and
--   internal/authz.
-- * Handlers (Provision, Lifecycle, Invite, Expel, Agents, Merchants, Welcome, Validation, Route)
--   models the requests that write in internal/api/handlers, and their routes in
--   internal/api/router.go with both middlewares; Handlers.Callback models the OAuth callback of
--   transversal.go. Handlers.Spaces models the listing and the lookup of spaces through the cache,
--   and Handlers.Reads the reads of jobs.go and transversal.go. A request is a record of what the
--   handler reads of it; a body that cannot be decoded is `none`. A response is a status and
--   fields; the connect URL is the state that it carries. The ids in a path are taken to be
--   well-formed where the code does not test them.
-- * Examples holds a Discord that meets the laws, a hub with one space, and the theorems there.
-- The handlers, the workers and the reconciler share their state only in the store, the queue and
-- Discord. Every loop is a recursion on a list, so there is no fuel. Texts of errors, logs and
-- metrics are not modelled, and a JSON payload is what it decodes to. Not modelled: the
-- implementation of the cache, the listings of agents and merchants, the registration of
-- schedules, the configuration, the observability, the commands and the web front end.
pub mod Api
pub mod Discord
pub mod Domain
pub mod Effects
pub mod Examples
pub mod Handlers
pub mod Lock
pub mod Oauth
pub mod Prelude
pub mod Ratelimit
pub mod Reconcile
pub mod Secrets
pub mod Store
pub mod Valkey
pub mod Worker
