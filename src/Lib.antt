-- ===== src/Lib.antt =====
-- A verification library for jiuyue's backend: instant messaging over WebSockets, with groups,
-- typing indicators and per-Device read positions.
--
-- The program (backend/crates). `contract` defines what crosses the wire. `realtime` serves the
-- live connections: a registry of who is connected, a writer with a replay buffer for each
-- connection, the typing directory, and buffers that coalesce what goes to the database. `chat`
-- holds the use cases and the SQL behind them; `realtime` calls it for audiences and to store
-- Messages and positions. `auth` signs Users in and throttles attempts; `server` wires the parts
-- to HTTP.
--
-- Which file models which part (paths below backend/crates):
--   Contract            contract/src: the events, errors and records
--   Realtime/Registry   realtime/src/registry.rs: `register`, `unregister`, `deliver`
--   Realtime/Replay     realtime/src/replay.rs: `ReplayBuffer::record` is `record_envelope`
--   Realtime/Writer     realtime/src/session.rs: `ConnectionWriter` and the resume handshake
--   Realtime/Liveness   realtime/src/liveness.rs: the last heartbeat of a peer
--   Realtime/Session    realtime/src/session.rs: `handle_frame` and what a frame does to the hub
--   Realtime/Typing     realtime/src/typing.rs: the directory and the hub's three handlers
--   Realtime/Cursor     realtime/src/cursor.rs and the flushes of session.rs
--   Realtime/Presence   realtime/src/presence.rs: the checkpoint of last-seen instants
--   Auth/Limiter        auth/src/limiter.rs: `AttemptRecord` is Attempt, the in-process store is Store
--   Auth/Validation     auth/src/validation.rs: the rules for typed names, emails and passwords
--   Auth/Errors         auth/src/error.rs
--   Auth/Tokens         auth/src/token.rs: access tokens and their lifetime
--   Auth/Mail           auth/src/links.rs, mailer.rs: the messages and their links
--   Auth/Store          auth/src/repository.rs (Accounts), account_tokens.rs (Links) and
--                       oauth/repository.rs (OAuth, Pending): the tables and the statements on them
--   Auth/Service        auth/src/service.rs: SignIn has `register`, `login`, `refresh`, `logout` and
--                       `authenticate`, Recovery the two journeys by email, Requests all of them as
--                       the steps of one relation
--   Auth/OAuth          auth/src/oauth/provider.rs and pkce.rs; Client is client.rs, Handles, SignIn,
--                       Opening and Callback are service.rs, Json is what is read of JSON
--   Chat/Permission     chat/src/permission.rs: the table of roles
--   Chat/SyncCursors    chat/src/service.rs and repository.rs: storing sync cursors
--   Chat/Store          chat/src/repository.rs: the tables, and the statements on them
--   Chat/Messages       chat/src/service.rs: `send_message`, `mark_read`, `list_messages`
--   Chat/Groups         chat/src/service.rs: the eight operations on a group; Inviting is
--                       `create_group`, Adding is `add_group_members` and the announcement
--   Chat/Errors         chat/src/error.rs
--   Chat/Ident, Text    chat/src/service.rs: ids and page sizes, and how typed text is normalised
--   Base                shared: tests, lists, maps, fixed-width arithmetic, `i64`
--
-- State is a record, and an operation returns the new one beside its result. A handler that runs
-- under a lock is one step; the code's own maps are lists of entries with distinct keys, whose
-- order nothing depends on. Numbers are unbounded where the code cannot reach the end of their
-- width, and wrap, saturate or are checked where the code says so: connection ids and sequences
-- wrap at 2^64, and a theorem that needs them not to says so.
--
-- Parameters, each with the documented behaviour that is used: tokio's channels (`Channel`,
-- `Outbound`), the clock, the answers of the database to a flush (`CursorStore`), and what other
-- transactions commit between two steps of a send (`others`) or mark while a checkpoint of
-- presence is written (`meanwhile`), or commit while a password is checked (`others` of `login`).
-- Of a library are also the signature of an access token and SHA-256 (`Crypto`), and argon2
-- (`PasswordHasher`); the client of HTTP, JSON and the encoding of forms (`Wire`), and the
-- system's randomness (`Random`); new ids, secrets and the answers of the clocks come with a
-- request (`Supply`, `Draws`). Lower-casing by Unicode's tables and the order of ids as texts in
-- the database enter as functions. SQL statements are translated to functions on tables, row by
-- row; the table of members stands in join order. One loop runs on fuel: the eviction of the
-- limiter, which removes an entry in each turn and is given as many turns as there are entries.
-- The handles of new accounts are tried `max_username_attempts` times, as in the code.
--
-- Not modelled: the select loop of a connection and the hub that wires the parts, the lists of
-- conversations, direct conversations and the sync state that a Device is sent when it connects;
-- HTTP routing, serialisation, logging, the client of HTTP behind the OAuth providers, the
-- transport of mail, and the desktop and web clients.
pub mod Base
pub mod Contract
pub mod Realtime
pub mod Chat
pub mod Auth
