-- ===== src/Lib.antt =====
-- A model of the backend of a chat application, in Go over PostgreSQL and Redis: accounts,
-- conversations (rooms with owners, admins and members, and direct conversations of two users),
-- messages, presence, rate limits and the delivery of events to WebSocket clients.
--
-- The parts, from the bottom up, and the files that model them:
--
-- Models           backend/internal/models: User, Conversation, ConversationParticipant, Message. A
--                  UUID is a number, the nil UUID 0; a time is a number of ticks. Models/Responses is
--                  what clients are shown of them.
-- Store            The database behind pgx. `Db` is the tables of backend/migrations, in the order
--                  of insertion, and `World` adds the outages: a schedule that says, round trip by
--                  round trip, whether the connection is down. A `Store` action is a function of
--                  the world that gives a value or an error; `transaction` is `Begin`, the body,
--                  `Commit` and the deferred `Rollback`. Store/Tables has the keys, the CHECK
--                  constraints and the INSERTs; Store/Effect the rules by which a fact about
--                  statements becomes one about whole methods, Store/Keeps those for what no run of
--                  a method changes; Store/Online what statements do while the database answers.
-- TrimSpace        Go's `strings.TrimSpace`, on bytes.
-- Strings          Go's `strings.Split`, `strings.Join`, `strings.Contains`, `strings.Fields` and
--                  `strings.EqualFold`, on bytes, with Strings/Split on the first two together.
-- Auth             backend/internal/auth/token.go, over the interface `Jwt` of the library.
-- Config           backend/internal/config/config.go: Origins is on the origins that are allowed,
--                  Required on what the environment must set.
-- Migrations       backend/internal/migrations/runner.go: Paths has the directory, its paths and
--                  their order, Replay what a run is to do, Runs what one run does under outages,
--                  Resume runs one after another, Listing the order of the directory. The runner
--                  has a state of its own: the schema, of any type, the names that are recorded,
--                  and the outages, as in Store.
-- Repository       backend/internal/repositories: Conversations, Participants and Listing are
--                  conversation_repository.go, Messages and Pages message_repository.go, Users
--                  user_repository.go, Reverse the loop of `reverseMessages`. A method is its SQL
--                  statements on `Db`.
-- Service          backend/internal/services: Rooms and Members are conversation_service.go, with
--                  Rooms/Reading on `MarkRead` and the lists, Rooms/Lookup and Rooms/Reuse on
--                  `CreateDirect`; Messages is message_service.go, with Messages/History on pages;
--                  Users is user_service.go, with Users/Login and Users/Unique on accounts. A
--                  method is a do block with a `guard` for each early return.
--                  Calls has the thirteen calls that change conversations and messages as a data
--                  type, and `run`, a history of them by authenticated callers.
-- Handlers         backend/internal/handlers: Conversations and Messages are conversations.go and
--                  messages.go, from a request to a status, a body and the events to publish.
--                  Requests is the routes of backend/internal/httpserver/router.go that change
--                  conversations and messages, Reading those that read.
--                  Accounts is auth.go, with Accounts/SignIn on a registration and a login,
--                  Accounts/Names on sequences of requests, Accounts/Online on presence.
--                  Sockets is websocket.go on a `Site`: the database, presence, the hub and what
--                  Redis has published. Sockets/Sessions has the open connections and what happens
--                  to them, Openings, Distinct and Histories the proofs on all histories, Admission
--                  who is let in, Entry what a request comes to, Typing what comes of a client's messages.
-- Membership       The specification of conversations: `View` is the type of each conversation and
--                  the role of each user in it, `Step` the policy of what one call may do,
--                  `IsConsistent` the invariant. Writes, Reads and Transactions prove the effect of
--                  each statement on the view, Services, RoomServices and MessageServices that each
--                  method is a step, Invariant and Preserved that steps keep the invariant,
--                  Reachable and Powers the results.
-- Authorship       What calls do to the messages of others: Frame has the calls that never touch
--                  messages, Writes the statements that do, Authors the result.
-- Presence         backend/internal/presence/service.go: connection counts and the Redis set.
-- RateLimit        backend/internal/ratelimit/limiter.go and
--                  backend/internal/middleware/rate_limit.go.
-- Router           backend/internal/middleware/auth.go, and the routes behind it of
--                  backend/internal/httpserver/router.go with their middleware, `Auth` and
--                  `RateLimit`, before the handlers of Handlers/Requests and Handlers/Reading.
--                  Guarded is on who gets to a handler, Bearer on the header, Tokens on the life of a
--                  token of Auth. Budgets has what the routes promise of their limits, Hits one
--                  visit, Limits how many visits are served in windows of a minute.
-- Startup          backend/cmd/server, backend/cmd/migrate and backend/internal/db: Serving is on when
--                  the server comes to serve, Migrating on the command that migrates.
-- Hub              backend/internal/realtime/hub.go and client.go: the clients of a conversation,
--                  their buffered channels, and the open Redis subscriptions. Each method that
--                  holds the lock is one step; the sends of a broadcast are steps of their own.
--                  Pumps is the two loops of a connection, with Pumps/Order and Pumps/Ending on
--                  what `WritePump` writes.
-- Base             Boolean tests, texts as byte lists, lists measured by native numbers.
-- Tests            Sample states, and the theorems at concrete inputs.
--
-- How they interact: the services call the repositories on one world, whose statements may fail at
-- any round trip; the handlers call the services with the user of the token, and then publish
-- events, which the hub delivers to the clients of the conversation; a WebSocket connection counts
-- in the presence service and is listed in the hub while it is open.
--
-- Bounds and fuel: the loop of `reverseMessages` runs on fuel, as much as there are messages, which
-- is at least its rounds. Sums of counts stay far below 2^63 and are not wrapped.
--
-- What is an argument: `uuid.New()`, `uuid.Parse`, `time.Parse`, `UUID.String`, bcrypt, the library
-- of the tokens, `strings.ToLower`, PostgreSQL's ILIKE and its collation, what a migration script does
-- to the schema, whether the servers answer when they are connected,
-- whether gin-contrib/cors takes the configured origins, the environment and the directory
-- of the migrations. The clock is a field of the state.
--
-- What is not modelled: concurrent statements of several calls (a call runs to its end before the
-- next) and of several migration runners, the deadlines of a connection, which only make its reads
-- and writes fail, the names of the JSON fields of responses, the rate limit by address before registering
-- and logging in, and the frontend.
pub mod Base
pub mod Models
pub mod Store
pub mod TrimSpace
pub mod Repository
pub mod Service
pub mod Membership
pub mod Presence
pub mod RateLimit
pub mod Hub
pub mod Auth
pub mod Authorship
pub mod Config
pub mod Handlers
pub mod Migrations
pub mod Router
pub mod Startup
pub mod Strings
pub mod Tests
