-- ===== src/Lib.antt =====
-- The websocket server of the repository (TypeScript, src/): stores and their customers talk in
-- threads, get notifications and learn whether a listing was published; the server keeps its data in
-- MongoDB, counts and locks in Redis, and answers each socket event with an acknowledgement.
--
-- The parts and their files:
-- - Attendance: src/repositories/chat_repository.ts. Attendance.antt has the documents, the unique
--   indexes of src/db/mongo.ts and the calls to libraries; Actions the asynchronous methods; Sides and
--   Latest the pure functions; Metadata the settings and responsibles; Threads finding and creating a
--   thread; Send and Create create_message; Listing list_messages and find_message_by_id; Recent
--   list_recent_attendance_threads; Read mark_conversation_read. Grows, Monotone, NeverBack, Sending,
--   Seen, Listed and Merged have proofs.
-- - Publication: src/repositories/publication_result_repository.ts. Sanitize and Resolve look a reported
--   result up; Receipts has claim, mark_published and release, which the HTTP route calls around the
--   announcement so that a result is announced once while its receipt is stored; `expire` is what the
--   TTL index of src/db/mongo.ts deletes.
-- - RateLimiter: src/services/customer_rate_limiter.ts, with the sorted sets of Redis.antt.
-- - Work: SocketWorkTracker and register_socket_event of src/socket/handlers/shared.ts. Ack:
--   src/contracts/ack.ts and the permission checks of the same handlers, whose answers Work sends.
-- - Notifications: src/repositories/notification_repository.ts: the documents, then Creating, Listing and
--   Marking; Create, Owned, Pages and Read have proofs.
-- - Presence: src/services/presence_service.ts, the scripts, the connection and end of a socket,
--   and the observers.
-- - SyncCache: src/services/sync_cache.ts, which caches the first answer to a client.
-- - Ecommerce: src/repositories/ecommerce_chat_repository.ts, the conversations of a store's customers.
--   Ecommerce.antt has the documents, the unique indexes and the calls; Latest the update pipelines;
--   Idempotent the keys of a message that is sent again; Conversations, Identity, Sending, Reading and
--   Listing the methods. Operations is the form of a proof on every method, which NeverBack and
--   Counted use; Again has the message of a store that is sent again.
-- - Gateway: src/socket/realtime_gateway.ts: which rooms an event is sent to, and what is dropped from
--   SyncCache before. Rooms has the names of the rooms, Audience a proof on them. Serializers:
--   src/serializers/realtime.ts, the payloads.
-- - Http: src/http/app.ts: Requests the guard during shutdown and the request ids, Errors the error
--   handler, Events what a publication result tells, Publications the route /internal/publication-results, which composes Publication,
--   Notifications and Gateway, Notices the route /internal/notifications, and Chats the route
--   /internal/chat-messages/publish. The children have the proofs on calls that fail.
-- - Effects: asynchronous methods that throw, command by command, and transactions; Keeps is a logic for
--   what every command of a method keeps. Attendance, Ecommerce and Http are written with it.
-- - CompoundKey: src/utils/compound_key.ts, the key under which Attendance stores a thread.
-- - Prelude: tests, lists, texts, maps and sorting. Mongo and Redis: the commands in use. Value: data
--   of unknown type. Config: fields of src/config/app_config.ts. Tests: the theorems at concrete inputs.
--
-- Conventions. A number is a natural number: times are milliseconds, and an ObjectId is the number of
-- its creation, whose hexadecimal text compares as the number does. A text is its sequence of code
-- points, which for text of the basic plane are the code units of the language. Commands of MongoDB and
-- Redis are records of functions with what their manuals promise; ObjectId, hashes, dates in texts,
-- isDeepStrictEqual and redact_sensitive_text are arguments. The clock, new ids and random texts are
-- arguments too. A method that waits for a command may find that other processes have changed the
-- collections: `between` and `others` stand for what they do, at each wait. A transaction runs at one
-- point of time and leaves no trace when it throws, since the driver retries an attempt that conflicts.
-- A Redis script that throws is taken not to have run. All loops are structural recursion, the
-- attempts of the cache on the number that is left: no model has fuel. A theorem about `undisturbed`
-- commands is one about a method that runs alone.
--
-- Not modelled: the expiry of keys in Redis, logging, the heartbeat,
-- the list and the database writes of presence, the marketplace and support repositories with their
-- events, authentication and the socket handlers. Of the HTTP application the health checks and the
-- middleware of libraries are not modelled; a request reaches a route after its token and its schema
-- were checked. Schemas, configuration and the set-up of connections are declarations for libraries or
-- input and output.
pub mod Prelude
pub mod Mongo
pub mod Config
pub mod Value
pub mod Publication
pub mod Redis
pub mod RateLimiter
pub mod Ack
pub mod Work
pub mod Notifications
pub mod CompoundKey
pub mod SyncCache
pub mod Presence
pub mod Attendance
pub mod Effects
pub mod Http
pub mod Ecommerce
pub mod Serializers
pub mod Gateway
pub mod Tests
