-- ===== src/Lib.antt =====
-- Verification of a room booking system: the booking service, the import of the university
-- timetable into it, the auth service that issues its tokens, and the gateway in front of both.
--
-- The parts and how they interact. A client reaches the gateway, which hands each path to one of the
-- two services and rewrites errors into JSON. The auth service keeps accounts and issues tokens. The
-- booking service takes a caller's identity from such a token, checks roles and conflicts, and keeps
-- rooms and bookings in PostgreSQL; it publishes an event for each booking made or cancelled. When it
-- starts, it imports the timetable once, under a lock in the database: lessons become bookings of an
-- admin with the user id 0. The bot is a program of its own: it reads the same site into its own
-- database, and keeps students, teachers, homework and notifications there.
--
-- Files and the code they model. Names are the code's in snake case.
--   Booking/Role, Booking/Domain   internal/core/booking/domain
--   Booking/Ports                  internal/core/booking/port: a record of functions on a state
--   Booking/Service                internal/core/booking/service/service.go, over any ports
--   Booking/Http                   internal/adapter/booking/http
--   Store/Table                    the tables of migrations/booking and the SQL statements, as
--                                  functions on lists of rows that check the constraints
--   Store/World                    the database with other clients, faults and transactions
--   Store/Repository               internal/adapter/booking/postgres/store.go; `store_ports` is the
--                                  service put together as in cmd/booking/main.go
--   Store/Import                   `ReplaceParsedSchedule` of store.go
--   Parser/Domain, Parser/Service  internal/core/parser
--   Parser/Times, Parser/RoomName  the readers of service.go, and the normalizing of room names there
--                                  and in store.go
--   Page                           what goquery selects on the timetable's pages, and start times
--   Parser/Source                  internal/adapter/parser/httpparser/parser.go
--   Startup                        cmd/booking/main.go (import at the start, its status) and
--                                  internal/adapter/booking/postgres/import_lock.go
--   Auth/Domain, Auth/Service      internal/core/auth
--   Auth/Memory, Auth/Users        internal/adapter/auth/repository: in memory, and over PostgreSQL
--   Auth/Token                     internal/adapter/auth/jwt and internal/adapter/auth/http/middleware
--   Auth/Handler                   internal/adapter/auth/http/handler
--   Httpx                          internal/platform/httpx: tokens, identities, middleware
--   Platform/Logging               internal/platform/logging
--   Platform/Server                internal/platform/httpx/server.go
--   Platform/Publisher             internal/adapter/booking/events
--   Gateway                        internal/adapter/gateway/http/proxy.go
--   Config                         internal/config/config.go
--   Bot/Tables, Bot/Session        the bot's tables, and its statements and transactions with faults;
--                                  the Bot files model timetable-homework-tgbot/internal
--   Bot/Users, Bot/Homework,       infrastracture/repositories
--   Bot/HomeworkLists,
--   Bot/Notifications, Bot/Lessons
--   Bot/Fill, Bot/Workers          infrastracture/database/fill_database.go
--   Bot/Source                     infrastracture/parser/parser.go
--   Clock, Prelude                 instants; shared helpers, texts and decimal numbers
--   Tests                          concrete data, and the theorems at inputs where they apply
-- Below a part, files such as Store/Repository/Safety hold proofs.
--
-- State. Stateful code is a function from a state to a result and the next state (`M`); a failed call
-- keeps the state it reached. For the use cases the state is any type; for the store it is `World`:
-- the tables, the broker, the clock, and a plan that says, for each statement of ours in turn, which
-- statements of other clients run before it and whether it is refused or its reply is lost. A
-- transaction is one step for the other clients, each of its statements may fail, and a failed one
-- restores the tables but not the sequences. The bot's state is `Session`: its tables, and for each
-- statement whether it fails; statements of its other calls are not interleaved. The writer to Logstash
-- runs beside its callers: a schedule lists the calls of `Write` and the actions of its goroutine. The
-- workers of the bot's import, its channels and its context are a step relation.
--
-- Bounds. Loops are structural recursion on lists; the weeks of an expansion are counted down from the
-- configured number; printing an `int` takes 20 rounds, one more than the digits of a 64-bit number.
-- Waiting for the import lock is a loop over the attempts that are given, and says so when they run
-- out.
--
-- Simplifications. SQL statements are modelled by what they do to the tables, with identifiers and
-- capacities as integers (a capacity that does not fit INT is refused, identifiers are not bounded).
-- Texts are lists of code points. An instant counts nanoseconds without an upper end; a statement's
-- instants are cut to the microseconds of a TIMESTAMPTZ (`timestamptz`). A location is a
-- parameter that splits instants into days and times of day. The text of an error that quotes a value
-- leaves the value out. Parameters stand for: the JWT library, `strings.ToLower`, `url.Parse`, JSON,
-- RFC 3339 and status texts, time zones, the selections of goquery, and PostgreSQL's collation.
--
-- Not modelled: the AMQP, HTTP and HTML libraries, the environment and the handlers of the loggers,
-- access logs, generated code beyond request and response types, process entry points, and the front
-- end.
mod Prelude
pub mod Clock
pub mod Booking
pub mod Bot
pub mod Store
pub mod Parser
pub mod Page
pub mod Platform
pub mod Httpx
pub mod Auth
pub mod Startup
pub mod Gateway
pub mod Config
mod Tests
