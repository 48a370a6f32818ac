-- ===== src/Lib.antt =====
-- Verification of the room booking service: users book half-hour slots of meeting rooms, admins
-- create the rooms and their weekly schedules.
--
-- The parts of the program, by the file that models them, and how they interact:
--
-- Domain models internal/domain: the entities (Domain/Entities), the codes of statuses and roles
-- (Domain/Codes), the sentinel errors with wrapping by %w and errors.Is (Domain/Errors), and of
-- package time what the program uses (Domain/Time): an instant in nanoseconds since the zero time
-- 0001-01-01T00:00:00Z and a location, none of them before the zero time.
--
-- Slots models internal/service/slot_generator.go: parseHHMM (Slots/Parse), the days of a schedule
-- (Slots/Days), where the order in which Go visits a map is a parameter `order`, and
-- GenerateSlotsForDate and IsStartAtWithinSchedule (Slots/Generator). The loop runs on fuel for the
-- 48 half hours of a day, and its window lies within one day.
--
-- Storage models the database and internal/storage/postgres. Tables and Statements, Bookings have the
-- schema of migrations/*.sql as lists of rows and each SQL statement as one atomic step that tests the
-- constraints. World is what a request works in: the tables, a list of turns, each with what other
-- clients write before the next statement and how the connection serves it (it answers, fails before
-- the statement runs, or fails after it), and the location of the driver. A quiet world has no turns.
-- The repositories are the files named after them; a statement's failure is told apart by the name
-- of the constraint in its text, as the code does. WellFormed is the invariant of the tables.
-- Storage/Migrations models migrate.go: the files and what the database makes of a migration's text are
-- parameters, a transaction works on a draft that its commit puts in place, and Upgrade says what a run
-- is for.
--
-- Config models internal/config/config.go over the environment.
--
-- Auth models internal/auth over records of the calls of golang-jwt and bcrypt; JwtLaws has what the
-- program relies on: a signed token is parsed back until it expires. Http/Server/Sessions puts the two
-- ends together: the login and a later request with its token.
--
-- Service models the services of internal/service, one file each, over the repositories and with the
-- readings of clocks and generators of UUIDs as arguments. Service/BookingService/Ledger is an abstract
-- booking service, of who holds a start and whose a booking is, and Refinement there the view of the
-- rows that shows its ledger.
--
-- Http models internal/transport/http: the types of the bodies (Http/Api, of api/gen/types.gen.go),
-- the mapping of errors and entities (Http/Errors, Http/Mapper), the handlers (Http/Handlers), the
-- middleware for tokens, logs and panics (Http/Middleware) and the server (Http/Server): a decoded
-- request goes through the middleware to its handler. Http/Wire models the generated api/gen/server.gen.go
-- in front of the handlers: the wrapper that binds the parameters (Wire/Binding) and the strict handler
-- that decodes the body (Wire/Strict), for a request that the router has matched to a route.
-- Http/Responses has the response objects of the operations with what their Visit methods write.
--
-- Go strings are lists of bytes, a nil pointer is an Option, numbers are natural numbers where the
-- program keeps them so and else integers; the offset of a page wraps around 64 bits. Parameters are
-- the libraries: golang-jwt, bcrypt, mail.ParseAddress, strings.ToLower beyond
-- ASCII (strings.TrimSpace knows all spaces of Unicode), the text of a UUID and its parser,
-- net.SplitHostPort, the binders of the runtime package, the decoder of encoding/json, and how PostgreSQL
-- reads a time.
--
-- Not modelled: how chi matches a path to a route, the JSON text of a body and a response that cannot be
-- written, a panic after a handler has begun to write, the duration in a log line, the connection pool,
-- and the start and stop of the process, since they are input and output or the work of libraries.
--
-- Tests has concrete data, runs and instances of the theorems.
pub mod Base
pub mod Domain
pub mod Slots
pub mod Storage
pub mod Config
pub mod Auth
pub mod Service
pub mod Http
pub mod Tests
