-- ===== src/Lib.antt =====
-- whenweall: a verification library for the Go backend.
--
-- whenweall is a scheduling service. Its two products are polls and booking pages; the backend is
-- one Go program over one PostgreSQL database, and every replica also runs the job worker. This
-- library models the booking product (internal/bookings), the job table (internal/jobs) that
-- carries its mails, reminders and calendar syncs, the poll product's sign-up sheets, lifecycle,
-- validation, scoring and roster (internal/polls), and three small parts that both share: calendar
-- files, the limit on requests, and the address of a client.
--
-- The parts, and the files that model them:
--   * Prelude, and its children Tests, Lists, Members, Text, Outcome: Boolean tests on numbers, list
--     operations that stand for SQL's WHERE clauses, results with errors, and texts as lists of
--     code points.
--   * Jobs: internal/jobs/jobs.go. schedule, schedule_if_absent, cancel, claim_due, complete, fail
--     and retry are Schedule, ScheduleIfAbsent, Cancel, ClaimDue, Complete, fail and Retry, as
--     functions on the list of rows. Jobs/Operations makes them the steps of a history.
--   * Jobs/Worker: internal/jobs/worker.go. process and run_once are process and RunOnce; the
--     handlers are a parameter, and so is how the database answers the worker's last statement on a
--     job.
--   * Bookings/Availability: internal/bookings/availability.go. slots_in is Slots once its zone is
--     loaded, with one function for each of its loops; is_slot_available is IsSlotAvailable.
--   * Bookings/Store: the rows of internal/bookings/queries/bookings.sql and the statements on them.
--   * Bookings/Input: BookInput.Validate of internal/bookings/schemas.go.
--   * Bookings/Pages: PageInput.Validate of the same file; validate_page asks whether it records no
--     field.
--   * Bookings/Effects: the jobs that a booking method schedules, from internal/bookings/emails.go
--     and internal/bookings/google.go.
--   * Bookings/Outcome: the errors of internal/bookings/errors.go.
--   * Bookings/Service: Book, Cancel and Reschedule of internal/bookings/bookings.go. Book and
--     Reschedule read before their transaction begins; each is a function for those reads and one
--     for the transaction, so that other transactions may run between the two. Service/History is
--     the step relation of all transactions in any order.
--   * Polls/Store: the rows of internal/polls/queries/polls.sql and the statements that claims run.
--   * Polls/Claims: internal/polls/claims.go. claim is Claim, and claim_reads and claim_tx are its two
--     parts, before and after it locks the participant; unclaim, unclaim_for and signup_full are Unclaim
--     and its shared body, UnclaimFor and SignupFull. Claims/History is their step relation.
--   * Polls/Service: internal/polls/service.go, with armDeadline of internal/polls/timers.go and
--     resolveRecipients of internal/polls/notifications.go. Service/Options is replaceOptions,
--     which counts claims in one state of the database and writes in another;
--     Service/Manage is SetStatus, CloseExpired, Delete and Update; Service/Finalize is
--     FinalizeWithCount; Service/Create is Create and Duplicate. Service/History is the step relation
--     of these and of the claims, and Service/Phases the abstract machine of a poll's life.
--   * Polls/Participants: internal/polls/participants.go. add_participant, update_participant,
--     remove_participant, add_comment and delete_comment are the methods of the same names.
--     Participants/History is the step relation of the first three.
--   * Polls/Schemas: internal/polls/schemas.go, the validation of a poll's input. validate_create and
--     validate_update are the two Validate methods, and Schemas/Spec says what they are to let in.
--   * Polls/Scoring: internal/polls/scoring.go. score_options and best_option_id are scoreOptions and
--     bestOptionID.
--   * Polls/Roster: internal/polls/roster.go. build_roster_csv is BuildRosterCSV.
--   * Ics: internal/ics/ics.go. escape_text, fold_line and build_calendar are EscapeText, FoldLine and
--     BuildCalendar.
--   * Http: rate_limit is RateLimit of internal/httpserver/ratelimit.go, and from_request is
--     FromRequest of internal/clientip/clientip.go.
--   * Tests: runs on concrete inputs.
--
-- How they interact: Book and Reschedule ask Availability whether a start is free, given the
-- intervals that Store returns for the locked page, and write their row and, through Effects, the
-- rows of Jobs in the same transaction. Claims and the poll lifecycle write the tables of Polls/Store,
-- and the mails and timers of a poll are rows of Jobs in the same transaction; Create and Update ask
-- Schemas first. A transaction that returns an error writes nothing.
--
-- Representation: an instant is a number of nanoseconds since the earliest representable instant,
-- and a calendar date is its day number. Ids are numbers that are only compared for equality.
-- The zone database (a Zone of two functions), the mail address parser, HMAC and the calendar are
-- parameters, in a record Env; so are the parser of RFC 3339 and the lower case of a text. The page's
-- row lock is what makes each booking transaction one step. The lifecycle of a poll takes no such
-- lock, and its history is one of transactions that each run alone.
--
-- Fuel: the innermost loop of Slots runs on grid_fuel, one more than the number of slots that fit
-- in the range. The loops over days and ranges are structural. itoa of Polls/Roster runs on one more
-- than the number, which has at most as many digits.
--
-- Not modelled: reading and rendering of pages, bookings and polls, HTTP handlers, mail composition,
-- the calls to the calendar, the worker's poll loop, the rest of internal/polls (digests,
-- following), and the other packages (rooms, auth, admin, mailer, the rest of httpserver). Statements
-- of the poll and booking services that fail for a reason of the database's own end their transaction
-- without a write, and are left out.
pub mod Prelude
pub mod Jobs
pub mod Bookings
pub mod Polls
pub mod Http
pub mod Ics
pub mod Tests
