-- ===== src/Bookings/Effects.antt =====
-- What the booking methods schedule in their transaction: internal/bookings/emails.go (the mails
-- and the reminder) and google.go (the calendar sync). `ids` are the fresh row ids.
use whenweall.Prelude.{ℕ, ◌-◌, Bool, false, ◌&&◌, Option, none, some, List, ◌++◌, if◌then◌else◌}
use whenweall.Jobs.{
  ScheduleInput, booking_room, mail_booking, booking_reminder, google_sync, schedule, cancel,
}
use whenweall.Bookings.Availability.{Interval, day_length}
use whenweall.Bookings.Store.{
  Db, Page, Payload, mail, reminder, sync, MailKind, Recipient, to_visitor, to_organiser, SyncKind,
}

abbrev pub schedule_job : ℕ → ScheduleInput Payload → Db → Db
schedule_job id input db = record db { jobs = schedule id input db.jobs }

enqueue_mail_booking_to : ℕ → ℕ → MailKind → ℕ → Recipient → Option ℕ → Db → Db
enqueue_mail_booking_to id now kind booking recipient previous = schedule_job id (record {
  kind = mail_booking;
  room_key = none;
  run_at = now;
  payload = some (mail kind booking recipient previous);
  max_attempts = 10;
})

-- One row for each party.
unfoldable pub enqueue_mail_booking : (ℕ → ℕ) → ℕ → MailKind → ℕ → Option ℕ → Db → Db
unfolding enqueue_mail_booking_to
enqueue_mail_booking ids now kind booking previous db =
    enqueue_mail_booking_to (ids 2) now kind booking to_organiser previous
      (enqueue_mail_booking_to (ids 1) now kind booking to_visitor previous db)

abbrev pub reminder_lead : ℕ
reminder_lead = day_length

unfoldable pub arm_booking_reminder : (ℕ → ℕ) → ℕ → ℕ → Db → Db
arm_booking_reminder ids booking start = schedule_job (ids 3) (record {
  kind = booking_reminder;
  room_key = some (booking_room booking);
  run_at = start - reminder_lead;
  payload = some (reminder booking);
  max_attempts = 0;
})

unfoldable pub cancel_booking_reminder : ℕ → Db → Db
cancel_booking_reminder booking db = record db {
  jobs = cancel booking_reminder (booking_room booking) db.jobs;
}

unfoldable pub enqueue_google_sync : (ℕ → ℕ) → ℕ → SyncKind → ℕ → Db → Db
enqueue_google_sync ids now kind booking = schedule_job (ids 4) (record {
  kind = google_sync;
  room_key = none;
  run_at = now;
  payload = some (sync kind booking);
  max_attempts = 5;
})

-- Hard-coded off in the source.
unfoldable pub google_sync_active : Bool
google_sync_active = false

-- GoogleSync.Busy, where a service is wired: `none` is its error.
abbrev pub Google : Type 0
Google = Option (ℕ → ℕ → ℕ → Option (List Interval))

unfoldable pub google_busy_for_page : Google → Page → ℕ → ℕ → List Interval → List Interval
unfolding google_sync_active
google_busy_for_page none page from to existing = existing
google_busy_for_page (some busy) page from to existing = elim page.member_user_id [
  | none ↦ existing
  | some member ↦
      if google_sync_active && page.google_sync
      then elim (busy member from to) [ none ↦ existing | some extra ↦ existing ++ extra ]
      else existing
]
