-- ===== src/Bookings/Service/Schedule.antt =====
-- The invariant of internal/bookings/bookings.go's package comment: no two confirmed bookings on
-- one page overlap. It is a condition on the rows of `bookings` alone.
use whenweall.Prelude.{
  ◌≡◌, ◌≢◌, Bool, false, ◌&&◌, List, [], ◌∷◌, ◌++◌, arith, ltb, ◌==◌, All, All-append, update_where,
  if◌then◌else◌, sym,
}
use whenweall.Bookings.Store.{Booking, is_confirmed}

abbrev pub clash : Booking → Booking → Bool
clash a b =
    is_confirmed a.status
    && is_confirmed b.status
    && a.page_id == b.page_id
    && ltb a.start_at b.end_at
    && ltb b.start_at a.end_at

-- Two different rows, which do not clash.
abbrev pub Fits : Booking → Booking → Type 0
Fits a b = (a.id ≢ b.id) × (clash a b ≡ false)

abbrev pub IsSchedule : List Booking → Type 0
IsSchedule [] = Unit
IsSchedule (b ∷ bs) = All (Fits b) bs × IsSchedule bs

pub Fits-symm : (a b : Booking) → Fits a b → Fits b a
Fits-symm a b (ne, h) = ((λ e. ne (sym e)), ground arith)

pub IsSchedule-append :
    (b : Booking) (bs : List Booking) → All (Fits b) bs → IsSchedule bs → IsSchedule (bs ++ b ∷ [])
IsSchedule-append b [] f h = (tt, tt)
IsSchedule-append b (c ∷ bs) (f, fs) (g, h) =
    (All-append (Fits c) bs (b ∷ []) g (Fits-symm b c f, tt), IsSchedule-append b bs fs h)

-- A change of some rows, under which two rows of which `Q` holds still fit, keeps the invariant.
module _ (Q : Booking → Type 0) (p : Booking → Bool) (f : Booking → Booking) where
  abbrev pub updated : Booking → Booking
  updated b = if p b then f b else b

  module _ (keeps : (a b : Booking) → Q a → Q b → Fits a b → Fits (updated a) (updated b)) where
    update_where-All-Fits :
        (a : Booking) (bs : List Booking)
        → Q a
        → All Q bs
        → All (Fits a) bs
        → All (Fits (updated a)) (update_where p f bs)
    update_where-All-Fits a [] q qs h = tt
    update_where-All-Fits a (b ∷ bs) q (r, qs) (g, h) =
        (keeps a b q r g, update_where-All-Fits a bs q qs h)

    pub update_where-IsSchedule :
        (bs : List Booking) → All Q bs → IsSchedule bs → IsSchedule (update_where p f bs)
    update_where-IsSchedule [] qs h = tt
    update_where-IsSchedule (b ∷ bs) (q, qs) (g, h) =
        (update_where-All-Fits b bs q qs g, update_where-IsSchedule bs qs h)
