-- ===== src/Rtime/Laws.antt =====
-- What util.c promises of router times: the round trip from a wall clock to its display.
use rrrr.Prelude.{ℕ, ◌*◌, ◌/◌, ◌≤◌, ◌<◌, ◌≡◌, some, arith}
use rrrr.Rtime.{Tm, today, btimetext, epoch_to_rtime, sec_in_one_day}

-- A `struct tm` of the C library: an hour below 24, and no leap second.
pub record IsClock (tm : Tm) : Type 0 where
  pub hour_lt : tm.tm_hour < 24
  pub min_lt : tm.tm_min < 60
  pub sec_lt : tm.tm_sec < 60

-- The time of a date after the first day of 1970, displayed, is its hour, minute and second (this
-- one rounded down to a multiple of 4) of today.
pub btimetext-epoch_to_rtime :
    (time : ℕ) (localtime gmtime : ℕ → Tm) (epochtime : ℕ)
    → sec_in_one_day ≤ epochtime
    → IsClock (localtime epochtime)
    → btimetext (epoch_to_rtime time localtime gmtime epochtime).0
      ≡ some (record {
        hours = (localtime epochtime).tm_hour;
        minutes = (localtime epochtime).tm_min;
        seconds = (localtime epochtime).tm_sec / 4 * 4;
        day = today;
      })
unfolding btimetext epoch_to_rtime
btimetext-epoch_to_rtime time localtime gmtime epochtime h c = ground arith
