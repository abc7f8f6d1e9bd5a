-- ===== src/Rtime.antt =====
-- util.h and util.c: times of day in 4-second units (`rtime_t`, a uint16_t), counted from
-- yesterday's midnight, and the reserved values. A time is a number below 2 ^ 16.
pub mod Laws
mod Tests
use rrrr.Prelude.{
  ℕ, ◌+◌, ◌-◌, ◌*◌, ◌/◌, ◌%◌, ◌^◌, Bool, ltb, leb, ◌==◌, if◌then◌else◌, Option, none, some,
}

abbrev pub sec_in_one_day : ℕ
sec_in_one_day = 86400

-- SEC_TO_RTIME, stored in an rtime_t
abbrev pub sec_to_rtime : ℕ → ℕ
sec_to_rtime x = x / 4 % 2 ^ 16

-- RTIME_TO_SEC
abbrev pub rtime_to_sec : ℕ → ℕ
rtime_to_sec x = x * 4 % 2 ^ 32

abbrev pub rtime_one_day : ℕ
rtime_one_day = 86400 / 4

abbrev pub rtime_two_days : ℕ
rtime_two_days = 2 * 86400 / 4

abbrev pub rtime_three_days : ℕ
rtime_three_days = 3 * 86400 / 4

-- UNREACHED, UINT16_MAX
abbrev pub unreached : ℕ
unreached = 2 ^ 16 - 1

-- NONE, WALK and ONBOARD: the greatest values of a uint32_t
abbrev pub no_index : ℕ
no_index = 2 ^ 32 - 1

abbrev pub walk : ℕ
walk = 2 ^ 32 - 2

abbrev pub onboard : ℕ
onboard = 2 ^ 32 - 3

-- CANCELED, INT16_MAX
abbrev pub canceled : ℕ
canceled = 2 ^ 15 - 1

abbrev pub agency_unfiltered : ℕ
agency_unfiltered = 2 ^ 16 - 1

-- The hour, minute and second of a `struct tm`.
pub record Tm : Type 0 where
  pub tm_hour : ℕ
  pub tm_min : ℕ
  pub tm_sec : ℕ

-- What `btimetext` prints: the clock, and which of the days it writes behind it.
pub data Day : Type 0 where
  yesterday today tomorrow overmorrow : Day

pub record Clock : Type 0 where
  pub hours : ℕ
  pub minutes : ℕ
  pub seconds : ℕ
  pub day : Day

clock_of : ℕ → Day → Clock
clock_of rt day =
    let t = rtime_to_sec rt in
    record { hours = t / 60 / 60; minutes = t / 60 % 60; seconds = t % 60; day = day }

-- `btimetext`; `none` is the text for UNREACHED.
unfoldable pub btimetext : ℕ → Option Clock
unfolding clock_of
btimetext rt =
    if rt == unreached
    then none
    else (if leb rtime_three_days rt
        then some (clock_of (rt - rtime_three_days) overmorrow)
        else (if leb rtime_two_days rt
            then some (clock_of (rt - rtime_two_days) tomorrow)
            else (if leb rtime_one_day rt
                then some (clock_of (rt - rtime_one_day) today)
                else some (clock_of rt yesterday))))

-- `epoch_to_rtime`. The C library's `time`, `localtime_r` and `gmtime_r` are arguments.
module _ (time : ℕ) (localtime gmtime : ℕ → Tm) where
  local_tm : ℕ → Tm
  local_tm epochtime =
      if ltb epochtime sec_in_one_day
      then (if ltb 0 epochtime
          then (let ltm = localtime time in
              let etm = gmtime epochtime in
              record ltm { tm_hour = etm.tm_hour; tm_min = etm.tm_min; tm_sec = etm.tm_sec })
          else localtime time)
      else localtime epochtime

  unfoldable pub epoch_to_rtime : ℕ → ℕ × Tm
  unfolding local_tm
  epoch_to_rtime epochtime =
      let ltm = local_tm epochtime in
      let seconds = (ltm.tm_hour * 60 + ltm.tm_min) * 60 + ltm.tm_sec in
      ((sec_to_rtime seconds + rtime_one_day) % 2 ^ 16, ltm)
