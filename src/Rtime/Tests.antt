-- ===== src/Rtime/Tests.antt =====
-- An instance of the round trip of util.c.
use rrrr.Prelude.{◌≡◌, some, arith}
use rrrr.Rtime.{Tm, today, btimetext, epoch_to_rtime}
use rrrr.Rtime.Laws.{IsClock, btimetext-epoch_to_rtime}

abbrev evening : Tm
evening = record { tm_hour = 23; tm_min = 59; tm_sec = 59 }

evening-IsClock : IsClock evening
evening-IsClock = record { hour_lt = omega arith; min_lt = omega arith; sec_lt = omega arith }

btimetext-epoch_to_rtime_example :
    btimetext (epoch_to_rtime 5 (λ _. evening) (λ _. evening) 1400000000).0
    ≡ some (record { hours = 23; minutes = 59; seconds = 56; day = today })
btimetext-epoch_to_rtime_example =
    btimetext-epoch_to_rtime 5 (λ _. evening) (λ _. evening) 1400000000 (omega arith)
      evening-IsClock
