-- ===== src/Router/Board/Order.antt =====
-- The order of times in a search, either way, and the better one of two rides.
use rrrr.Prelude.{
  ℕ, ◌+◌, ◌≤◌, ◌≡◌, ◌≢◌, ◌⊎◌, Bool, true, false, List, [], ◌∷◌, ltb, leb, ◌==◌, not, ◌&&◌,
  if◌then◌else◌, arith, All,
}
use rrrr.Rtime.{unreached, rtime_one_day}
use rrrr.Router.{ServiceDay}
use rrrr.Router.Board.{Best}

-- `a` is at least as good a time as `b`: as early, or as late in an arrive-by search.
abbrev pub NoWorse : Bool → ℕ → ℕ → Type 0
NoWorse true a b = b ≤ a
NoWorse false a b = a ≤ b

pub NoWorse-refl : (arrive : Bool) (a : ℕ) → NoWorse arrive a a
NoWorse-refl true a = omega arith
NoWorse-refl false a = omega arith

pub trans-NoWorse :
    (arrive : Bool) (a b c : ℕ) → NoWorse arrive a b → NoWorse arrive b c → NoWorse arrive a c
trans-NoWorse true a b c h k = omega arith
trans-NoWorse false a b c h k = omega arith

-- The body of the loop over the trips, from the results of its tests.
unfoldable pub pick : Bool → Bool → ℕ → Best → Best → Best
pick runs arrive prev_time new best =
    if not runs
    then best
    else (if new.time == unreached
        then best
        else (if (if arrive
              then leb new.time prev_time && ltb best.time new.time
              else leb prev_time new.time && ltb new.time best.time)
            then new
            else best))

pub pick-improves :
    (runs arrive : Bool) (prev_time : ℕ) (new best : Best)
    → NoWorse arrive (pick runs arrive prev_time new best).time best.time
unfolding pick
pick-improves runs true prev_time new best = ground arith
pick-improves runs false prev_time new best = ground arith

pub pick-covers :
    (arrive : Bool) (prev_time : ℕ) (new best : Best)
    → new.time ≢ unreached
    → NoWorse arrive prev_time new.time
    → NoWorse arrive (pick true arrive prev_time new best).time new.time
unfolding pick
pick-covers true prev_time new best h c = ground arith
pick-covers false prev_time new best h c = ground arith

pub pick-cases :
    (runs arrive : Bool) (prev_time : ℕ) (new best : Best)
    → (pick runs arrive prev_time new best ≡ best)
      ⊎ ((pick runs arrive prev_time new best ≡ new)
          × (runs ≡ true)
          × (new.time ≢ unreached)
          × NoWorse arrive prev_time new.time)
unfolding pick
pick-cases runs true prev_time new best = ground arith
pick-cases runs false prev_time new best = ground arith

pub All-map₂ :
    {A : Type 0} (P Q R : A → Type 0)
    → ((x : A) → P x → Q x → R x)
    → (xs : List A) → All P xs
    → All Q xs
    → All R xs
All-map₂ P Q R f [] p q = tt
All-map₂ P Q R f (x ∷ xs) p q = (f x p.0 q.0, All-map₂ P Q R f xs p.1 q.1)

pub exit_absurd : (a b : Bool) → (not a && not b) ≡ true → (a ≡ true) ⊎ (b ≡ true) → ⊥
exit_absurd a b q h = ground arith

pub NoWorse-edge :
    (arrive : Bool) (mid lo hi time : ℕ)
    → (mid + lo ≤ time) × (time ≤ mid + hi)
    → NoWorse arrive (mid + (if arrive then hi else lo)) time
NoWorse-edge true mid lo hi time b = b.1
NoWorse-edge false mid lo hi time b = b.0

pub out_of_day-absurd :
    (arrive : Bool) (mid lo hi prev time : ℕ)
    → (if arrive then ltb prev (mid + lo) else ltb (mid + hi) prev) ≡ true
    → (mid + lo ≤ time) × (time ≤ mid + hi)
    → NoWorse arrive prev time
    → ⊥
out_of_day-absurd true mid lo hi prev time h b c = ground arith
out_of_day-absurd false mid lo hi prev time h b c = ground arith

-- The next service day: a day later, or earlier in an arrive-by search.
abbrev pub After : Bool → ServiceDay → ServiceDay → Type 0
After true day next = next.midnight + rtime_one_day ≤ day.midnight
After false day next = day.midnight + rtime_one_day ≤ next.midnight

pub After-edge :
    (arrive : Bool) (day next : ServiceDay) (lo hi time : ℕ)
    → After arrive day next
    → ltb (lo + rtime_one_day) hi ≡ false
    → (day.midnight + lo ≤ time) × (time ≤ day.midnight + hi)
    → NoWorse arrive time (next.midnight + (if arrive then hi else lo))
After-edge true day next lo hi time a o b = ground arith
After-edge false day next lo hi time a o b = ground arith
