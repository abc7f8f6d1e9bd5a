-- ===== src/IntSet/Tests.antt =====
-- A table of two hashes, and instances of its theorems.
use rrrr.Prelude.{ℕ, ◌≡◌, ◌≢◌, refl, true, [], arith, ◌==◌, ◌||◌}
use rrrr.IntSet.{Element, IntSet, intset_none, intset_contains, intset_add}
use rrrr.IntSet.Laws.{IsTable, intset_contains-intset_add}

abbrev garbage : ℕ → Element
garbage i = record { key = i; next = [] }

abbrev pair : IntSet
pair = record { size = 2; elements = λ _. record { key = intset_none; next = [] } }

pair-IsTable : IsTable pair
pair-IsTable = record { some_hash = omega arith; chains = λ i lt e. refl }

chained : intset_contains (intset_add (intset_add pair 3) 5) 5 ≡ true
unfolding intset_add intset_contains
chained = refl

-- The reserved number is in every table, also in an empty one.
reserved : intset_contains pair intset_none ≡ true
unfolding intset_contains
reserved = refl

intset_contains-intset_add_example :
    IsTable (intset_add pair 3)
    × ((intset_add pair 3).size ≡ 2)
    × ((other : ℕ)
        → other ≢ intset_none
        → intset_contains (intset_add pair 3) other ≡ (3 == other || intset_contains pair other))
intset_contains-intset_add_example =
    intset_contains-intset_add pair 3 pair-IsTable (λ e. absurd (omega arith))
