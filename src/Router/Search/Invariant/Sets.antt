-- ===== src/Router/Search/Invariant/Sets.antt =====
-- The bitsets of a router under the operations of a search.
use rrrr.Prelude.{ℕ, ◌<◌, Bool, true, false, Option, none, some, arith, ◌∙◌}
use rrrr.Prelude.Effects.{Ensures}
use rrrr.BitSet.{BitSet, bitset_set, bitset_unset, bitset_reset}
use rrrr.BitSet.Laws.{Assigns, bitset_set-Assigns, bitset_unset-Assigns, bitset_reset_lem}
use rrrr.Router.Search.Invariant.{IsSized}

Assigns-IsSized :
    (n : ℕ) (bs : BitSet) (i : ℕ) (b : Bool) (o : Option BitSet)
    → IsSized n bs
    → i < n
    → Assigns bs i b o
    → Ensures (IsSized n) o
Assigns-IsSized n bs i b none s lt a = absurd (omega (arith, s.size))
Assigns-IsSized n bs i b (some bs') s lt a = record { valid = a.1; size = a.2 ∙ s.size }

pub bitset_set-IsSized :
    (n : ℕ) (bs : BitSet) (i : ℕ) → IsSized n bs → i < n → Ensures (IsSized n) (bitset_set bs i)
bitset_set-IsSized n bs i s lt =
    Assigns-IsSized n bs i true _ s lt (bitset_set-Assigns bs i s.valid)

pub bitset_unset-IsSized :
    (n : ℕ) (bs : BitSet) (i : ℕ) → IsSized n bs → i < n → Ensures (IsSized n) (bitset_unset bs i)
bitset_unset-IsSized n bs i s lt =
    Assigns-IsSized n bs i false _ s lt (bitset_unset-Assigns bs i s.valid)

pub bitset_reset-IsSized : (n : ℕ) (bs : BitSet) → IsSized n bs → IsSized n (bitset_reset bs)
bitset_reset-IsSized n bs s =
    let r = bitset_reset_lem bs s.valid in record { valid = r.0; size = r.1 ∙ s.size }
