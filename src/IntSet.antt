-- ===== src/IntSet.antt =====
-- intset.c: a set of 32-bit numbers, as a hash table with a chain for each hash.
--
-- The first element of a chain stands in the table itself; the allocated ones after it are the list
-- `next`. `malloc` is taken to succeed.
pub mod Laws
mod Tests
use rrrr.Prelude.{
  ℕ, zero, suc, ◌-◌, ◌%◌, ◌^◌, Bool, true, false, List, [], ◌∷◌, ◌==◌, if◌then◌else◌, update,
  range_from,
}

abbrev pub intset_none : ℕ
intset_none = 2 ^ 32 - 1

pub record Element : Type 0 where
  pub key : ℕ
  pub next : List ℕ

pub record IntSet : Type 0 where
  pub size : ℕ
  pub elements : ℕ → Element

-- The loop of `IntSet_clear` over these indexes.
unfoldable pub clear_elements : List ℕ → (ℕ → Element) → ℕ → Element
clear_elements [] elements = elements
clear_elements (i ∷ is) elements =
    clear_elements is (update elements i (record { key = intset_none; next = [] }))

unfoldable pub intset_clear : IntSet → IntSet
intset_clear is = record is { elements = clear_elements (range_from 0 is.size) is.elements }

-- `garbage` is what the allocated memory holds.
unfoldable pub intset_new : (ℕ → Element) → ℕ → IntSet
intset_new garbage n = intset_clear (record { size = n; elements = garbage })

-- The loop of `IntSet_contains` along a chain.
abbrev pub chain_contains : ℕ → List ℕ → ℕ → Bool
chain_contains key [] value = if key == value then true else false
chain_contains key (k ∷ ks) value = if key == value then true else chain_contains k ks value

unfoldable pub intset_contains : IntSet → ℕ → Bool
intset_contains is value =
    let e = is.elements (value % is.size) in chain_contains e.key e.next value

-- The loop of `IntSet_add` along a chain: what follows the element with this key.
abbrev pub chain_add : ℕ → List ℕ → ℕ → List ℕ
chain_add key [] value = if key == value then [] else value ∷ []
chain_add key (k ∷ ks) value = if key == value then k ∷ ks else k ∷ chain_add k ks value

abbrev pub element_add : Element → ℕ → Element
element_add e value =
    if e.key == intset_none
    then record { key = value; next = [] }
    else record e { next = chain_add e.key e.next value }

unfoldable pub intset_add : IntSet → ℕ → IntSet
intset_add is value =
    let hash = value % is.size in
    record is { elements = update is.elements hash (element_add (is.elements hash) value) }
