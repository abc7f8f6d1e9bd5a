-- ===== src/Radix.antt =====
-- radixtree.c: a map from strings to numbers, as a tree whose edges carry up to four characters.
--
-- A string is the list of the characters before its '\0', so its end is the empty list. The array
-- `prefix` of an edge is such a list too, of at most four characters: it has a '\0' only if it has
-- fewer. NULL is the tree `null`.
pub mod Find
pub mod Insert
pub mod Load
pub mod Compress
mod Tests
use rrrr.Prelude.{
  ℕ, zero, suc, ◌+◌, ◌-◌, ◌*◌, ◌%◌, ◌^◌, ltb, Bool, true, false, Option, none, some, List, [], ◌∷◌,
  ◌==◌, if◌then◌else◌, length, take, drop, map_option, range_from,
}
use rrrr.Prelude.Effects.{◌>>=◌, for_each}

abbrev pub radix_tree_prefix_size : ℕ
radix_tree_prefix_size = 4

abbrev pub radix_tree_none : ℕ
radix_tree_none = 2 ^ 32 - 1

pub data Edge : Type 0 where
  null : Edge
  edge : (next child : Edge) (value : ℕ) (prefix : List ℕ) → Edge

abbrev pub edge_new : Edge
edge_new = Edge.edge Edge.null Edge.null radix_tree_none []

abbrev pub rxt_new : Edge
rxt_new = edge_new

unfoldable pub rxt_edge_count : Edge → ℕ
rxt_edge_count Edge.null = 0
rxt_edge_count (Edge.edge next child value prefix) = 1 + rxt_edge_count child + rxt_edge_count next

-- `*k == *p`
abbrev pub same_char : List ℕ → List ℕ → Bool
same_char [] [] = true
same_char [] (p ∷ ps) = false
same_char (k ∷ ks) [] = false
same_char (k ∷ ks) (p ∷ ps) = k == p

-- The characters that a prefix and a key share, and what is left of the prefix and of the key.
abbrev pub Parted : Type 0
Parted = List ℕ × List ℕ × List ℕ

abbrev pub shared : ℕ → Parted → Parted
shared c (q, p, k) = (c ∷ q, p, k)

abbrev pub part : List ℕ → List ℕ → Parted
part [] ks = ([], [], ks)
part (p ∷ ps) [] = ([], p ∷ ps, [])
part (p ∷ ps) (k ∷ ks) = if k == p then shared p (part ps ks) else ([], p ∷ ps, k ∷ ks)

-- What an edge says of a key once its prefix is compared.
abbrev pub settle : Parted → ℕ → (List ℕ → ℕ) → ℕ
settle (q, p ∷ ps, ks) value below = radix_tree_none
settle (q, [], []) value below = value
settle (q, [], k ∷ ks) value below = below (k ∷ ks)

unfoldable pub rxt_find : Edge → List ℕ → ℕ
rxt_find Edge.null key = radix_tree_none
rxt_find (Edge.edge next child value prefix) key =
    if same_char key prefix
    then settle (part prefix key) value (rxt_find child)
    else rxt_find next key

-- A list of edges to insert into: a new one if there is none.
abbrev pub or_new : Edge → Edge
or_new Edge.null = edge_new
or_new (Edge.edge next child value prefix) = Edge.edge next child value prefix

-- A round of the loop of `rxt_insert` at the list of edges `e`: it has returned, and left this tree
-- there; or it goes on at another list with the rest of the key, and `put` puts what that list
-- becomes back in its place.
pub data Round : Type 0 where
  done : Edge → Round
  goto : (e : Edge) (key : List ℕ) (put : Edge → Edge) → Round

-- Case 1: a fresh edge takes up to four characters; `rest` are the others.
abbrev pub fill : Edge → Edge → ℕ → List ℕ → List ℕ → ℕ → Round
fill next child old key [] value =
    Round.done (Edge.edge next child value (take radix_tree_prefix_size key))
fill next child old key (r ∷ rs) value =
    Round.goto edge_new (r ∷ rs)
      (λ child'. Edge.edge next child' old (take radix_tree_prefix_size key))

-- Case 2: the edge matches, in whole or only in part, and then it is split.
abbrev pub match : Edge → Edge → ℕ → Parted → ℕ → Round
match next child old (q, [], []) value = Round.done (Edge.edge next child value q)
match next child old (q, [], r ∷ rs) value =
    Round.goto (or_new child) (r ∷ rs) (λ child'. Edge.edge next child' old q)
match next child old (q, o ∷ os, []) value =
    Round.done (Edge.edge next (Edge.edge Edge.null child old (o ∷ os)) value q)
match next child old (q, o ∷ os, r ∷ rs) value =
    Round.goto (Edge.edge Edge.null child old (o ∷ os)) (r ∷ rs)
      (λ child'. Edge.edge next child' radix_tree_none q)

-- Case 3, the last one: the next edge.
unfoldable pub insert_round : Edge → List ℕ → ℕ → Round
insert_round Edge.null key value = Round.done Edge.null
insert_round (Edge.edge next child old prefix) [] value =
    Round.done (Edge.edge next child old prefix)
insert_round (Edge.edge next child old []) (k ∷ ks) value =
    fill next child old (k ∷ ks) (drop radix_tree_prefix_size (k ∷ ks)) value
insert_round (Edge.edge next child old (p ∷ ps)) (k ∷ ks) value =
    if k == p
    then match next child old (part (p ∷ ps) (k ∷ ks)) value
    else Round.goto (or_new next) (k ∷ ks) (λ next'. Edge.edge next' child old (p ∷ ps))

-- The loop, on fuel.
unfoldable pub insert_from : ℕ → Edge → List ℕ → ℕ → Option Edge
insert_from zero e key value = none
insert_from (suc fuel) e key value = elim (insert_round e key value) [
  | Round.done t ↦ some t
  | Round.goto e' key' put ↦ map_option put (insert_from fuel e' key' value)
]

unfoldable pub rxt_insert : Edge → List ℕ → ℕ → Option Edge
rxt_insert root key value = insert_from (length key + rxt_edge_count root + 1) root key value

-- The loop over the array: `strings i` is the text at `strings + i`, and `last` is the offset of
-- `strings_end`.
unfoldable pub load_from : (ℕ → List ℕ) → ℕ → ℕ → ℕ → ℕ → ℕ → Edge → Option Edge
load_from strings width last zero s idx root = none
load_from strings width last (suc fuel) s idx root =
    let rest = rxt_insert root (strings s) idx >>= λ root'.
    load_from strings width last fuel (s + width) ((idx + 1) % 2 ^ 32) root' in
    if ltb s last then rest else some root

-- A width of zero makes `strings_end` the start of the array, so each round of the loop comes
-- nearer to the end and the fuel is enough.
unfoldable pub rxt_load_strings_from_tdata : (ℕ → List ℕ) → ℕ → ℕ → Option Edge
rxt_load_strings_from_tdata strings width length =
    let last = width * length % 2 ^ 32 in load_from strings width last (last + 1) 0 0 rxt_new
