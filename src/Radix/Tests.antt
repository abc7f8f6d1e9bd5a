-- ===== src/Radix/Tests.antt =====
-- A tree of four strings, and instances of the theorems about the radix tree.
use rrrr.Prelude.{
  if◌then◌else◌, ◌==◌, ◌*◌, ◌^◌, none, ℕ, ◌≡◌, refl, some, List, [], ◌∷◌, arith, inr, map_option,
}
use rrrr.Radix.{
  Edge, radix_tree_none, rxt_new, rxt_edge_count, insert_round, insert_from, rxt_insert, load_from,
  rxt_load_strings_from_tdata,
}
use rrrr.Radix.Insert.{Updates, rxt_find-rxt_insert}
use rrrr.Radix.Compress.{compress_loop, Outcome, rxt_find-compress_loop, compress_loop-none}
use rrrr.Radix.Load.{IsLoaded, rxt_load_strings_from_tdata-IsLoaded}

-- "stop", "station", "stop" again, and "".
abbrev stop : List ℕ
stop = 115 ∷ 116 ∷ 111 ∷ 112 ∷ []

abbrev station : List ℕ
station = 115 ∷ 116 ∷ 97 ∷ 116 ∷ 105 ∷ 111 ∷ 110 ∷ []

-- The strings of an array of width 8, and what stands between them.
abbrev names : ℕ → List ℕ
names s = if s == 8 then station else if s == 24 then [] else stop

-- "st" splits off.
edges : map_option rxt_edge_count (rxt_load_strings_from_tdata names 8 4) ≡ some 4
unfolding load_from rxt_load_strings_from_tdata rxt_insert insert_from insert_round rxt_edge_count
edges = refl

rxt_find-rxt_insert_example :
    (t : Edge) × (rxt_insert rxt_new station 7 ≡ some t) × Updates rxt_new station 7 t
rxt_find-rxt_insert_example = rxt_find-rxt_insert rxt_new station 7 (inr refl) (omega arith)

rxt_load_strings_from_tdata-IsLoaded_example :
    (t : Edge) × (rxt_load_strings_from_tdata names 8 4 ≡ some t)
    × IsLoaded (λ idx. names (8 * idx)) 4 t
rxt_load_strings_from_tdata-IsLoaded_example =
    rxt_load_strings_from_tdata-IsLoaded names 8 4 (omega arith) (omega arith)

-- A width of zero, or a product that wraps to zero: nothing is loaded.
no_width : rxt_load_strings_from_tdata names 0 4 ≡ some rxt_new
unfolding load_from rxt_load_strings_from_tdata
no_width = refl

wrapped : rxt_load_strings_from_tdata names (2 ^ 31) 2 ≡ some rxt_new
unfolding load_from rxt_load_strings_from_tdata
wrapped = refl

-- "st" without a value, with "op" below it; and "stat" with "ion".
abbrev short : Edge
short = Edge.edge Edge.null Edge.null 7 (111 ∷ 112 ∷ [])

abbrev long : Edge
long = Edge.edge Edge.null Edge.null 7 (105 ∷ 111 ∷ 110 ∷ [])

merged :
    compress_loop 2 (Edge.edge Edge.null short radix_tree_none (115 ∷ 116 ∷ []))
    ≡ some (Edge.edge Edge.null Edge.null 7 stop)
unfolding compress_loop
merged = refl

rxt_find-compress_loop_example :
    Outcome (Edge.edge Edge.null short radix_tree_none (115 ∷ 116 ∷ []))
rxt_find-compress_loop_example =
    rxt_find-compress_loop Edge.null short radix_tree_none 115 (116 ∷ [])
      (omega arith, omega arith, tt, (omega arith, omega arith, tt, tt))

compress_loop-none_example :
    compress_loop 9 (Edge.edge Edge.null long radix_tree_none (115 ∷ 116 ∷ 97 ∷ 116 ∷ [])) ≡ none
compress_loop-none_example =
    compress_loop-none Edge.null Edge.null 7 (115 ∷ 116 ∷ 97 ∷ 116 ∷ []) (105 ∷ 111 ∷ 110 ∷ []) 9
      (omega arith)
