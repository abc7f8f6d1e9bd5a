-- ===== src/Radix/Compress.antt =====
-- radixtree.c: the loop of `rxt_compress`, which merges an edge without a value with its only child.
use rrrr.Prelude.{
  ℕ, zero, suc, ◌<◌, ◌+◌, ◌≤◌, ◌≡◌, ◌⊎◌, ◌∙◌, refl, true, false, Option, none, some, List, [], ◌∷◌,
  ◌++◌, arith, leb, ◌==◌, if◌then◌else◌, length, length-append, Bool-cases, ==_iff, inl, inr,
}
use rrrr.Radix.{Edge, radix_tree_none, radix_tree_prefix_size, rxt_find}
use rrrr.Radix.Find.{rxt_find-split}
use rrrr.Radix.Insert.{Solid}

-- On fuel: the tree at the edge when the loop ends.
unfoldable pub compress_loop : ℕ → Edge → Option Edge
compress_loop zero e = none
compress_loop (suc fuel) Edge.null = some Edge.null
compress_loop (suc fuel) (Edge.edge next Edge.null value prefix) =
    some (Edge.edge next Edge.null value prefix)
compress_loop (suc fuel)
      (Edge.edge next (Edge.edge (Edge.edge n2 c2 v2 p2) child1 value1 prefix1) value prefix) =
    some (Edge.edge next (Edge.edge (Edge.edge n2 c2 v2 p2) child1 value1 prefix1) value prefix)
compress_loop (suc fuel) (Edge.edge next (Edge.edge Edge.null child1 value1 prefix1) value prefix) =
    let e = Edge.edge next (Edge.edge Edge.null child1 value1 prefix1) value prefix in
    let merged = compress_loop fuel (Edge.edge next child1 value1 (prefix ++ prefix1)) in
    let again = compress_loop fuel e in
    if value == radix_tree_none
    then (if leb (length prefix + length prefix1) radix_tree_prefix_size then merged else again)
    else some e

-- The loop ends, in a tree of edges of one to four characters that finds what the old one found; or
-- it does not end.
abbrev pub Outcome : Edge → Type 0
Outcome e =
    ((t : Edge) × (n : ℕ) × ((fuel : ℕ) → n ≤ fuel → compress_loop fuel e ≡ some t)
      × Solid t
      × ((ks : List ℕ) → rxt_find t ks ≡ rxt_find e ks))
    ⊎ ((fuel : ℕ) → compress_loop fuel e ≡ none)

merge-Outcome :
    (next child1 : Edge) (value1 p o : ℕ) (ps os : List ℕ)
    → leb (length (p ∷ ps) + length (o ∷ os)) radix_tree_prefix_size ≡ true
    → Outcome (Edge.edge next child1 value1 ((p ∷ ps) ++ (o ∷ os)))
    → Outcome (Edge.edge next (Edge.edge Edge.null child1 value1 (o ∷ os)) radix_tree_none (p ∷ ps))
unfolding compress_loop
merge-Outcome next child1 value1 p o ps os fits (inl (t, n, ends, solid, same)) =
    inl (t, suc n, after, solid, λ ks. same ks ∙ rxt_find-split next child1 p ps o os ks value1)
  where
    after :
        (fuel : ℕ)
        → suc n ≤ fuel
        → compress_loop fuel
            (Edge.edge next (Edge.edge Edge.null child1 value1 (o ∷ os)) radix_tree_none (p ∷ ps))
          ≡ some t
    after zero le = absurd (omega arith)
    after (suc fuel) le = rw fits (ends fuel (omega arith))
merge-Outcome next child1 value1 p o ps os fits (inr never) = inr after
  where
    after :
        (fuel : ℕ)
        → compress_loop fuel
            (Edge.edge next (Edge.edge Edge.null child1 value1 (o ∷ os)) radix_tree_none (p ∷ ps))
          ≡ none
    after zero = refl
    after (suc fuel) = rw fits (never fuel)

-- The loop never ends at an edge without a value whose only child has too many characters for it.
pub compress_loop-none :
    (next child1 : Edge) (value1 : ℕ) (prefix prefix1 : List ℕ) (fuel : ℕ)
    → radix_tree_prefix_size < length prefix + length prefix1
    → compress_loop fuel
        (Edge.edge next (Edge.edge Edge.null child1 value1 prefix1) radix_tree_none prefix)
      ≡ none
unfolding compress_loop
compress_loop-none next child1 value1 prefix prefix1 zero full = refl
compress_loop-none next child1 value1 prefix prefix1 (suc fuel) full =
    let e : leb (length prefix + length prefix1) radix_tree_prefix_size ≡ false = ground arith in
    rw e (compress_loop-none next child1 value1 prefix prefix1 fuel full)

-- A loop that returns the edge as it is.
at_once : (e : Edge) → Solid e → ((fuel : ℕ) → compress_loop (suc fuel) e ≡ some e) → Outcome e
at_once e solid h = inl (e, 1, after, solid, λ ks. refl)
  where
    after : (fuel : ℕ) → 1 ≤ fuel → compress_loop fuel e ≡ some e
    after zero le = absurd (omega arith)
    after (suc fuel) le = h fuel

-- On a tree of edges of one to four characters, the loop of `rxt_compress` either ends, once it has
-- enough fuel, in such a tree that maps every key as before, or never ends, whatever the fuel.
pub rxt_find-compress_loop :
    (next child : Edge) (value p : ℕ) (ps : List ℕ)
    → Solid (Edge.edge next child value (p ∷ ps))
    → Outcome (Edge.edge next child value (p ∷ ps))
unfolding compress_loop
rxt_find-compress_loop next Edge.null value p ps solid = at_once _ solid (λ fuel. refl)
rxt_find-compress_loop next (Edge.edge (Edge.edge n2 c2 v2 p2) child1 value1 prefix1) value p ps
      solid =
    at_once _ solid (λ fuel. refl)
rxt_find-compress_loop next (Edge.edge Edge.null child1 value1 []) value p ps
      (_, _, _, (full, _, _, _)) =
    absurd (omega arith)
rxt_find-compress_loop next (Edge.edge Edge.null child1 value1 (o ∷ os)) value p ps solid =
    elim (Bool-cases (value == radix_tree_none)) [
      | inl e ↦
          rw ((==_iff value radix_tree_none).0 e)
            (elim (Bool-cases (leb (length (p ∷ ps) + length (o ∷ os)) radix_tree_prefix_size)) [
              | inl fits ↦
                  let (_, _, sn, (_, _, _, sc)) = solid in
                  merge-Outcome next child1 value1 p o ps os fits (
                    rxt_find-compress_loop next child1 value1 p (ps ++ (o ∷ os))
                      (omega arith, ground (arith, length-append ps (o ∷ os)), sn, sc))
              | inr full ↦ inr (λ fuel.
                  compress_loop-none next child1 value1 (p ∷ ps) (o ∷ os) fuel (ground arith))
            ])
      | inr e ↦ at_once _ solid (λ fuel. rw e refl)
    ]
