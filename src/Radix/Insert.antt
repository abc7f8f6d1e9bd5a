-- ===== src/Radix/Insert.antt =====
-- `rxt_insert` against the map from keys to numbers that `rxt_find` reads off a tree.
use rrrr.Prelude.{
  append_nil, ℕ, zero, suc, length-append, ◌+◌, ◌<◌, ◌≤◌, ◌≡◌, ◌≢◌, ◌∙◌, ◌⊎◌, refl, sym, ap, subst,
  false, Option, none, some, List, [], ◌∷◌, ◌++◌, arith, ◌==◌, length, take, drop, map_option,
  Bool-cases, ==_iff, inl, inr,
}
use rrrr.Prelude.Effects.{Ensures, Ensures-some}
use rrrr.Radix.{
  Edge, Round, edge_new, or_new, radix_tree_none, radix_tree_prefix_size, Parted, shared, part,
  settle, rxt_find, fill, match, insert_round, insert_from, rxt_edge_count, rxt_insert,
}
use rrrr.Radix.Find.{
  part_lem, rxt_find-split, rxt_find-here, rxt_find-below, rxt_find-value, rxt_find-child,
  rxt_find-next, rxt_find-pass,
}

-- Every edge has from one to four characters.
abbrev pub Solid : Edge → Type 0
Solid Edge.null = Unit
Solid (Edge.edge next child value prefix) =
    (0 < length prefix) × (length prefix ≤ radix_tree_prefix_size) × Solid next × Solid child

abbrev IsEdge : Edge → Type 0
IsEdge Edge.null = ⊥
IsEdge (Edge.edge next child value prefix) = Unit

-- A tree as `rxt_new` and `rxt_insert` leave it: fresh, or with no empty prefix.
abbrev pub IsTree : Edge → Type 0
IsTree e = (Solid e × IsEdge e) ⊎ (e ≡ edge_new)

-- The tree `t` maps the key to the value, and all other keys as `e` does.
abbrev pub Updates : Edge → List ℕ → ℕ → Edge → Type 0
Updates e key value t =
    (Solid t × IsEdge t)
    × (rxt_find t key ≡ value)
    × ((ks : List ℕ) → ks ≢ key → rxt_find t ks ≡ rxt_find e ks)

-- The edges with a prefix that a loop may still meet.
unfoldable rank : Edge → ℕ
rank Edge.null = 0
rank (Edge.edge next child value []) = 0
rank (Edge.edge next child value (p ∷ ps)) = 1 + rank next + rank child

-- A round that returns has updated the list; one that goes on comes nearer to the end, and what
-- updates the list it goes to updates this one.
abbrev Good : Edge → List ℕ → ℕ → Round → Type 0
Good e key value (Round.done t) = Updates e key value t
Good e key value (Round.goto e' key' put) =
    (length key' + rank e' < length key + rank e)
    × IsTree e'
    × (0 < length key')
    × ((t : Edge) → Updates e' key' value t → Updates e key value (put t))

take-drop : (n : ℕ) (xs : List ℕ) → xs ≡ take n xs ++ drop n xs
take-drop zero xs = refl
take-drop (suc n) [] = refl
take-drop (suc n) (x ∷ xs) = ap (λ t. x ∷ t) (take-drop n xs)

length-take-le : (n : ℕ) (xs : List ℕ) → length (take n xs) ≤ n
length-take-le zero xs = omega arith
length-take-le (suc n) [] = omega arith
length-take-le (suc n) (x ∷ xs) = omega (arith, length-take-le n xs)

or_new-IsTree : (e : Edge) → Solid e → IsTree (or_new e)
or_new-IsTree Edge.null s = inr refl
or_new-IsTree (Edge.edge next child value prefix) s = inl (s, tt)

rank-or_new : (e : Edge) → rank (or_new e) ≡ rank e
unfolding rank
rank-or_new Edge.null = refl
rank-or_new (Edge.edge next child value prefix) = refl

rxt_find-or_new : (e : Edge) (ks : List ℕ) → rxt_find (or_new e) ks ≡ rxt_find e ks
unfolding rxt_find
rxt_find-or_new Edge.null [] = refl
rxt_find-or_new Edge.null (k ∷ ks) = refl
rxt_find-or_new (Edge.edge next child value prefix) ks = refl

-- A lone edge without a value finds nothing, as a fresh one.
rxt_find-alone :
    (p : ℕ) (ps ks : List ℕ)
    → rxt_find (Edge.edge Edge.null Edge.null radix_tree_none (p ∷ ps)) ks ≡ rxt_find edge_new ks
unfolding rxt_find
rxt_find-alone p ps [] = refl
rxt_find-alone p ps (k ∷ ks) = elim (Bool-cases (k == p)) [
  | inl e ↦ rw e (nothing (shared p (part ps ks)))
  | inr e ↦ rw e refl
]
  where
    nothing : (x : Parted) → settle x radix_tree_none (rxt_find Edge.null) ≡ radix_tree_none
    nothing (q, [], []) = refl
    nothing (q, [], r ∷ rs) = refl
    nothing (q, o ∷ os, ks') = refl

-- A list put below an edge: what it maps its keys to, the edge maps them to behind its prefix.
below-Updates :
    (next child e t : Edge) (old p r value : ℕ) (ps rs : List ℕ)
    → length (p ∷ ps) ≤ radix_tree_prefix_size
    → Solid next
    → ((ks : List ℕ) → rxt_find e ks ≡ rxt_find child ks)
    → Updates e (r ∷ rs) value t
    → Updates
        (Edge.edge next child old (p ∷ ps))
        ((p ∷ ps) ++ (r ∷ rs))
        value
        (Edge.edge next t old (p ∷ ps))
below-Updates next child e t old p r value ps rs short s same ((solid, _), found, others) = (
  ((omega arith, short, s, solid), tt),
  rxt_find-below next t p ps old r rs ∙ found,
  λ ks ne.
      rxt_find-child next child t old p ps (r ∷ rs) ks
        (λ x xs other. others (x ∷ xs) other ∙ same (x ∷ xs)) ne,
)

-- Case 1.
fill-Good :
    (k value : ℕ) (ps rest : List ℕ)
    → length (k ∷ ps) ≤ radix_tree_prefix_size
    → (key : List ℕ) → key ≡ (k ∷ ps) ++ rest
    → take radix_tree_prefix_size key ≡ k ∷ ps
    → Good edge_new key value (fill Edge.null Edge.null radix_tree_none key rest value)
unfolding rank
fill-Good k value ps [] short key e front =
    subst (λ pre. Updates edge_new key value (Edge.edge Edge.null Edge.null value pre)) (sym front)
      (subst (λ t. Updates edge_new t value (Edge.edge Edge.null Edge.null value (k ∷ ps)))
        (sym (e ∙ append_nil (k ∷ ps)))
        (
          ((omega arith, short, tt, tt), tt),
          rxt_find-here Edge.null Edge.null k ps value,
          λ ks ne.
              rxt_find-value Edge.null Edge.null k ps value radix_tree_none ks ne
              ∙ rxt_find-alone k ps ks,
        ))
fill-Good k value ps (r ∷ rs) short key e front = (
  omega (arith, ap length e, length-append (k ∷ ps) (r ∷ rs)),
  inr refl,
  omega arith,
  λ t u.
      subst (λ pre. Updates edge_new key value (Edge.edge Edge.null t radix_tree_none pre))
        (sym front)
        (subst (λ x. Updates edge_new x value (Edge.edge Edge.null t radix_tree_none (k ∷ ps)))
          (sym e)
          (let (solid, found, others) =
              below-Updates Edge.null Edge.null edge_new t radix_tree_none k r value ps rs short tt
                (rxt_find-or_new Edge.null) u in
            (solid, found, λ ks ne. others ks ne ∙ rxt_find-alone k ps ks))),
)

-- Case 2, where the edge and the key share the characters `p ∷ q`.
match-Good :
    (next child : Edge) (old value p : ℕ) (q o k : List ℕ)
    → length (p ∷ q) + length o ≤ radix_tree_prefix_size
    → Solid next
    → Solid child
    → Good
        (Edge.edge next child old ((p ∷ q) ++ o))
        ((p ∷ q) ++ k)
        value
        (match next child old (p ∷ q, o, k) value)
unfolding rank
match-Good next child old value p q [] [] short sn sc =
    subst
      (λ t.
        Good (Edge.edge next child old (p ∷ t)) (p ∷ t) value
          (Round.done (Edge.edge next child value (p ∷ q))))
      (sym (append_nil q))
      (
        ((omega arith, omega arith, sn, sc), tt),
        rxt_find-here next child p q value,
        λ ks ne. rxt_find-value next child p q value old ks ne,
      )
match-Good next child old value p q [] (r ∷ rs) short sn sc =
    subst
      (λ t.
        Good (Edge.edge next child old (p ∷ t)) ((p ∷ q) ++ (r ∷ rs)) value
          (Round.goto (or_new child) (r ∷ rs) (λ child'. Edge.edge next child' old (p ∷ q))))
      (sym (append_nil q))
      (
        omega (arith, length-append (p ∷ q) (r ∷ rs), rank-or_new child),
        or_new-IsTree child sc,
        omega arith,
        λ t u.
            below-Updates next child (or_new child) t old p r value q rs (omega arith) sn
              (rxt_find-or_new child) u,
      )
match-Good next child old value p q (o ∷ os) [] short sn sc =
    subst
      (λ t.
        Good (Edge.edge next child old ((p ∷ q) ++ (o ∷ os))) t value
          (Round.done (Edge.edge next (Edge.edge Edge.null child old (o ∷ os)) value (p ∷ q))))
      (sym (append_nil (p ∷ q)))
      (
        ((omega arith, omega arith, sn, (omega arith, omega arith, tt, sc)), tt),
        rxt_find-here next (Edge.edge Edge.null child old (o ∷ os)) p q value,
        λ ks ne.
            rxt_find-value next (Edge.edge Edge.null child old (o ∷ os)) p q value radix_tree_none
              ks ne
            ∙ sym (rxt_find-split next child p q o os ks old),
      )
match-Good next child old value p q (o ∷ os) (r ∷ rs) short sn sc = (
  omega (arith, length-append (p ∷ q) (r ∷ rs)),
  inl ((omega arith, omega arith, tt, sc), tt),
  omega arith,
  λ t u.
      let below = Edge.edge Edge.null child old (o ∷ os) in
      let (solid, found, others) =
        below-Updates next below below t radix_tree_none p r value q rs (omega arith) sn
          (λ ks. refl) u in
      (solid, found, λ ks ne. others ks ne ∙ sym (rxt_find-split next child p q o os ks old)),
)

-- Case 3.
next-Good :
    (next child : Edge) (old value p k : ℕ) (ps ks : List ℕ)
    → (k == p) ≡ false
    → Solid (Edge.edge next child old (p ∷ ps))
    → Good
        (Edge.edge next child old (p ∷ ps))
        (k ∷ ks)
        value
        (Round.goto (or_new next) (k ∷ ks) (λ next'. Edge.edge next' child old (p ∷ ps)))
unfolding rank
next-Good next child old value p k ps ks e (full, short, sn, sc) = (
  omega (arith, rank-or_new next),
  or_new-IsTree next sn,
  omega arith,
  λ t u.
      let ((solid, _), found, others) = u in
      (
        ((full, short, solid, sc), tt),
        rxt_find-pass t child old p k ps ks e ∙ found,
        λ ks' ne.
            rxt_find-next next t child old p ps ks' (others ks' ne ∙ rxt_find-or_new next ks'),
      ),
)

shared-Good :
    (next child : Edge) (old value p : ℕ) (ps ks : List ℕ) (x : Parted)
    → (ps ≡ x.0 ++ x.1) × (ks ≡ x.0 ++ x.2)
    → Solid (Edge.edge next child old (p ∷ ps))
    → Good
        (Edge.edge next child old (p ∷ ps))
        (p ∷ ks)
        value
        (match next child old (shared p x) value)
shared-Good next child old value p ps ks (q, o, k) (a, b) (full, short, sn, sc) =
    subst
      (λ t.
        Good (Edge.edge next child old (p ∷ t)) (p ∷ ks) value
          (match next child old (p ∷ q, o, k) value))
      (sym a)
      (subst
        (λ t.
          Good (Edge.edge next child old ((p ∷ q) ++ o)) (p ∷ t) value
            (match next child old (p ∷ q, o, k) value))
        (sym b)
        (match-Good next child old value p q o k
          (omega (arith, ap length a, length-append q o, short)) sn sc))

insert_round-Good :
    (e : Edge) (key : List ℕ) (value : ℕ)
    → IsTree e
    → 0 < length key
    → Good e key value (insert_round e key value)
unfolding insert_round
insert_round-Good e [] value tree some_key = absurd (omega arith)
insert_round-Good e (k ∷ ks) value (inr fresh) some_key =
    subst (λ e'. Good e' (k ∷ ks) value (insert_round e' (k ∷ ks) value)) (sym fresh)
      (fill-Good k value (take 3 ks) (drop 3 ks) (omega (arith, length-take-le 3 ks)) (k ∷ ks)
        (ap (λ t. k ∷ t) (take-drop 3 ks)) refl)
insert_round-Good Edge.null (k ∷ ks) value (inl (s, absurd_edge)) some_key = absurd absurd_edge
insert_round-Good (Edge.edge next child old []) (k ∷ ks) value (inl (s, _)) some_key =
    absurd (omega (arith, s.0))
insert_round-Good (Edge.edge next child old (p ∷ ps)) (k ∷ ks) value (inl (s, _)) some_key =
    elim (Bool-cases (k == p)) [
      | inl e ↦
          rw (e, (==_iff k p).0 e)
            (shared-Good next child old value p ps ks (part ps ks) (part_lem ps ks) s)
      | inr e ↦ rw e (next-Good next child old value p k ps ks e s)
    ]

rank-le : (e : Edge) → rank e ≤ rxt_edge_count e
unfolding rank rxt_edge_count
rank-le Edge.null = omega arith
rank-le (Edge.edge next child value []) = omega arith
rank-le (Edge.edge next child value (p ∷ ps)) = omega (arith, rank-le next, rank-le child)

insert_from-Updates :
    (fuel : ℕ) (e : Edge) (key : List ℕ) (value : ℕ)
    → IsTree e
    → 0 < length key
    → length key + rank e < fuel
    → Ensures (Updates e key value) (insert_from fuel e key value)
unfolding insert_from
insert_from-Updates zero e key value tree some_key enough = absurd (omega arith)
insert_from-Updates (suc fuel) e key value tree some_key enough =
    go (insert_from-Updates fuel) (insert_round e key value)
      (insert_round-Good e key value tree some_key)
  where
    put_back :
        (e' : Edge) (key' : List ℕ) (put : Edge → Edge) (o : Option Edge)
        → ((t : Edge) → Updates e' key' value t → Updates e key value (put t))
        → Ensures (Updates e' key' value) o
        → Ensures (Updates e key value) (map_option put o)
    put_back e' key' put none f h = absurd h
    put_back e' key' put (some t) f h = f t h

    go :
        ((e' : Edge) (key' : List ℕ) (v : ℕ)
          → IsTree e'
          → 0 < length key'
          → length key' + rank e' < fuel
          → Ensures (Updates e' key' v) (insert_from fuel e' key' v))
        → (round : Round) → Good e key value round
        → Ensures (Updates e key value) (elim round [
          | Round.done t ↦ some t
          | Round.goto e' key' put ↦ map_option put (insert_from fuel e' key' value)
        ])
    go rest (Round.done t) h = h
    go rest (Round.goto e' key' put) (less, tree', some_key', f) =
        put_back e' key' put (insert_from fuel e' key' value) f
          (rest e' key' value tree' some_key' (omega arith))

-- Into a fresh tree, or one whose edges all have from one to four characters, the insertion of a
-- key that is not empty ends, within as many rounds of its loop as the key has characters and the
-- tree has edges, and one. The tree it leaves has again from one to four characters on each edge;
-- in it `rxt_find` finds the value at the key, and at every other key what it found before.
pub rxt_find-rxt_insert :
    (root : Edge) (key : List ℕ) (value : ℕ)
    → IsTree root
    → 0 < length key
    → (t : Edge) × (rxt_insert root key value ≡ some t) × Updates root key value t
unfolding rxt_insert
rxt_find-rxt_insert root key value tree some_key = Ensures-some (Updates root key value) _ (
    insert_from-Updates (length key + rxt_edge_count root + 1) root key value tree some_key
      (omega (arith, rank-le root)))
