-- ===== src/Router/Search/Trace/Rounds.antt =====
-- The rounds of a search, from its start on: what each leaves can be traced back to the origin.
use rrrr.Prelude.{
  ℕ, zero, suc, ◌+◌, ◌≤◌, ◌<◌, ◌≡◌, ◌∙◌, refl, sym, subst, Bool, true, false, Option, none, some,
  arith, ◌==◌, ◌&&◌, not, if◌then◌else◌, inl, inr, Bool-cases, ==_iff, All-any, range_from,
}
use rrrr.Prelude.Effects.{◌>>=◌, for_each, Holds, Holds-bind, Holds-if, Holds-all, Holds-for_each}
use rrrr.Rtime.{agency_unfiltered}
use rrrr.BitSet.{BitSet, bitset_reset, elements}
use rrrr.BitSet.Laws.{bitset_reset_lem, contains}
use rrrr.Tdata.{Tdata}
use rrrr.Router.{Router, RouterRequest, rrrr_max_rounds}
use rrrr.Router.Transfers.{unflag_banned_stops, apply_transfers, initialize_transfers}
use rrrr.Router.Search.{round_route, router_round}
use rrrr.Router.Search.Invariant.{IsWellFormed, IsSized}
use rrrr.Router.Search.Invariant.Sets.{bitset_reset-IsSized}
use rrrr.Router.Search.Trace.{Linked, Searching}
use rrrr.Router.Search.Trace.Riding.{ride_route-Searching}
use rrrr.Router.Search.Trace.Walking.{apply_transfers-keeps}
use rrrr.Router.Search.Trace.Rows.{
  Shrinks, unflag_banned_stops-Shrinks, Walks, walked-Walks, Forgetting,
  initialize_transfers-Forgetting,
}

not_both : (b : Bool) → b ≡ false → b ≡ true → ⊥
not_both b e f = absurd (ground arith)

module _ {F : Type 0} (td : Tdata) (walk_sec : F → ℕ → ℕ → ℕ) (past : ℕ → ℕ) (req : RouterRequest F)
    (wf : IsWellFormed td) (origin : ℕ) where
  -- What a round keeps in its first part, the rides, and in its second, the transfers.
  round_route-Searching :
      (round route_idx : ℕ) (r : Router)
      → Searching td origin round r
      → Holds (Searching td origin round) (round_route td walk_sec past req round route_idx r)
  unfolding round_route
  round_route-Searching round route_idx r s =
      Holds-if (Searching td origin round)
        (not (req.agency == agency_unfiltered)
          && not (req.agency == (td.routes route_idx).agency_index))
        _ _ (λ _. s) (λ _. ride_route-Searching td origin req round route_idx wf r s)

  Walks-Searching :
      (round : ℕ) (r r' : Router)
      → round < rrrr_max_rounds
      → Searching td origin round r
      → Shrinks td.n_stops r r'
      → Walks td origin round r'.updated_stops r'.states
  Walks-Searching round r r' lt s (same, here, sized, fewer) =
      subst (Walks td origin round r'.updated_stops) (sym same) (
        λ j le. elim (Bool-cases (j == round)) [
          | inl q ↦ subst (Linked td.n_stops r.states) (sym ((==_iff j round).0 q)) λ x lx reached.
              elim (s.fresh round x (omega arith) lt lx) [
                | inl e ↦ absurd (reached e)
                | inr e ↦ absurd (omega (arith, e.0, e.1))
              ]
          | inr q ↦ s.linked j (ground arith)
        ],
        λ j x up lj lx. s.fresh j x (omega arith) lj lx,
        λ x lx c. s.rode x lx (fewer x c),
      )

  Searching-Walks :
      (round : ℕ) (bs : BitSet) (r : Router)
      → IsSized td.n_stops bs
      → Walks td origin (suc round) bs r.states
        × (r.updated_stops ≡ bitset_reset bs)
        × (r.origin ≡ origin)
      → Searching td origin (suc (suc round)) r
  Searching-Walks round bs r sized ((linked, fresh, rode), empty, here) = record {
    sized = subst (IsSized td.n_stops) (sym empty) (bitset_reset-IsSized td.n_stops bs sized);
    here = here;
    linked = λ j lt. linked j (omega arith);
    fresh = λ j x le lj lx. elim (fresh j x (omega arith) lj lx) [
      | inl e ↦ inl e
      | inr e ↦ absurd (omega (arith, e.0))
    ];
    rode = λ x lx c. absurd (
        not_both _ ((bitset_reset_lem bs sized.valid).2 x)
          (subst (λ b. contains b x ≡ true) empty c));
  }

  Searching-Forgetting :
      (bs : BitSet) (r : Router)
      → IsSized td.n_stops bs
      → Forgetting td origin (λ _. ⊥) (bitset_reset bs) r
      → Searching td origin 1 r
  Searching-Forgetting bs r sized (empty, here, linked, fresh) = record {
    sized = subst (IsSized td.n_stops) (sym empty) (bitset_reset-IsSized td.n_stops bs sized);
    here = here;
    linked = λ j lt. subst (Linked td.n_stops r.states) (omega arith) linked;
    fresh = λ j x le lj lx. elim (fresh j x (omega arith) lj lx) [
      | inl e ↦ inl e
      | inr e ↦ absurd (e.1)
    ];
    rode = λ x lx c. absurd (
        not_both _ ((bitset_reset_lem bs sized.valid).2 x)
          (subst (λ b. contains b x ≡ true) empty c));
  }

  -- The end of a round: the transfers, and after round 0 the start of the search is forgotten.
  walk_round-Searching :
      (round : ℕ) (r r' : Router)
      → round < rrrr_max_rounds
      → Searching td origin round r
      → Shrinks td.n_stops r r'
      → Holds (Searching td origin (suc round)) (
          apply_transfers td req walk_sec past round r' >>= λ r''.
          if round == 0 then initialize_transfers td req 1 r''.origin r'' else some r'')
  walk_round-Searching round r r' lt s less =
      let bs = r'.updated_stops in
      Holds-bind
        (λ r''.
          Walks td origin round bs r''.states
          × (r''.updated_stops ≡ bitset_reset bs)
          × (r''.origin ≡ origin))
        (Searching td origin (suc round)) (apply_transfers td req walk_sec past round r')
        (λ r''. if round == 0 then initialize_transfers td req 1 r''.origin r'' else some r'')
        (apply_transfers-keeps td req walk_sec round bs origin (Walks td origin round bs)
          (λ states from to t lt c late way h.
            walked-Walks td origin round bs states from to t lt c late way h)
          past r' wf.few_stops less.2 (Walks-Searching round r r' lt s less, refl, less.1 ∙ s.here))
        λ r'' h. go round r'' h
    where
      started :
          (o : Option Router)
          → Holds (Forgetting td origin (λ _. ⊥) (bitset_reset r'.updated_stops)) o
          → Holds (Searching td origin 1) o
      started none h = tt
      started (some r'') h = Searching-Forgetting r'.updated_stops r'' less.2 h

      go :
          (k : ℕ) (r'' : Router)
          → Walks td origin k r'.updated_stops r''.states
            × (r''.updated_stops ≡ bitset_reset r'.updated_stops)
            × (r''.origin ≡ origin)
          → Holds
              (Searching td origin (suc k))
              (if k == 0 then initialize_transfers td req 1 r''.origin r'' else some r'')
      go zero r'' ((linked, fresh, rode), empty, here) =
          subst (λ o. Holds (Searching td origin 1) (initialize_transfers td req 1 o r''))
            (sym here)
            (started _ (
              initialize_transfers-Forgetting td req origin (bitset_reset r'.updated_stops) r'' (
                empty,
                here,
                linked 0 (omega arith),
                λ j x up lj lx. elim (fresh j x up lj lx) [
                  | inl e ↦ inl e
                  | inr e ↦ inr (e.1, e.2)
                ],
              )))
      go (suc k) r'' h =
          let later : (suc k == 0) ≡ false = ground arith in
          rw later (Searching-Walks k r'.updated_stops r'' less.2 h)

  router_round-Searching :
      (round : ℕ) (r : Router)
      → round < rrrr_max_rounds
      → Searching td origin round r
      → Holds (Searching td origin (suc round)) (router_round td walk_sec past req round r)
  unfolding router_round
  router_round-Searching round r lt s =
      Holds-bind (λ _. Unit) (Searching td origin (suc round)) (elements r.updated_routes past) _
        (Holds-all (λ _. Unit) (elements r.updated_routes past) (λ _. tt))
        λ routes _.
          Holds-bind (Searching td origin round) (Searching td origin (suc round))
            (for_each routes (round_route td walk_sec past req round) r) _
            (Holds-for_each (λ _. Unit) (Searching td origin round) _
              (λ route r' _ s'. round_route-Searching round route r' s') routes r (All-any routes)
              s)
            λ r1 s1.
              Holds-bind (Shrinks td.n_stops r1) (Searching td origin (suc round))
                (unflag_banned_stops td req r1) _ (unflag_banned_stops-Shrinks td req r1 s1.sized)
                λ r2 less. walk_round-Searching round r1 r2 lt s1 less

  pub rounds-Searching :
      (n i hi : ℕ) (r : Router)
      → i + n ≡ hi
      → hi ≤ rrrr_max_rounds
      → Searching td origin i r
      → Holds
          (Searching td origin hi)
          (for_each (range_from i n) (router_round td walk_sec past req) r)
  unfolding for_each
  rounds-Searching zero i hi r e le s = subst (λ k. Searching td origin k r) (omega arith) s
  rounds-Searching (suc n) i hi r e le s =
      Holds-bind (Searching td origin (suc i)) (Searching td origin hi)
        (router_round td walk_sec past req i r)
        (for_each (range_from (i + 1) n) (router_round td walk_sec past req))
        (router_round-Searching i r (omega arith) s)
        λ r' s'.
          rounds-Searching n (i + 1) hi r' (omega arith) le
            (subst (λ k. Searching td origin k r') (omega arith) s')
