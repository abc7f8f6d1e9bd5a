-- ===== src/Tdata/Coherent/Mirrored.antt =====
-- The transfers of a coherent timetable: each has one back, of the same length.
use rrrr.Prelude.{
  ℕ, zero, suc, ◌+◌, ◌-◌, ◌≤◌, ◌<◌, ◌≡◌, ◌≢◌, ◌↔◌, ap, false, Option, none, some, [], ◌==◌, not,
  range_from, arith, Bool-cases, inl, inr, ==_iff, ltb, ltb→lt,
}
use rrrr.Prelude.Collect.{when, when-nil, append-nil}
use rrrr.Tdata.{Tdata}
use rrrr.Tdata.Coherent.{
  loop_transfer, not_symmetric, transfers_out, distance, find_reverse, reverse_messages,
  transfer_messages,
}

module _ (td : Tdata) where
  -- The transfers from `lo` up to `hi` of which none leads to the stop, and the first that does.
  abbrev pub NoneLeads : ℕ → ℕ → ℕ → Type 0
  NoneLeads stop lo hi = (v : ℕ) → lo ≤ v → v < hi → td.transfer_target_stops v ≢ stop

  abbrev pub IsFirstTo : ℕ → ℕ → ℕ → ℕ → Type 0
  IsFirstTo stop lo hi u =
      (lo ≤ u) × (u < hi) × (td.transfer_target_stops u ≡ stop) × NoneLeads stop lo u

  -- What a search for a transfer to the stop finds.
  abbrev pub Finds : ℕ → ℕ → ℕ → Option ℕ → Type 0
  Finds stop lo hi none = NoneLeads stop lo hi
  Finds stop lo hi (some u) = IsFirstTo stop lo hi u

  none_first :
      (stop lo hi : ℕ)
      → (td.transfer_target_stops lo == stop) ≡ false
      → NoneLeads stop (lo + 1) hi
      → NoneLeads stop lo hi
  none_first stop lo hi p h v le lt e = elim (Bool-cases (lo == v)) [
    | inl q ↦ let eq = ap td.transfer_target_stops ((==_iff lo v).0 q) in ground arith
    | inr q ↦ h v (ground arith) lt e
  ]

  pub find_reverse-Finds :
      (stop lo n : ℕ) → Finds stop lo (lo + n) (find_reverse td stop (range_from lo n))
  find_reverse-Finds stop lo zero = λ v le lt. absurd (omega arith)
  find_reverse-Finds stop lo (suc n) = elim (Bool-cases (td.transfer_target_stops lo == stop)) [
    | inl p ↦ rw p (omega arith, omega arith, (==_iff _ stop).0 p, λ v le lt. absurd (omega arith))
    | inr p ↦ rw p (
        later (find_reverse td stop (range_from (lo + 1) n)) p (find_reverse-Finds stop (lo + 1) n))
  ]
    where
      later :
          (o : Option ℕ)
          → (td.transfer_target_stops lo == stop) ≡ false
          → Finds stop (lo + 1) (lo + 1 + n) o
          → Finds stop lo (lo + suc n) o
      later none p h = λ v le lt. none_first stop lo (lo + 1 + n) p h v le (omega arith)
      later (some u) p (le, lt, e, h) = (omega arith, omega arith, e, none_first stop lo u p h)

  pub first_unique : (stop lo hi u v : ℕ) → IsFirstTo stop lo hi u → IsFirstTo stop lo hi v → u ≡ v
  first_unique stop lo hi u v (le, lt, e, h) (le', lt', e', h') = elim (Bool-cases (ltb u v)) [
    | inl less ↦ absurd (h' u le (ltb→lt u v less) e)
    | inr p ↦ elim (Bool-cases (ltb v u)) [
      | inl more ↦ absurd (h v le' (ltb→lt v u more) e')
      | inr q ↦ ground arith
    ]
  ]

  pub transfers_out-Finds :
      (stop from : ℕ)
      → Finds stop
          (td.stops from).transfers_offset
          (td.stops (from + 1)).transfers_offset
          (find_reverse td stop (transfers_out td from))
  transfers_out-Finds stop from = narrow _ (find_reverse-Finds stop lo (hi - lo))
    where
      lo : ℕ
      lo = (td.stops from).transfers_offset

      hi : ℕ
      hi = (td.stops (from + 1)).transfers_offset

      narrow : (o : Option ℕ) → Finds stop lo (lo + (hi - lo)) o → Finds stop lo hi o
      narrow none h = λ v le lt. h v le (omega arith)
      narrow (some u) (le, lt, e, h) = (le, omega arith, e, h)

  -- The first transfer back from the end of a transfer to its start is as long.
  abbrev pub IsMirrored : ℕ → ℕ → Type 0
  IsMirrored stop_from t =
      let stop_to = td.transfer_target_stops t in
      (stop_to ≢ stop_from)
      × ((u : ℕ) × IsFirstTo stop_from (td.stops stop_to).transfers_offset
            (td.stops (stop_to + 1)).transfers_offset u
          × (distance td u ≡ distance td t))

  reverse_messages_lem :
      (stop_from t lo hi : ℕ) (o : Option ℕ)
      → Finds stop_from lo hi o
      → (reverse_messages td stop_from t o ≡ [])
        ↔ ((u : ℕ) × IsFirstTo stop_from lo hi u × (distance td u ≡ distance td t))
  reverse_messages_lem stop_from t lo hi none h =
      (λ e. cc, λ (u, first, e). absurd (h u first.0 first.1 first.2))
  reverse_messages_lem stop_from t lo hi (some u) h = (
    λ e.
        let p =
          (when-nil (not (distance td u == distance td t)) (
              not_symmetric stop_from (td.transfer_target_stops t) (distance td t)
                (distance td u))).0
            e in
        (u, h, ground arith),
    λ (v, first, e).
        (when-nil (not (distance td u == distance td t)) (
            not_symmetric stop_from (td.transfer_target_stops t) (distance td t) (distance td u))).1
          (let eq = ap (distance td) (first_unique stop_from lo hi u v h first) in ground arith),
  )

  pub transfer_messages_lem :
      (stop_from t : ℕ) → (transfer_messages td stop_from t ≡ []) ↔ IsMirrored stop_from t
  unfolding transfer_messages
  transfer_messages_lem stop_from t =
      let stop_to = td.transfer_target_stops t in
      let loop = when-nil (stop_to == stop_from) (loop_transfer stop_from) in
      let o = find_reverse td stop_from (transfers_out td stop_to) in
      let back =
        reverse_messages_lem stop_from t (td.stops stop_to).transfers_offset
          (td.stops (stop_to + 1)).transfers_offset o (transfers_out-Finds stop_from stop_to) in
      let both =
        append-nil (when (stop_to == stop_from) (loop_transfer stop_from))
          (reverse_messages td stop_from t o) in
      (
        λ e. let (p, q) = both.0 e in let p' = loop.0 p in (λ z. ground arith, back.0 q),
        λ (n, b). both.1 (
          loop.1 (elim (Bool-cases (stop_to == stop_from)) [
            | inl z ↦ absurd (n ((==_iff stop_to stop_from).0 z))
            | inr z ↦ z
          ]),
          back.1 b,
        ),
      )
