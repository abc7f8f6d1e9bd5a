-- ===== src/Polyline/Points.antt =====
-- A polyline built point by point: its buffer, and how it reads back.
use rrrr.Prelude.{
  append_assoc, append_nil, ℕ, suc, ◌+◌, ◌-◌, ◌*◌, ◌<◌, ◌≤◌, ◌≡◌, ◌∙◌, refl, sym, ap, subst, Bool,
  false, List, [], ◌∷◌, ◌++◌, arith, leb, length, length-append, Bool-cases, inl, inr,
}
use rrrr.Polyline.{Polyline, buflen, encode_double, polyline_begin, polyline_point, polyline_points}
use rrrr.Polyline.Decode.{decode_double, decode_points}
use rrrr.Polyline.Laws.{Fits, encode_double-IsPrintable, decode_double-encode_double}

module _ {F : Type 0} (fixed : F → ℕ) (is_negative : F → Bool) (zero_f : F)
    (minus : F → F → F) where
  -- The differences between points, the first one from `from`.
  abbrev pub deltas : F × F → List (F × F) → List (F × F)
  deltas from [] = []
  deltas from (point ∷ points) = (minus point.0 from.0, minus point.1 from.1) ∷ deltas point points

  abbrev pub AllFit : List (F × F) → Type 0
  AllFit [] = Unit
  AllFit (d ∷ ds) = (Fits fixed is_negative d.0 × Fits fixed is_negative d.1) × AllFit ds

  -- The numbers of the differences, in hundred-thousandths.
  abbrev pub numbers : List (F × F) → List (ℕ × ℕ)
  numbers [] = []
  numbers (d ∷ ds) = (fixed d.0, fixed d.1) ∷ numbers ds

  abbrev texts : List (F × F) → List ℕ
  texts [] = []
  texts (d ∷ ds) =
      encode_double fixed is_negative d.0 ++ (encode_double fixed is_negative d.1 ++ texts ds)

  abbrev pub built : List (F × F) → Polyline F
  built points =
      polyline_points fixed is_negative zero_f minus points
        (polyline_begin fixed is_negative zero_f minus)

  point-length :
      (point : F × F) (line : Polyline F)
      → length line.buf < buflen - 1
      → length (polyline_point fixed is_negative zero_f minus point line).buf < buflen - 1
  unfolding polyline_point
  point-length (lat, lon) line lt = elim (Bool-cases (leb (buflen - 13) (length line.buf))) [
    | inl e ↦ rw e lt
    | inr e ↦
        let a = encode_double fixed is_negative (minus lat line.last_lat) in
        let b = encode_double fixed is_negative (minus lon line.last_lon) in
        let (_, _, la) = encode_double-IsPrintable fixed is_negative (minus lat line.last_lat) in
        let (_, _, lb) = encode_double-IsPrintable fixed is_negative (minus lon line.last_lon) in
        let room : length line.buf < buflen - 13 = ground arith in
        rw e (omega (arith, length-append (line.buf ++ a) b, length-append line.buf a))
  ]

  points-length :
      (points : List (F × F)) (line : Polyline F)
      → length line.buf < buflen - 1
      → length (polyline_points fixed is_negative zero_f minus points line).buf < buflen - 1
  unfolding polyline_points
  points-length [] line lt = lt
  points-length (point ∷ points) line lt =
      points-length points (polyline_point fixed is_negative zero_f minus point line)
        (point-length point line lt)

  -- However many points are added after `polyline_begin`, whatever they are, the text and its '\0'
  -- stay within the buffer.
  pub polyline_points-length : (points : List (F × F)) → length (built points).buf + 1 < buflen
  polyline_points-length points =
      omega
        (arith, points-length points (polyline_begin fixed is_negative zero_f minus) (omega arith))

  point-kept :
      (lat lon : F) (line : Polyline F)
      → leb (buflen - 13) (length line.buf) ≡ false
      → polyline_point fixed is_negative zero_f minus (lat, lon) line ≡ record {
        last_lat = lat;
        last_lon = lon;
        buf =
            (line.buf ++ encode_double fixed is_negative (minus lat line.last_lat))
            ++ encode_double fixed is_negative (minus lon line.last_lon);
        n_points = line.n_points + 1;
      }
  unfolding polyline_point
  point-kept lat lon line e = rw e refl

  -- As long as there is room, the text of each point is added to the buffer.
  points-texts :
      (points : List (F × F)) (line : Polyline F)
      → length line.buf + 12 * length points ≤ buflen - 2
      → let line' = polyline_points fixed is_negative zero_f minus points line in
        (line'.buf ≡ line.buf ++ texts (deltas (line.last_lat, line.last_lon) points))
        × (line'.n_points ≡ line.n_points + length points)
  unfolding polyline_points
  points-texts [] line room = (sym (append_nil line.buf), omega arith)
  points-texts (point ∷ points) line room =
      let a = encode_double fixed is_negative (minus point.0 line.last_lat) in
      let b = encode_double fixed is_negative (minus point.1 line.last_lon) in
      let (_, _, la) = encode_double-IsPrintable fixed is_negative (minus point.0 line.last_lat) in
      let (_, _, lb) = encode_double-IsPrintable fixed is_negative (minus point.1 line.last_lon) in
      let e : leb (buflen - 13) (length line.buf) ≡ false = ground arith in
      let line' : Polyline F = record {
        last_lat = point.0;
        last_lon = point.1;
        buf = (line.buf ++ a) ++ b;
        n_points = line.n_points + 1;
      } in
      let (buf, n) =
        points-texts points line'
          (omega (arith, length-append (line.buf ++ a) b, length-append line.buf a)) in
      let rest = texts (deltas point points) in
      subst
        (λ (l : Polyline F).
          ((polyline_points fixed is_negative zero_f minus points l).buf
            ≡ line.buf ++ (a ++ (b ++ rest)))
          × ((polyline_points fixed is_negative zero_f minus points l).n_points
              ≡ line.n_points + suc (length points)))
        (sym (point-kept point.0 point.1 line e))
        (
          buf ∙ append_assoc (line.buf ++ a) b rest ∙ append_assoc line.buf a (b ++ rest),
          omega (arith, n),
        )

  decode_points-texts :
      (ds : List (F × F)) → AllFit ds → decode_points (length ds) (texts ds) ≡ numbers ds
  unfolding decode_points
  decode_points-texts [] fit = refl
  decode_points-texts (d ∷ ds) ((lat, lon), fit) =
      let text1 = encode_double fixed is_negative d.1 ++ texts ds in
      ap
        (λ (x : ℕ × List ℕ).
          let y = decode_double x.1 in (x.0, y.0) ∷ decode_points (length ds) y.1)
        (decode_double-encode_double fixed is_negative d.0 text1 lat)
      ∙ ap (λ (y : ℕ × List ℕ). (fixed d.0, y.0) ∷ decode_points (length ds) y.1)
          (decode_double-encode_double fixed is_negative d.1 (texts ds) lon)
      ∙ ap (λ t. (fixed d.0, fixed d.1) ∷ t) (decode_points-texts ds fit)

  length-deltas :
      (from : F × F) (points : List (F × F)) → length (deltas from points) ≡ length points
  length-deltas from [] = refl
  length-deltas from (point ∷ points) = ap suc (length-deltas point points)

  -- Up to 85 points, whose differences (of the first point, from zero) fit, are all kept, and the
  -- text reads back as their differences in hundred-thousandths.
  pub decode_points-polyline_points :
      (points : List (F × F))
      → length points ≤ 85
      → AllFit (deltas (zero_f, zero_f) points)
      → ((built points).n_points ≡ length points)
        × (decode_points (length points) (built points).buf
            ≡ numbers (deltas (zero_f, zero_f) points))
  decode_points-polyline_points points few fit =
      let (buf, n) =
        points-texts points (polyline_begin fixed is_negative zero_f minus) (omega arith) in
      (
        omega (arith, n),
        ap (decode_points (length points)) buf
            ∙ subst
                (λ k.
                  decode_points k (texts (deltas (zero_f, zero_f) points))
                  ≡ numbers (deltas (zero_f, zero_f) points))
                (length-deltas (zero_f, zero_f) points)
                (decode_points-texts (deltas (zero_f, zero_f) points) fit),
      )
