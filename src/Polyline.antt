-- ===== src/Polyline.antt =====
-- polyline.c: coordinates as printable text, each number in chunks of five bits.
--
-- `fixed c` is the conversion of `1e5 * c` to a uint32_t, for a negative number on the machine's
-- two's complement, and `is_negative c` is `c < 0`. The buffer holds characters up to its '\0'.
pub mod Decode
pub mod Laws
pub mod Points
mod Tests
use rrrr.Prelude.{
  ℕ, zero, suc, ◌+◌, ◌-◌, ◌*◌, ◌/◌, ◌%◌, ◌^◌, Bool, true, false, List, [], ◌∷◌, ◌++◌, ◌==◌, not,
  ◌&&◌, if◌then◌else◌, bit_or, leb, length, range_from, map,
}
use rrrr.Rtime.{walk}
use rrrr.Tdata.{Tdata, tdata_stops_for_route}
use rrrr.Router.Plan.{Leg}

-- The bits of the number, with its sign in the lowest one.
abbrev pub signed_bits : Bool → ℕ → ℕ
signed_bits negative binary =
    if negative then 2 ^ 32 - 1 - binary * 2 % 2 ^ 32 else binary * 2 % 2 ^ 32

-- `(binary & mask) >> (5 * i)`
abbrev pub chunk : ℕ → ℕ → ℕ
chunk binary i = binary / 2 ^ (5 * i) % 32

abbrev pub chunks : ℕ → List ℕ
chunks binary = map (chunk binary) (range_from 0 6)

-- The index of the last chunk that is not zero; `i` is the index of the first one in the list.
abbrev pub last_chunk : List ℕ → ℕ → ℕ → ℕ
last_chunk [] i last = last
last_chunk (c ∷ cs) i last = last_chunk cs (i + 1) (if c == 0 then last else i)

-- The characters of the chunks up to the last one, `n` after the first.
abbrev pub put_chunks : ℕ → List ℕ → List ℕ
put_chunks n [] = []
put_chunks zero (c ∷ cs) = (c + 63) ∷ []
put_chunks (suc n) (c ∷ cs) = (bit_or c 32 + 63) ∷ put_chunks n cs

abbrev pub encode_bits : ℕ → List ℕ
encode_bits binary = put_chunks (last_chunk (chunks binary) 0 0) (chunks binary)

abbrev pub buflen : ℕ
buflen = 1024

module _ {F : Type 0} (fixed : F → ℕ) (is_negative : F → Bool) where
  unfoldable pub encode_double : F → List ℕ
  encode_double c = encode_bits (signed_bits (is_negative c) (fixed c))

  unfoldable pub encode_latlon : F × F → List ℕ
  encode_latlon (lat, lon) = encode_double lat ++ encode_double lon

-- The text so far, its last point and the number of its points.
pub record Polyline (F : Type 0) : Type 0 where
  pub last_lat : F
  pub last_lon : F
  pub buf : List ℕ
  pub n_points : ℕ

module _ {F : Type 0} (fixed : F → ℕ) (is_negative : F → Bool) (zero_f : F)
    (minus : F → F → F) where
  abbrev pub polyline_begin : Polyline F
  polyline_begin = record { last_lat = zero_f; last_lon = zero_f; buf = []; n_points = 0 }

  unfoldable pub polyline_point : F × F → Polyline F → Polyline F
  polyline_point (lat, lon) line = if leb (buflen - 13) (length line.buf) then line else record {
    last_lat = lat;
    last_lon = lon;
    buf =
        (line.buf ++ encode_double fixed is_negative (minus lat line.last_lat))
        ++ encode_double fixed is_negative (minus lon line.last_lon);
    n_points = line.n_points + 1;
  }

  -- Points one after the other.
  unfoldable pub polyline_points : List (F × F) → Polyline F → Polyline F
  polyline_points [] line = line
  polyline_points (point ∷ points) line = polyline_points points (polyline_point point line)

  -- The stops of a route from `s0` on, up to `s1`; `output` once `s0` was met.
  abbrev pub stops_between : ℕ → ℕ → (ℕ → ℕ) → Bool → List ℕ → List ℕ
  stops_between s0 s1 stops output [] = []
  stops_between s0 s1 stops output (s ∷ ss) =
      let sidx = stops s in
      let output' = if not output && sidx == s0 then true else output in
      let rest = if sidx == s1 then [] else stops_between s0 s1 stops output' ss in
      if output' then sidx ∷ rest else rest

  unfoldable pub polyline_for_leg : Tdata → (ℕ → F × F) → Leg → Polyline F
  polyline_for_leg td stop_coords leg =
      polyline_points
        (if leg.route == walk
          then stop_coords leg.s0 ∷ stop_coords leg.s1 ∷ []
          else map stop_coords (
              stops_between leg.s0 leg.s1 (tdata_stops_for_route td leg.route) false
                (range_from 0 (td.routes leg.route).n_stops)))
        polyline_begin
