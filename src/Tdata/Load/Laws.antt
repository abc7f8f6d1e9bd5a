-- ===== src/Tdata/Load/Laws.antt =====
-- What the loading of a timetable leads to.
use rrrr.Prelude.{
  ℕ, zero, suc, ◌+◌, ◌≤◌, ◌<◌, ◌≡◌, ◌⊎◌, refl, sym, ◌∙◌, ap, subst, Bool, true, false, Option, none,
  some, ltb, ==_iff, ◌==◌, if◌then◌else◌, range_from, arith, Bool-cases, inl, inr,
}
use rrrr.Prelude.Codes.{codes}
use rrrr.Tdata.{Tdata, Route}
use rrrr.Tdata.Columns.{Columns}
use rrrr.Tdata.Load.Format.{HasArrays, HasColumns}
use rrrr.Tdata.Load.{
  Image, Mapping, Loaded, same_text, greatest_agency, load_tdata, load_columns, load_mapped,
  tdata_load,
}

missing : {A : Type 0} {a : A} → some a ≡ none → ⊥
missing e = cc

clash : true ≡ false → ⊥
clash e = cc

module _ (routes : ℕ → Route) where
  -- The number is at least the index of each agency, and no greater than the start and all of them.
  abbrev IsGreatest : ℕ → ℕ → ℕ → ℕ → Type 0
  IsGreatest lo k n m =
      (n ≤ m)
      × ((r : ℕ) → lo ≤ r → r < lo + k → (routes r).agency_index ≤ m)
      × ((m ≡ n) ⊎ ((r : ℕ) × (r < lo + k) × ((routes r).agency_index ≡ m)))

  greatest_agency_lem :
      (lo k n : ℕ) → IsGreatest lo k n (greatest_agency routes (range_from lo k) n)
  greatest_agency_lem lo zero n = (omega arith, λ r le lt. absurd (omega arith), inl refl)
  greatest_agency_lem lo (suc k) n =
      let a = (routes lo).agency_index in
      let next = if ltb n a then a else n in
      let (le, bound, found) = greatest_agency_lem (lo + 1) k next in
      (
        after_le n a (greatest_agency routes (range_from (lo + 1) k) next) le,
        λ r ler ltr. elim (Bool-cases (lo == r)) [
          | inl p ↦
              subst
                (λ s. (routes s).agency_index ≤ greatest_agency routes (range_from (lo + 1) k) next)
                ((==_iff lo r).0 p)
                (after_le' n a (greatest_agency routes (range_from (lo + 1) k) next) le)
          | inr p ↦ bound r (ground arith) (omega arith)
        ],
        elim found [
          | inl e ↦ elim (Bool-cases (ltb n a)) [
            | inl p ↦ inr (lo, omega arith, ground (arith, e))
            | inr p ↦ inl (ground (arith, e))
          ]
          | inr (r, lt, e) ↦ inr (r, omega arith, e)
        ],
      )
    where
      after_le : (n a m : ℕ) → (if ltb n a then a else n) ≤ m → n ≤ m
      after_le n a m h = ground arith

      after_le' : (n a m : ℕ) → (if ltb n a then a else n) ≤ m → a ≤ m
      after_le' n a m h = ground arith

module _ {F : Type 0} where
  load_tdata-HasArrays : (b : Image F) (td : Tdata) → HasArrays b td → load_tdata b ≡ td
  load_tdata-HasArrays b td h = λ i. record {
    calendar_start_time = h.calendar_start_time i;
    n_stops = h.n_stops i;
    n_routes = h.n_routes i;
    stops = h.stops i;
    routes = h.routes i;
    stop_times = h.stop_times i;
    trips = h.trips i;
    route_stops = h.route_stops i;
    stop_routes = h.stop_routes i;
    transfer_target_stops = h.transfer_target_stops i;
    trip_active = h.trip_active i;
    route_active = h.route_active i;
    route_stop_attributes = h.route_stop_attributes i;
    transfer_dist_meters = h.transfer_dist_meters i;
    trip_attributes = h.trip_attributes i;
  }

  load_columns-HasColumns :
      (b : Image F) (cols : Columns F) → HasColumns b cols → load_columns b ≡ cols
  load_columns-HasColumns b cols h = λ i. record {
    dst_active = h.dst_active i;
    stop_attributes = h.stop_attributes i;
    stop_coords = h.stop_coords i;
    stop_names = h.stop_names i;
    stop_nameidx = h.stop_nameidx i;
    headsigns = h.headsigns i;
    platformcode_width = h.platformcodes.width_at i;
    platformcodes = h.platformcodes.texts_at i;
    agency_id_width = h.agency_ids.width_at i;
    agency_ids = h.agency_ids.texts_at i;
    agency_name_width = h.agency_names.width_at i;
    agency_names = h.agency_names.texts_at i;
    agency_url_width = h.agency_urls.width_at i;
    agency_urls = h.agency_urls.texts_at i;
    route_shortname_width = h.route_shortnames.width_at i;
    route_shortnames = h.route_shortnames.texts_at i;
    productcategory_width = h.productcategories.width_at i;
    productcategories = h.productcategories.texts_at i;
    route_id_width = h.route_ids.width_at i;
    route_ids = h.route_ids.texts_at i;
    stop_id_width = h.stop_ids.width_at i;
    stop_ids = h.stop_ids.texts_at i;
    trip_id_width = h.trip_ids.width_at i;
    trip_ids = h.trip_ids.texts_at i;
  }

  -- A file that can be opened, measured and mapped, and begins with the version of the format.
  abbrev pub IsReadable : Mapping F → Image F → Type 0
  IsReadable file b =
      (file.opened ≡ true)
      × (file.has_stat ≡ true)
      × (file.mapped ≡ some b)
      × (same_text (codes "TTABLEV2") b.header.version_string ≡ true)

  -- No agency of a route has a greater index than `n_agencies`, which is itself the index of one
  -- unless it is 0.
  abbrev pub CountsAgencies : Loaded F → Type 0
  CountsAgencies l =
      ((r : ℕ) → r < l.tdata.n_routes → (l.tdata.routes r).agency_index ≤ l.n_agencies)
      × ((l.n_agencies ≡ 0)
          ⊎ ((r : ℕ) × (r < l.tdata.n_routes) × ((l.tdata.routes r).agency_index ≡ l.n_agencies)))

  abbrev pub Outcome : Mapping F → Option (Loaded F) → Type 0
  Outcome file none = (b : Image F) → IsReadable file b → ⊥
  Outcome file (some l) =
      (b : Image F) × IsReadable file b
      × ((td : Tdata) → HasArrays b td → l.tdata ≡ td)
      × ((cols : Columns F) → HasColumns b cols → l.columns ≡ cols)
      × CountsAgencies l

  loaded_image : Image F → Loaded F
  loaded_image b = record {
    tdata = load_tdata b;
    columns = load_columns b;
    n_trips = b.header.n_trips;
    n_agencies = greatest_agency (load_tdata b).routes (range_from 0 (load_tdata b).n_routes) 0;
  }

  version_lem :
      (file : Mapping F) (b : Image F) (v : Bool)
      → file.opened ≡ true
      → file.has_stat ≡ true
      → file.mapped ≡ some b
      → same_text (codes "TTABLEV2") b.header.version_string ≡ v
      → Outcome file (if v then some (loaded_image b) else none)
  unfolding loaded_image
  version_lem file b false o s m e =
      λ c h. absurd (clash (sym (h.3) ∙ ap version (same (sym h.2 ∙ m)) ∙ e))
    where
      version : Image F → Bool
      version c = same_text (codes "TTABLEV2") c.header.version_string

      same : {c : Image F} → some c ≡ some b → c ≡ b
      same e = cc
  version_lem file b true o s m e =
      let h = b.header in
      let (le, bound, found) =
        greatest_agency_lem (load_tdata b).routes 0 (load_tdata b).n_routes 0 in
      (
        b,
        (o, s, m, e),
        load_tdata-HasArrays b,
        load_columns-HasColumns b,
        (
          λ r lt. bound r (omega arith) (omega (arith, lt)),
          elim found [ inl z ↦ inl z | inr (r, lt, at) ↦ inr (r, omega (arith, lt), at) ],
        ),
      )

  -- The program exits where the file cannot be opened, measured or mapped or is of another version,
  -- and only there. Otherwise it loads the timetable of the file: if the file holds the arrays and
  -- columns of a timetable at the places that its header names, each text column behind the four
  -- bytes of its width, they are what is loaded; and the number of agencies is the greatest index of
  -- an agency of a route.
  pub tdata_load-Outcome : (file : Mapping F) → Outcome file (tdata_load file)
  unfolding tdata_load loaded_image
  tdata_load-Outcome file = go file.opened file.has_stat file.mapped refl refl refl
    where
      go :
          (o s : Bool) (m : Option (Image F))
          → file.opened ≡ o
          → file.has_stat ≡ s
          → file.mapped ≡ m
          → Outcome file (if o then (if s then load_mapped m else none) else none)
      go false s m eo es em = λ b h. clash (sym h.0 ∙ eo)
      go true false m eo es em = λ b h. clash (sym h.1 ∙ es)
      go true true none eo es em = λ b h. missing (sym h.2 ∙ em)
      go true true (some b) eo es em =
          version_lem file b (same_text (codes "TTABLEV2") b.header.version_string) eo es em refl
