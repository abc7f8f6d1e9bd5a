-- ===== src/Lib.antt =====
-- A transit trip planner (RAPTOR search over a timetable), and what is proved of it.
--
-- The program searches a timetable of routes, trips and stops in rounds: in round n it rides every
-- route that serves a stop improved in the round before, and then walks the transfers from the
-- stops that were improved. Two bitsets of the router's scratch space carry the stops and the
-- routes from one phase to the next. From the states left per round and stop it then builds a plan
-- with one itinerary for each round that reached the destination, and a request can be turned
-- round with the result of a search to tighten it.
--
--   Prelude    shared names, Boolean tests, lists, bits of a word, and the monad of `exit`
--   BitSet     bitset.c: the set, its scan for the next member (on fuel: two more than the capacity)
--              and the loop over it; `exit(1)` of the index check is `none`
--   Rtime      util.h and util.c: 16-bit times in units of four seconds, and their display
--   Tdata      tdata.h, and the accessors (Columns) and text searches (Lookup) of tdata.c; each array
--              is a function of the index; the loading of a file (Load, with its format in
--              Load/Format), which is an argument, and the test of a timetable (Coherent)
--   Parse      parse.c: a request from options, and from a query string (Query); the C library is an
--              argument
--   Json       json.c: the writer on its bounded buffer; a document as a tree (Document), and the
--              rendering of places, legs, itineraries and plans as calls of the writer (Render);
--              the document for a plan is described apart from the calls (Render/Described)
--   Polyline   polyline.c: coordinates as text, with a reader of the format (Decode)
--   Qstring    qstring.c: the pairs of a query string, decoded in the buffer; the calls for all pairs
--              have fuel for one more than the characters of the query
--   Radix      radixtree.c: the map from strings to indexes; a string is the list of its characters
--              and the loop of rxt_insert has fuel for the key's characters and the tree's edges;
--              the loop of rxt_compress may not end, so its fuel is open (Compress)
--   HashGrid   hashgrid.c: points in bins (Sorting, Bins), and the search for the closest one (Query),
--              on fuel, of which enough exists; a read past the end of an array is a result
--   IntSet     intset.c: a hash table of numbers; a chain is a list
--   Realtime   tdata_apply_gtfsrt of tdata.c; the decoder of the message is an argument, and a read
--              through NULL is `none`
--   Router     router.h, and router.c in the order of a search:
--     Stoptime   tdata_depart, tdata_arrive, tdata_stoptime
--     Board      router_round: the search for a trip over the service days
--     Ride       router_round: a route, stop by stop (boarding and alighting)
--     Transfers  flag_routes_for_stop, unflag_banned_*, initialize_transfers, apply_transfers
--     Search     router_round and router_route, with the invariant of a search (Invariant), that it
--                runs to its end (Reached), and the chain of states behind a stop (Trace)
--     Setup      tdata_clear_gtfsrt of tdata.c
--     Request    router_request_initialize, _from_epoch, _next, _reverse, range_check
--     Plan       router_result_to_plan, check_plan_invariants, transfer_duration, _distance; a search
--                and its plan together (Traced)
--
-- Numbers are naturals with each wrap-around of a C type written out; a signed 16-bit delay is its
-- bit pattern. Memory that several functions share is passed along in the `Router` record. The
-- clock, the C library's calendar functions, the floating-point walking speed and the memory behind
-- the chunks of a bitset are arguments. The loops are structural, over lists of indexes, or
-- on fuel as said above, with the theorem that it is enough. Messages on the
-- console are left out, but for those of the test of a timetable.
--
-- Not modelled: the rendering of plans as plain text, the alerts of the realtime feed, the network
-- programs, the allocation of the router's scratch space (router_setup), the visualisers, the
-- floating-point geometry, and the linked list, the priority queue, the slab allocator and the
-- trie, which no part of the search uses.
pub mod BitSet
pub mod HashGrid
pub mod IntSet
pub mod Json
pub mod Parse
pub mod Polyline
pub mod Prelude
pub mod Qstring
pub mod Radix
pub mod Realtime
pub mod Router
pub mod Rtime
pub mod Tdata
