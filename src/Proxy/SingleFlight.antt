-- ===== src/Proxy/SingleFlight.antt =====
-- src/proxy/singleflight: identical requests in flight share one call. A flight is counted by its
-- handles, as the weak reference of its entry is; every operation holds the lock of the map.
use rpc_plus_plus.Prelude.Words.{◌+u64◌}
use rpc_plus_plus.Prelude.Assoc.{Eq, lookup, insert, remove, update}
use rpc_plus_plus.Jsonrpc.Dedup.{DedupKey}
use rpc_plus_plus.Prelude.{
  ℕ, suc, ◌-◌, ◌<◌, ◌≡◌, ◌↔◌, Bool, true, false, Option, none, some, List, [], ◌∷◌, arith, ltb,
  ◌==◌, if◌then◌else◌, ==_iff,
}

instance abbrev pub id_equality : Eq ℕ
id_equality = record { beq = ◌==◌; beq_iff = ==_iff }

unfoldable pub key_beq : DedupKey → DedupKey → Bool
key_beq a b = a.hash == b.hash

pub key_beq_iff : (a b : DedupKey) → (key_beq a b ≡ true) ↔ (a ≡ b)
unfolding key_beq
key_beq_iff a b = ground (arith, ==_iff a.hash b.hash)

instance abbrev pub key_equality : Eq DedupKey
key_equality = record { beq = key_beq; beq_iff = key_beq_iff }

abbrev pub RequestId : Type 0
RequestId = ℕ

abbrev pub FlightId : Type 0
FlightId = ℕ

pub record Entry : Type 0 where
  pub id : FlightId
  pub leader : RequestId

-- The shared future: `handles` counts its strong references, and `live` is whether the future, and
-- the `Evict` that it owns, are still there.
pub record Flight : Type 0 where
  pub key : DedupKey
  pub leader : RequestId
  pub handles : ℕ
  pub live : Bool

pub record SingleFlight : Type 0 where
  pub inflight : List (DedupKey × Entry)
  pub flights : List (FlightId × Flight)
  pub next_id : FlightId

pub data Role : Type 0 where
  leader : Role
  follower : RequestId → Role

abbrev pub fresh : SingleFlight
fresh = record { inflight = []; flights = []; next_id = 0 }

-- `WeakShared::upgrade` of a flight of the table: whether a handle of it is left.
abbrev pub is_held : Option Flight → Bool
is_held none = false
is_held (some f) = ltb 0 f.handles

-- The flight of a number.
abbrev pub lookup_flight : FlightId → List (FlightId × Flight) → Option Flight
lookup_flight id flights = lookup id flights

-- `FlightIds::next` is a `fetch_add`, which wraps at 64 bits.
unfoldable pub lead : DedupKey → RequestId → SingleFlight → SingleFlight
lead key me s = record {
  inflight = insert key (record { id = s.next_id; leader = me }) s.inflight;
  flights = (s.next_id, record { key = key; leader = me; handles = 1; live = true }) ∷ s.flights;
  next_id = s.next_id +u64 1;
}

abbrev pub add_handle : Flight → Flight
add_handle f = record f { handles = suc f.handles }

abbrev pub drop_handle : Flight → Flight
drop_handle f = record f { handles = f.handles - 1 }

abbrev pub end_flight : Flight → Flight
end_flight f = record f { live = false }

unfoldable pub follow : Entry → SingleFlight → SingleFlight
follow e s = record s { flights = update e.id add_handle s.flights }

-- `join`: the flight it hands out, and the role in it.
unfoldable pub join : DedupKey → RequestId → SingleFlight → (FlightId × Role) × SingleFlight
unfolding lead follow
join key me s = elim (lookup key s.inflight) [
  | none ↦ ((s.next_id, leader), lead key me s)
  | some e ↦
      if is_held (lookup e.id s.flights)
      then ((e.id, follower e.leader), follow e s)
      else ((s.next_id, leader), lead key me s)
]

abbrev pub is_of : FlightId → Option Entry → Bool
is_of id none = false
is_of id (some e) = e.id == id

-- `Evict::drop`.
unfoldable pub evict : DedupKey → FlightId → SingleFlight → SingleFlight
evict key id s =
    if is_of id (lookup key s.inflight) then (record s { inflight = remove key s.inflight }) else s

-- The end of a flight's future: its output is ready, or its last handle is gone.
unfoldable pub conclude : FlightId → Flight → SingleFlight → SingleFlight
unfolding evict
conclude id f s = evict f.key id (record s { flights = update id end_flight s.flights })

unfoldable pub release : FlightId → SingleFlight → SingleFlight
release id s = record s { flights = update id drop_handle s.flights }

-- What may happen to the flights, one locked operation at a time. Between the drop of the last
-- handle and the drop of the future, others may take their turn.
pub data Step : SingleFlight → SingleFlight → Type 0 where
  joins : (key : DedupKey) (me : RequestId) (s : SingleFlight) → Step s (join key me s).1
  completes :
      (id : FlightId) (f : Flight) (s : SingleFlight)
      → lookup id s.flights ≡ some f
      → f.live ≡ true
      → 0 < f.handles
      → Step s (conclude id f s)
  releases :
      (id : FlightId) (f : Flight) (s : SingleFlight)
      → lookup id s.flights ≡ some f
      → 0 < f.handles
      → Step s (release id s)
  expires :
      (id : FlightId) (f : Flight) (s : SingleFlight)
      → lookup id s.flights ≡ some f
      → f.live ≡ true
      → f.handles ≡ 0
      → Step s (conclude id f s)

pub data Reaches : SingleFlight → SingleFlight → Type 0 where
  here : (s : SingleFlight) → Reaches s s
  next : (s t u : SingleFlight) → Reaches s t → Step t u → Reaches s u
