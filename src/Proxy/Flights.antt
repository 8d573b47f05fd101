-- ===== src/Proxy/Flights.antt =====
-- What the flights of src/proxy/singleflight promise through every order of their operations.
use rpc_plus_plus.Prelude.Words.{u64_mod}
use rpc_plus_plus.Prelude.Assoc.{lookup}
use rpc_plus_plus.Prelude.Options.{some_inj}
use rpc_plus_plus.Jsonrpc.Dedup.{DedupKey}
use rpc_plus_plus.Proxy.SingleFlight.{
  id_equality, key_equality, RequestId, FlightId, Entry, Flight, SingleFlight, Role, leader,
  follower, fresh, is_held, join, Reaches, here, next,
}
use rpc_plus_plus.Proxy.SingleFlightLaws.{
  IsSound, next_id-HasNumbers, IsUnheld, fresh-IsSound, IsUnheld-by_entry,
}
use rpc_plus_plus.Prelude.{
  ◌<◌, ◌≡◌, refl, sym, ap, subst, ◌∙◌, inl, inr, true, false, none, some, arith, ltb→lt, lt→ltb,
  Bool-cases, Option-cases, length, ◌≤◌,
}
use rpc_plus_plus.Proxy.SingleFlightSteps.{Step-IsSound, Step-grows}

-- Through every order of joins, completions, drops of handles and delayed evictions: a live flight
-- that is awaited is the one its key leads to, and every entry is of a live flight of its key and
-- leader. A late eviction never takes away the entry of a successor. The numbers of the flights wrap
-- at 64 bits: this holds until more than 2^64 of them were started.
pub Reaches-IsSound : (s : SingleFlight) → Reaches fresh s → length s.flights ≤ u64_mod → IsSound s
Reaches-IsSound s r within = go fresh s r within fresh-IsSound
  where
    go : (s t : SingleFlight) → Reaches s t → length t.flights ≤ u64_mod → IsSound s → IsSound t
    go s _ (here _) w p = p
    go s _ (next _ t u r k) w p =
        Step-IsSound t u k w (go s t r (omega (arith, Step-grows t u k)) p)

-- No two live flights of one key are awaited at a time, until more than 2^64 flights were started.
pub Reaches-one_flight :
    (s : SingleFlight)
    → Reaches fresh s
    → length s.flights ≤ u64_mod
    → (i j : FlightId) (f g : Flight) → lookup i s.flights ≡ some f
    → f.live ≡ true
    → 0 < f.handles
    → lookup j s.flights ≡ some g
    → g.live ≡ true
    → 0 < g.handles
    → f.key ≡ g.key
    → i ≡ j
Reaches-one_flight s r within i j f g hi li ai hj lj aj k =
    let p = Reaches-IsSound s r within in
    let first : lookup f.key s.inflight ≡ some (record { id = i; leader = f.leader }) =
      p.entered i f hi li ai in
    let second : lookup f.key s.inflight ≡ some (record { id = j; leader = g.leader }) =
      subst (λ x. lookup x s.inflight ≡ some (record { id = j; leader = g.leader })) (sym k)
        (p.entered j g hj lj aj) in
    ap (λ x. x.id) (some_inj (sym first ∙ second))

next_id-unused :
    (s : SingleFlight) → IsSound s → length s.flights < u64_mod → lookup s.next_id s.flights ≡ none
next_id-unused s p room = elim (Option-cases (lookup s.next_id s.flights)) [
  | inl unused ↦ unused
  | inr (f, found) ↦
      absurd (omega (arith, p.numbered.0 s.next_id f found, next_id-HasNumbers s p.numbered room))
]

-- What `join` hands out: a follower gets the flight of the key that is live and awaited, and the
-- leader named to it is that flight's; who leads does so because there is no such flight.
abbrev pub Granted : DedupKey → SingleFlight → FlightId × Role → Type 0
Granted key s (id, leader) = (lookup id s.flights ≡ none) × IsUnheld key s
Granted key s (id, follower other) =
    (f : Flight) × (lookup id s.flights ≡ some f)
    × (f.key ≡ key)
    × (f.leader ≡ other)
    × (f.live ≡ true)
    × (0 < f.handles)

-- A follower joins the one flight of its key that is live and awaited, and is told its leader; who
-- leads starts a flight of a new number, and does so exactly because no such flight is there. Fewer
-- than 2^64 flights must have been started.
pub join-Granted :
    (key : DedupKey) (me : RequestId) (s : SingleFlight)
    → Reaches fresh s
    → length s.flights < u64_mod
    → Granted key s (join key me s).0
unfolding join
join-Granted key me s r room =
    let p = Reaches-IsSound s r (omega arith) in
    let new = next_id-unused s p room in
    elim (Option-cases (lookup key s.inflight)) [
      | inl none_there ↦
          rw (none_there, join) (new, IsUnheld-by_entry key s p (λ e h. ground arith))
      | inr (e, entry) ↦ elim (Bool-cases (is_held (lookup e.id s.flights))) [
        | inl y ↦
            let (f, found, k, d, l) = p.backed key e entry in
            let held : 0 < f.handles = ltb→lt _ _ (subst (λ o. is_held o ≡ true) found y) in
            rw (entry, y, join) (f, found, k, d, l, held)
        | inr n ↦
            let dead : (x : Entry)
                → lookup key s.inflight ≡ some x
                → is_held (lookup x.id s.flights) ≡ false =
              λ x h.
                subst (λ z. is_held (lookup z.id s.flights) ≡ false) (some_inj (sym entry ∙ h)) n in
            rw (entry, n, join) (new, IsUnheld-by_entry key s p dead)
      ]
    ]

-- Once every flight has ended, the map is empty: no entry outlives its flight, until more than 2^64
-- flights were started.
pub Reaches-no_leak :
    (s : SingleFlight)
    → Reaches fresh s
    → length s.flights ≤ u64_mod
    → ((id : FlightId) (f : Flight) → lookup id s.flights ≡ some f → f.live ≡ false)
    → (key : DedupKey) → lookup key s.inflight ≡ none
Reaches-no_leak s r within over key = elim (Option-cases (lookup key s.inflight)) [
  | inl gone ↦ gone
  | inr (e, entry) ↦
      let (f, found, k, d, l) = (Reaches-IsSound s r within).backed key e entry in
      let dead = over e.id f found in ground arith
]

pub join-shares :
    (key : DedupKey) (me : RequestId) (s : SingleFlight) (id : FlightId) (f : Flight)
    → Reaches fresh s
    → length s.flights ≤ u64_mod
    → lookup id s.flights ≡ some f
    → f.key ≡ key
    → f.live ≡ true
    → 0 < f.handles
    → (join key me s).0 ≡ (id, follower f.leader)
unfolding join
join-shares key me s id f r within found k l a =
    let entry : lookup key s.inflight ≡ some (record { id = id; leader = f.leader }) =
      subst (λ x. lookup x s.inflight ≡ some (record { id = id; leader = f.leader })) k
        ((Reaches-IsSound s r within).entered id f found l a) in
    rw (entry, found, lt→ltb 0 f.handles a, join) refl
