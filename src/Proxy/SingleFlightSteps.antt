-- ===== src/Proxy/SingleFlightSteps.antt =====
-- The flights of src/proxy/singleflight, over every sequence of joins, ends and drops.
use rpc_plus_plus.Prelude.Words.{u64_mod}
use rpc_plus_plus.Prelude.Assoc.{lookup, remove, update}
use rpc_plus_plus.Prelude.AssocLaws.{
  beq-cases, remove-other, remove-some, update-other, update-some,
}
use rpc_plus_plus.Prelude.Options.{some_inj}
use rpc_plus_plus.Jsonrpc.Dedup.{DedupKey}
use rpc_plus_plus.Proxy.SingleFlight.{
  id_equality, key_equality, RequestId, FlightId, Entry, Flight, SingleFlight, is_held, end_flight,
  lead, follow, release, add_handle, drop_handle, join, is_of, evict, conclude, Step, joins,
  completes, releases, expires,
}
use rpc_plus_plus.Proxy.SingleFlightLaws.{
  IsSound, HasNumbers, length-update, change-IsNumbered, release-IsSound, follow-IsSound,
  IsUnheld-by_entry, lead-IsSound,
}
use rpc_plus_plus.Prelude.{
  ◌≡◌, refl, sym, ap, subst, ◌∙◌, ◌⊎◌, inl, inr, true, false, Option, none, some, List, arith,
  length, ◌≤◌, ◌==◌, ==_iff, Bool-cases, Option-cases,
}

lead-HasNumbers :
    (key : DedupKey) (me : RequestId) (s : SingleFlight)
    → length (lead key me s).flights ≤ u64_mod
    → HasNumbers s
unfolding lead
lead-HasNumbers key me s h = omega arith

pub join-IsSound :
    (key : DedupKey) (me : RequestId) (s : SingleFlight)
    → length (join key me s).1.flights ≤ u64_mod
    → IsSound s
    → IsSound (join key me s).1
unfolding join
join-IsSound key me s within p = elim (Option-cases (lookup key s.inflight)) [
  | inl none_there ↦
      rw (none_there, join)
        (lead-IsSound key me s (lead-HasNumbers key me s (rw (none_there, join) at within))
          (IsUnheld-by_entry key s p (λ e h. ground arith)) p)
  | inr (e, entry) ↦ elim (Bool-cases (is_held (lookup e.id s.flights))) [
    | inl y ↦ rw (entry, y, join) (follow-IsSound e s y p)
    | inr n ↦
        let dead : (x : Entry)
            → lookup key s.inflight ≡ some x
            → is_held (lookup x.id s.flights) ≡ false =
          λ x h.
            subst (λ z. is_held (lookup z.id s.flights) ≡ false) (some_inj (sym entry ∙ h)) n in
        rw (entry, n, join)
          (lead-IsSound key me s (lead-HasNumbers key me s (rw (entry, n, join) at within))
            (IsUnheld-by_entry key s p dead) p)
  ]
]

abbrev ended : FlightId → SingleFlight → List (FlightId × Flight)
ended id s = update id end_flight s.flights

-- A flight that is live after `id` has ended was live before, and is another.
live-ended :
    (id i : FlightId) (g : Flight) (s : SingleFlight)
    → lookup i (ended id s) ≡ some g
    → g.live ≡ true
    → ((id == i) ≡ false) × (lookup i s.flights ≡ some g)
live-ended id i g s h l = elim (update-some id i end_flight g s.flights h) [
  | inl (e, v, found, c) ↦ let dead : g.live ≡ false = sym (ap (λ x. x.live) c) in ground arith
  | inr (n, k) ↦ (n, k)
]

is_of-some :
    (id : FlightId) (o : Option Entry)
    → is_of id o ≡ true
    → (e : Entry) × (o ≡ some e) × (e.id ≡ id)
is_of-some id none h = ground arith
is_of-some id (some e) h = (e, refl, (==_iff e.id id).0 h)

-- An entry of the ended flight is the one under its own key.
backed-ended :
    (id : FlightId) (f : Flight) (key : DedupKey) (e : Entry) (s : SingleFlight)
    → lookup id s.flights ≡ some f
    → IsSound s
    → lookup key s.inflight ≡ some e
    → ((id ≡ e.id) × (f.key ≡ key))
      ⊎ ((g : Flight) × (lookup e.id (ended id s) ≡ some g)
          × (g.key ≡ key)
          × (g.leader ≡ e.leader)
          × (g.live ≡ true))
backed-ended id f key e s h p entry =
    let (g, found, k, d, l) = p.backed key e entry in
    elim (beq-cases id e.id) [
      | inl same ↦
          let both : f ≡ g =
            some_inj (sym h ∙ subst (λ j. lookup j s.flights ≡ some g) (sym same) found) in
          inl (same, ap (λ x. x.key) both ∙ k)
      | inr n ↦ inr (g, update-other id e.id end_flight s.flights n ∙ found, k, d, l)
    ]

-- The entry of the key is the ended flight's own: it goes.
evicted-IsSound :
    (id : FlightId) (f : Flight) (s : SingleFlight)
    → lookup id s.flights ≡ some f
    → IsSound s
    → is_of id (lookup f.key s.inflight) ≡ true
    → IsSound (record s { inflight = remove f.key s.inflight; flights = ended id s })
evicted-IsSound id f s h p own =
    let (e, entry, named) = is_of-some id (lookup f.key s.inflight) own in
    record {
      entered = λ i g k l a.
          let (n, before) = live-ended id i g s k l in
          let at = p.entered i g before l a in
          elim (beq-cases f.key g.key) [
            | inl same ↦
                let here_too : lookup g.key s.inflight ≡ some e =
                  subst (λ x. lookup x s.inflight ≡ some e) same entry in
                let one : e.id ≡ i = ap (λ x. x.id) (some_inj (sym here_too ∙ at)) in ground arith
            | inr o ↦ remove-other f.key g.key s.inflight o ∙ at
          ];
      backed = λ key x k.
          let (n, before) = remove-some f.key key x s.inflight k in
          elim (backed-ended id f key x s h p before) [
            | inl (same, keyed) ↦
                let yes : key_equality.beq f.key key ≡ true =
                  (key_equality.beq_iff f.key key).1 keyed in
                ground arith
            | inr b ↦ b
          ];
      numbered = change-IsNumbered id end_flight s p.numbered;
    }

-- The key leads to a successor, or nowhere: the entries stay.
spared-IsSound :
    (id : FlightId) (f : Flight) (s : SingleFlight)
    → lookup id s.flights ≡ some f
    → IsSound s
    → is_of id (lookup f.key s.inflight) ≡ false
    → IsSound (record s { flights = ended id s })
spared-IsSound id f s h p other = record {
  entered = λ i g k l a. let (n, before) = live-ended id i g s k l in p.entered i g before l a;
  backed = λ key x k. elim (backed-ended id f key x s h p k) [
    | inl (same, keyed) ↦
        let own : is_of id (lookup f.key s.inflight) ≡ true =
          rw (keyed, k) ((==_iff x.id id).1 (sym same)) in
        ground arith
    | inr b ↦ b
  ];
  numbered = change-IsNumbered id end_flight s p.numbered;
}

-- The future of a flight is dropped: its entry goes, unless the key leads to another flight by now.
conclude-IsSound :
    (id : FlightId) (f : Flight) (s : SingleFlight)
    → lookup id s.flights ≡ some f
    → IsSound s
    → IsSound (conclude id f s)
unfolding conclude
conclude-IsSound id f s h p = elim (Bool-cases (is_of id (lookup f.key s.inflight))) [
  | inl y ↦ rw (y, evict) (evicted-IsSound id f s h p y)
  | inr n ↦ rw (n, evict) (spared-IsSound id f s h p n)
]

pub Step-IsSound :
    (s t : SingleFlight) → Step s t → length t.flights ≤ u64_mod → IsSound s → IsSound t
Step-IsSound s _ (joins key me _) w p = join-IsSound key me s w p
Step-IsSound s _ (completes id f _ h l a) w p = conclude-IsSound id f s h p
Step-IsSound s _ (releases id f _ h a) w p = release-IsSound id s p
Step-IsSound s _ (expires id f _ h l a) w p = conclude-IsSound id f s h p

join-grows :
    (key : DedupKey) (me : RequestId) (s : SingleFlight)
    → length s.flights ≤ length (join key me s).1.flights
unfolding join lead follow
join-grows key me s = elim (Option-cases (lookup key s.inflight)) [
  | inl none_there ↦ rw (none_there, join) (omega arith)
  | inr (e, entry) ↦ elim (Bool-cases (is_held (lookup e.id s.flights))) [
    | inl y ↦ rw (entry, y, join) (omega (arith, length-update e.id add_handle s.flights))
    | inr n ↦ rw (entry, n, join) (omega arith)
  ]
]

conclude-grows :
    (id : FlightId) (f : Flight) (s : SingleFlight)
    → length (conclude id f s).flights ≡ length s.flights
unfolding conclude evict
conclude-grows id f s = elim (Bool-cases (is_of id (lookup f.key s.inflight))) [
  | inl y ↦ rw y (length-update id end_flight s.flights)
  | inr n ↦ rw n (length-update id end_flight s.flights)
]

-- The flights are never fewer.
pub Step-grows : (s t : SingleFlight) → Step s t → length s.flights ≤ length t.flights
unfolding release
Step-grows s _ (joins key me _) = join-grows key me s
Step-grows s _ (completes id f _ h l a) = omega (arith, conclude-grows id f s)
Step-grows s _ (releases id f _ h a) = omega (arith, length-update id drop_handle s.flights)
Step-grows s _ (expires id f _ h l a) = omega (arith, conclude-grows id f s)
