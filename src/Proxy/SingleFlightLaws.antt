-- ===== src/Proxy/SingleFlightLaws.antt =====
-- What the flights of src/proxy/singleflight promise, through every order of their operations.
use rpc_plus_plus.Prelude.Words.{u64, u64_mod}
use rpc_plus_plus.Prelude.Assoc.{lookup, insert, update}
use rpc_plus_plus.Prelude.AssocLaws.{
  beq-cases, insert-same, insert-other, insert-some, cons-same, cons-other, cons-some, update-same,
  update-other, update-some,
}
use rpc_plus_plus.Jsonrpc.Dedup.{DedupKey}
use rpc_plus_plus.Proxy.SingleFlight.{
  id_equality, key_equality, RequestId, FlightId, Entry, Flight, SingleFlight, fresh, is_held, lead,
  add_handle, drop_handle, follow, release,
}
use rpc_plus_plus.Prelude.{
  ◌<◌, ◌≡◌, refl, sym, ap, subst, ◌∙◌, ◌≢◌, inl, inr, true, false, some, ◌∷◌, arith, ltb, ◌==◌,
  ltb→lt, lt→ltb, length, List, [],
}

pub length-update :
    (id : FlightId) (change : Flight → Flight) (m : List (FlightId × Flight))
    → length (update id change m) ≡ length m
unfolding update
length-update id change [] = refl
length-update id change ((i, f) ∷ m) = ground (arith, length-update id change m)

-- A live flight that someone awaits is the one its key leads to.
abbrev pub IsEntered : SingleFlight → Type 0
IsEntered s =
    (id : FlightId) (f : Flight)
    → lookup id s.flights ≡ some f
    → f.live ≡ true
    → 0 < f.handles
    → lookup f.key s.inflight ≡ some (record { id = id; leader = f.leader })

-- Every entry is of a live flight of its key and its leader: nothing is left behind.
abbrev pub IsBacked : SingleFlight → Type 0
IsBacked s =
    (key : DedupKey) (e : Entry)
    → lookup key s.inflight ≡ some e
    → (f : Flight) × (lookup e.id s.flights ≡ some f)
      × (f.key ≡ key)
      × (f.leader ≡ e.leader)
      × (f.live ≡ true)

-- The numbers in use are below the number of flights, of which there have been as many as the next
-- number says, as far as 64 bits tell.
abbrev pub IsNumbered : SingleFlight → Type 0
IsNumbered s =
    ((id : FlightId) (f : Flight) → lookup id s.flights ≡ some f → id < length s.flights)
    × (s.next_id ≡ u64 (length s.flights))

-- The next number has not been used.
abbrev pub HasNumbers : SingleFlight → Type 0
HasNumbers s = length s.flights < u64_mod

pub next_id-HasNumbers :
    (s : SingleFlight) → IsNumbered s → HasNumbers s → s.next_id ≡ length s.flights
next_id-HasNumbers s p room = omega (arith, p.1)

pub record IsSound (s : SingleFlight) : Type 0 where
  pub entered : IsEntered s
  pub backed : IsBacked s
  pub numbered : IsNumbered s

pub fresh-IsSound : IsSound fresh
unfolding lookup
fresh-IsSound = record {
  entered = λ id f h l p. ground arith;
  backed = λ key e h. ground arith;
  numbered = (λ id f h. ground arith, refl);
}

-- No flight of the key is live and awaited.
abbrev pub IsUnheld : DedupKey → SingleFlight → Type 0
IsUnheld key s =
    (id : FlightId) (f : Flight)
    → lookup id s.flights ≡ some f
    → f.live ≡ true
    → 0 < f.handles
    → f.key ≢ key

abbrev new_entry : SingleFlight → RequestId → Entry
new_entry s me = record { id = s.next_id; leader = me }

lead-IsEntered :
    (key : DedupKey) (me : RequestId) (s : SingleFlight)
    → IsUnheld key s
    → IsSound s
    → IsEntered (lead key me s)
unfolding lead
lead-IsEntered key me s u p id f h l a = elim (cons-some s.next_id id _ f s.flights h) [
  | inl (e, v) ↦
      subst
        (λ i.
          lookup {V = Entry} f.key (insert key (new_entry s me) s.inflight)
          ≡ some (record { id = i; leader = f.leader }))
        e
        (subst
          (λ g.
            lookup {V = Entry} g.key (insert key (new_entry s me) s.inflight)
            ≡ some (record { id = s.next_id; leader = g.leader }))
          v (insert-same key (new_entry s me) s.inflight))
  | inr (n, g) ↦ elim (beq-cases key f.key) [
    | inl e ↦ elim (u id f g l a (sym e)) [ ]
    | inr o ↦ insert-other key f.key (new_entry s me) s.inflight o ∙ p.entered id f g l a
  ]
]

lead-IsBacked :
    (key : DedupKey) (me : RequestId) (s : SingleFlight)
    → HasNumbers s
    → IsSound s
    → IsBacked (lead key me s)
unfolding lead
lead-IsBacked key me s room p k e h = elim (insert-some key k (new_entry s me) e s.inflight h) [
  | inl (same, v) ↦
      let led : Flight = record { key = key; leader = me; handles = 1; live = true } in
      (
        led,
        subst (λ x. lookup x.id ((s.next_id, led) ∷ s.flights) ≡ some led) v
            (cons-same s.next_id led s.flights),
        same,
        ap (λ x. x.leader) v,
        refl,
      )
  | inr (n, g) ↦
      let (f, found, k', d, l) = p.backed k e g in
      let old = p.numbered.0 e.id f found in
      let now = next_id-HasNumbers s p.numbered room in
      let other : (s.next_id == e.id) ≡ false = ground arith in
      (f, cons-other s.next_id e.id _ s.flights other ∙ found, k', d, l)
]

lead-IsNumbered :
    (key : DedupKey) (me : RequestId) (s : SingleFlight)
    → HasNumbers s
    → IsSound s
    → IsNumbered (lead key me s)
unfolding lead
lead-IsNumbered key me s room p = (
  λ id f h. elim (cons-some s.next_id id _ f s.flights h) [
    | inl (e, v) ↦ omega (arith, e, next_id-HasNumbers s p.numbered room)
    | inr (n, g) ↦ omega (arith, p.numbered.0 id f g)
  ],
  omega (arith, p.numbered.1),
)

pub change-IsNumbered :
    (id : FlightId) (change : Flight → Flight) (s : SingleFlight)
    → IsNumbered s
    → IsNumbered (record s { flights = update id change s.flights })
change-IsNumbered id change s p = (
  λ i g h. elim (update-some id i change g s.flights h) [
    | inl (e, v, found, c) ↦ omega (arith, length-update id change s.flights, p.0 i v found)
    | inr (n, k) ↦ omega (arith, length-update id change s.flights, p.0 i g k)
  ],
  rw (length-update id change s.flights) p.1,
)

-- A change of a flight that leaves its key, leader and life, and hands it to no one new.
pub change-IsSound :
    (id : FlightId) (change : Flight → Flight) (s : SingleFlight)
    → ((g : Flight)
        → ((change g).key ≡ g.key) × ((change g).leader ≡ g.leader) × ((change g).live ≡ g.live))
    → ((g : Flight)
        → lookup id s.flights ≡ some g
        → g.live ≡ true
        → 0 < (change g).handles
        → 0 < g.handles)
    → IsSound s
    → IsSound (record s { flights = update id change s.flights })
change-IsSound id change s same held p = record {
  entered = λ i g h l a. elim (update-some id i change g s.flights h) [
    | inl (e, v, found, c) ↦
        let (k, d, x) = same v in
        let live : v.live ≡ true = sym x ∙ ap (λ y. y.live) c ∙ l in
        let at : lookup id s.flights ≡ some v =
          subst (λ j. lookup j s.flights ≡ some v) (sym e) found in
        let awaited : 0 < v.handles = held v at live (subst (λ y. 0 < y.handles) (sym c) a) in
        subst (λ y. lookup y.key s.inflight ≡ some (record { id = i; leader = y.leader })) c
          (rw (k, d) (p.entered i v found live awaited))
    | inr (n, k) ↦ p.entered i g k l a
  ];
  backed = λ key e h.
      let (f, found, k, d, l) = p.backed key e h in
      elim (beq-cases id e.id) [
        | inl eq ↦
            let at : lookup id s.flights ≡ some f =
              subst (λ j. lookup j s.flights ≡ some f) (sym eq) found in
            let (k', d', l') = same f in
            (
              change f,
              subst (λ j. lookup j (update id change s.flights) ≡ some (change f)) eq
                  (update-same id change f s.flights at),
              k' ∙ k,
              d' ∙ d,
              l' ∙ l,
            )
        | inr n ↦ (f, update-other id e.id change s.flights n ∙ found, k, d, l)
      ];
  numbered = change-IsNumbered id change s p.numbered;
}

pub release-IsSound : (id : FlightId) (s : SingleFlight) → IsSound s → IsSound (release id s)
unfolding release
release-IsSound id s p =
    change-IsSound id drop_handle s (λ g. (refl, refl, refl)) (λ g h l a. omega arith) p

-- Whoever follows takes a handle of a flight that is awaited.
pub follow-IsSound :
    (e : Entry) (s : SingleFlight)
    → is_held (lookup e.id s.flights) ≡ true
    → IsSound s
    → IsSound (follow e s)
unfolding follow
follow-IsSound e s h p =
    change-IsSound e.id add_handle s (λ g. (refl, refl, refl))
      (λ g f l a. ltb→lt _ _ (subst (λ o. is_held o ≡ true) f h)) p

-- No flight of a key is awaited where its entry, if there is one, cannot be upgraded.
pub IsUnheld-by_entry :
    (key : DedupKey) (s : SingleFlight)
    → IsSound s
    → ((e : Entry) → lookup key s.inflight ≡ some e → is_held (lookup e.id s.flights) ≡ false)
    → IsUnheld key s
IsUnheld-by_entry key s p dead id f h l a k =
    let entry : lookup key s.inflight ≡ some (record { id = id; leader = f.leader }) =
      subst (λ j. lookup j s.inflight ≡ some (record { id = id; leader = f.leader })) k
        (p.entered id f h l a) in
    let gone : ltb 0 f.handles ≡ false = sym (ap is_held h) ∙ dead _ entry in
    ground (arith, lt→ltb 0 f.handles a)

pub lead-IsSound :
    (key : DedupKey) (me : RequestId) (s : SingleFlight)
    → HasNumbers s
    → IsUnheld key s
    → IsSound s
    → IsSound (lead key me s)
lead-IsSound key me s room u p = record {
  entered = lead-IsEntered key me s u p;
  backed = lead-IsBacked key me s room p;
  numbered = lead-IsNumbered key me s room p;
}
