-- ===== src/DatagramRouter/Invariant.antt =====
-- crates/skimasque/src/dgram.rs: the bounds on what the router holds for unregistered streams.
use skimasque.Prelude.{
  ℕ, ◌≤◌, List, [], ◌∷◌, Bool, true, false, ◌&&◌, Option, none, some, leb, ◌==◌, length, drop,
}
use skimasque.Prelude.{
  ◌≡◌, refl, ◌⊎◌, inl, inr, arith, Bool-cases, Option-cases, ==_iff, length-append, length-drop,
}
use skimasque.Prelude.{
  lookup, put, remove, lookup-put_other, lookup-remove_same, lookup-remove_other, length-put-none,
  length-put-some, length-remove, AllValues, AllValues-put, AllValues-remove, AllValues-lookup,
}
use mathlib.Core.Path.{subst}
use skimasque.Datagram
use skimasque.Datagram.{QuarterStreamId}
use skimasque.DatagramRouter.{
  Mpsc, Payload, Routes, empty, inbound_capacity, enqueue, or_default, no_room, hold, hand_over,
  deliver, send_all, register, unregister,
}

abbrev IsShort : List Payload → Type 0
IsShort queue = length queue ≤ 16

enqueue-IsShort : (queue : List Payload) (p : Payload) → IsShort queue → IsShort (enqueue queue p)
unfolding enqueue
enqueue-IsShort queue p h = elim (Bool-cases (length queue == 16)) [
  | inl e ↦
      rw (enqueue, e) (omega (arith, length-append (drop 1 queue) (p ∷ []), length-drop 1 queue, h))
  | inr e ↦ rw (enqueue, e) (ground (arith, length-append queue (p ∷ []), e, h))
]

no_room-length :
    (pending : List (ℕ × List Payload)) (id : ℕ) (queue : List Payload)
    → no_room pending id ≡ false
    → length pending ≤ 64
    → length (put id queue pending) ≤ 64
unfolding no_room
no_room-length pending id queue h few = elim (Option-cases (lookup id pending)) [
  | inr (q, e) ↦ omega (arith, few, length-put-some id queue q pending e)
  | inl e ↦
      let room : leb 64 (length pending) ≡ false = and_true (leb 64 (length pending)) (rw e at h) in
      ground (arith, room, length-put-none id queue pending e)
]
  where
    and_true : (b : Bool) → (b && true) ≡ false → b ≡ false
    and_true true h = h
    and_true false h = h

module _ ⦃t : Mpsc⦄ where
  -- At most 64 streams are pending, each with at most 16 payloads, and no stream is both active
  -- and pending.
  pub record IsBounded (routes : Routes) : Type 0 where
    pub few_streams : length routes.pending ≤ 64
    pub short_queues : AllValues IsShort routes.pending
    pub apart : (id : ℕ) → (lookup id routes.active ≡ none) ⊎ (lookup id routes.pending ≡ none)

  empty-IsBounded : IsBounded empty
  unfolding empty
  empty-IsBounded = record { few_streams = omega arith; short_queues = tt; apart = λ id. inl refl }

  or_default-IsShort :
      (id : ℕ) (m : List (ℕ × List Payload))
      → AllValues IsShort m
      → IsShort (or_default (lookup id m))
  or_default-IsShort id m h = elim (Option-cases (lookup id m)) [
    | inl e ↦ rw e (omega arith)
    | inr (q, e) ↦ rw e (AllValues-lookup IsShort id q m h e)
  ]

  -- Pending payloads of one stream that is not active are replaced.
  store-IsBounded :
      (routes : Routes) (id : ℕ) (queue : List Payload)
      → lookup id routes.active ≡ none
      → IsShort queue
      → length (put id queue routes.pending) ≤ 64
      → IsBounded routes
      → IsBounded (record routes { pending = put id queue routes.pending })
  store-IsBounded routes id queue free short few h = record {
    few_streams = few;
    short_queues = AllValues-put IsShort id queue routes.pending short h.short_queues;
    apart = λ j. elim (Bool-cases (id == j)) [
      | inl e ↦ inl (subst (λ (k : ℕ). lookup k routes.active ≡ none) ((==_iff id j).0 e) free)
      | inr e ↦ rw (lookup-put_other id j queue routes.pending e) (h.apart j)
    ];
  }

  hold-IsBounded :
      (routes : Routes) (id : ℕ) (p : Payload)
      → lookup id routes.active ≡ none
      → IsBounded routes
      → IsBounded (hold routes id p)
  unfolding hold
  hold-IsBounded routes id p free h =
      let queue : List Payload = enqueue (or_default (lookup id routes.pending)) p in
      let short : IsShort queue =
        enqueue-IsShort (or_default (lookup id routes.pending)) p
          (or_default-IsShort id routes.pending h.short_queues) in
      elim (Bool-cases (no_room routes.pending id)) [
        | inl e ↦ rw (hold, e) h
        | inr e ↦
            rw (hold, e)
              (store-IsBounded routes id queue free short
                (no_room-length routes.pending id queue e h.few_streams) h)
      ]

  hand_over-IsBounded :
      (routes : Routes) (id : ℕ) (c : t.Channel) (o : Option t.Channel)
      → lookup id routes.active ≡ some c
      → IsBounded routes
      → IsBounded (hand_over routes id o)
  unfolding hand_over
  hand_over-IsBounded routes id c none e h = h
  hand_over-IsBounded routes id c (some d) e h = record {
    few_streams = h.few_streams;
    short_queues = h.short_queues;
    apart = λ j. elim (Bool-cases (id == j)) [
      | inl same ↦ inr (elim (h.apart id) [
        | inl free ↦ absurd (cc (e, free))
        | inr free ↦ subst (λ (k : ℕ). lookup k routes.pending ≡ none) ((==_iff id j).0 same) free
      ])
      | inr other ↦ rw (lookup-put_other id j d routes.active other) (h.apart j)
    ];
  }

  deliver-IsBounded :
      (routes : Routes) (stream : QuarterStreamId) (p : Payload)
      → IsBounded routes
      → IsBounded (deliver routes stream p)
  unfolding deliver
  deliver-IsBounded routes stream p h =
      elim (Option-cases (lookup (Datagram.stream_id stream) routes.active)) [
        | inl e ↦ rw (deliver, e) (hold-IsBounded routes (Datagram.stream_id stream) p e h)
        | inr (c, e) ↦
            rw (deliver, e)
              (hand_over-IsBounded routes (Datagram.stream_id stream) c (t.try_send c p) e h)
      ]

  register-IsBounded :
      (routes : Routes) (id : ℕ) → IsBounded routes → IsBounded (register routes id)
  unfolding register
  register-IsBounded routes id h = record {
    few_streams = omega (arith, length-remove id routes.pending, h.few_streams);
    short_queues = AllValues-remove IsShort id routes.pending h.short_queues;
    apart = λ j. elim (Bool-cases (id == j)) [
      | inl e ↦ inr (
          subst (λ (k : ℕ). lookup k (remove id routes.pending) ≡ none) ((==_iff id j).0 e)
            (lookup-remove_same id routes.pending))
      | inr e ↦
          let tx = send_all (t.channel inbound_capacity) (or_default (lookup id routes.pending)) in
          rw (lookup-put_other id j tx routes.active e, lookup-remove_other id j routes.pending e)
            (h.apart j)
    ];
  }

  unregister-IsBounded :
      (routes : Routes) (id : ℕ) → IsBounded routes → IsBounded (unregister routes id)
  unfolding unregister
  unregister-IsBounded routes id h = record {
    few_streams = h.few_streams;
    short_queues = h.short_queues;
    apart = λ j. elim (Bool-cases (id == j)) [
      | inl e ↦ inl (
          subst (λ (k : ℕ). lookup k (remove id routes.active) ≡ none) ((==_iff id j).0 e)
            (lookup-remove_same id routes.active))
      | inr e ↦ rw (lookup-remove_other id j routes.active e) (h.apart j)
    ];
  }

  -- A table that the router's methods make, in any order, from the empty one.
  pub data Reachable : Routes → Type 0 where
    start : Reachable empty
    delivered :
        (routes : Routes) (stream : QuarterStreamId) (p : Payload)
        → Reachable routes
        → Reachable (deliver routes stream p)
    registered : (routes : Routes) (id : ℕ) → Reachable routes → Reachable (register routes id)
    unregistered : (routes : Routes) (id : ℕ) → Reachable routes → Reachable (unregister routes id)

  -- Whatever sequence of deliveries, registrations and unregistrations made the routing table from
  -- the empty one, it holds payloads for at most 64 unregistered streams, at most 16 for each, and
  -- none for a stream that is registered.
  pub Reachable-IsBounded : (routes : Routes) → Reachable routes → IsBounded routes
  Reachable-IsBounded _ start = empty-IsBounded
  Reachable-IsBounded _ (delivered routes stream p r) =
      deliver-IsBounded routes stream p (Reachable-IsBounded routes r)
  Reachable-IsBounded _ (registered routes id r) =
      register-IsBounded routes id (Reachable-IsBounded routes r)
  Reachable-IsBounded _ (unregistered routes id r) =
      unregister-IsBounded routes id (Reachable-IsBounded routes r)
