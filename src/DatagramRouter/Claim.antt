-- ===== src/DatagramRouter/Claim.antt =====
-- crates/skimasque/src/dgram.rs: what a tunnel finds in its queue when it registers.
use skimasque.Prelude.{
  ℕ, ◌+◌, ◌-◌, ◌≤◌, ◌<◌, List, [], ◌∷◌, ◌++◌, Bool, true, false, ◌&&◌, none, some, leb, ◌==◌,
  length, drop,
}
use skimasque.Prelude.{
  ◌≡◌, refl, sym, ap, ◌∙◌, inl, inr, arith, Bool-cases, length-append, length-drop, drop-append,
  drop-drop, append_assoc, append-nil,
}
use skimasque.Prelude.{lookup, put, lookup-put_same}
use skimasque.Datagram
use skimasque.Datagram.{QuarterStreamId}
use skimasque.DatagramRouter.{
  Mpsc, Payload, Routes, inbound_capacity, enqueue, or_default, no_room, hold, deliver, send_all,
  register,
}
use mathlib.Core.Path.{subst}

-- The last 16 elements.
pub latest : List Payload → List Payload
latest xs = drop (length xs - 16) xs

enqueue-latest : (xs : List Payload) (p : Payload) → enqueue (latest xs) p ≡ latest (xs ++ (p ∷ []))
unfolding enqueue latest
enqueue-latest xs p =
    let more = length-append xs (p ∷ []) in
    let rest = length-drop (length xs - 16) xs in
    elim (Bool-cases (leb 16 (length xs))) [
      | inl e ↦
          let full : (length (drop (length xs - 16) xs) == 16) ≡ true = ground (arith, e, rest) in
          let next : length (xs ++ (p ∷ [])) - 16 ≡ length xs - 16 + 1 = ground (arith, e, more) in
          rw (enqueue, full, next)
            (ap (λ (q : List Payload). q ++ (p ∷ [])) (drop-drop (length xs - 16) 1 xs)
              ∙ sym (drop-append (length xs - 16 + 1) xs (p ∷ []) (ground (arith, e))))
      | inr e ↦
          let none_over : length xs - 16 ≡ 0 = ground (arith, e) in
          let none_over' : length (xs ++ (p ∷ [])) - 16 ≡ 0 = ground (arith, e, more) in
          let room : (length xs == 16) ≡ false = ground (arith, e) in
          rw (none_over, none_over', enqueue, room) refl
    ]

module _ ⦃t : Mpsc⦄ where
  -- One payload after the other, as the reader delivers them.
  pub deliver_all : Routes → QuarterStreamId → List Payload → Routes
  deliver_all routes stream [] = routes
  deliver_all routes stream (p ∷ rest) = deliver_all (deliver routes stream p) stream rest

  -- The stream is not registered, its pending payloads are the latest of `xs`, and there is room.
  record Holds (routes : Routes) (id : ℕ) (xs : List Payload) : Type 0 where
    free : lookup id routes.active ≡ none
    held : or_default (lookup id routes.pending) ≡ latest xs
    room : no_room routes.pending id ≡ false

  Holds-deliver :
      (routes : Routes) (stream : QuarterStreamId) (xs : List Payload) (p : Payload)
      → Holds routes (Datagram.stream_id stream) xs
      → Holds (deliver routes stream p) (Datagram.stream_id stream) (xs ++ (p ∷ []))
  unfolding deliver hold no_room
  Holds-deliver routes stream xs p h =
      let id : ℕ = Datagram.stream_id stream in
      let queue : List Payload = enqueue (or_default (lookup id routes.pending)) p in
      let there : lookup id (put id queue routes.pending) ≡ some queue =
        lookup-put_same id queue routes.pending in
      rw (deliver, h.free, hold, h.room)
        (record {
          free = h.free;
          held = rw there (ap (λ (q : List Payload). enqueue q p) h.held ∙ enqueue-latest xs p);
          room = rw there (and_false (leb 64 (length (put id queue routes.pending))));
        })
    where
      and_false : (b : Bool) → (b && false) ≡ false
      and_false true = refl
      and_false false = refl

  Holds-deliver_all :
      (routes : Routes) (stream : QuarterStreamId) (xs ps : List Payload)
      → Holds routes (Datagram.stream_id stream) xs
      → Holds (deliver_all routes stream ps) (Datagram.stream_id stream) (xs ++ ps)
  unfolding deliver_all
  Holds-deliver_all routes stream xs [] h = rw (append-nil xs) h
  Holds-deliver_all routes stream xs (p ∷ ps) h =
      subst
        (λ (ys : List Payload).
          Holds (deliver_all (deliver routes stream p) stream ps) (Datagram.stream_id stream) ys)
        (append_assoc xs (p ∷ []) ps)
        (Holds-deliver_all (deliver routes stream p) stream (xs ++ (p ∷ [])) ps
          (Holds-deliver routes stream xs p h))

  -- A channel with room for all payloads takes all of them, in order.
  queued-send_all :
      (c : t.Channel) (ps : List Payload)
      → t.is_open c ≡ true
      → length (t.queued c) + length ps ≤ t.capacity c
      → t.queued (send_all c ps) ≡ t.queued c ++ ps
  unfolding send_all
  queued-send_all c [] open_c fits = sym (append-nil (t.queued c))
  queued-send_all c (p ∷ ps) open_c fits =
      let (d, sent, queued, capacity, open_d) = t.try_send-room c p open_c (omega (arith, fits)) in
      let fits' : length (t.queued d) + length ps ≤ t.capacity d =
        omega (arith, fits, ap length queued, length-append (t.queued c) (p ∷ []), capacity) in
      rw (send_all, sent)
        (queued-send_all d ps open_d fits'
          ∙ ap (λ (q : List Payload). q ++ ps) queued
          ∙ append_assoc (t.queued c) (p ∷ []) ps)

  -- For a stream that is neither registered nor pending, in a table with fewer than 64 pending
  -- streams: after any number of datagrams were delivered for it, registering it makes a channel
  -- that holds the last 16 of their payloads, all of them when there were no more, in the order in
  -- which they came.
  pub register-deliver_all :
      (routes : Routes) (stream : QuarterStreamId) (ps : List Payload)
      → lookup (Datagram.stream_id stream) routes.active ≡ none
      → lookup (Datagram.stream_id stream) routes.pending ≡ none
      → length routes.pending < 64
      → (c : t.Channel) × (lookup
            (Datagram.stream_id stream)
            (register (deliver_all routes stream ps) (Datagram.stream_id stream)).active
          ≡ some c)
        × (t.queued c ≡ latest ps)
  unfolding register latest no_room
  register-deliver_all routes stream ps free absent few =
      let id : ℕ = Datagram.stream_id stream in
      let after : Routes = deliver_all routes stream ps in
      let first : Holds routes id [] = record {
        free = free;
        held = rw absent refl;
        room = ground (arith, few);
      } in
      let h : Holds after id ps = Holds-deliver_all routes stream [] ps first in
      let queue : List Payload = or_default (lookup id after.pending) in
      let few_queued : length queue ≤ 16 =
        omega (arith, ap length h.held, length-drop (length ps - 16) ps) in
      let fits : length (t.queued (t.channel inbound_capacity)) + length queue
          ≤ t.capacity (t.channel inbound_capacity) =
        omega (
          arith,
          ap length (t.queued-channel inbound_capacity),
          t.capacity-channel inbound_capacity,
          few_queued,
        ) in
      (
        send_all (t.channel inbound_capacity) queue,
        lookup-put_same id (send_all (t.channel inbound_capacity) queue) after.active,
        queued-send_all (t.channel inbound_capacity) queue (t.is_open-channel inbound_capacity) fits
            ∙ ap (λ (q : List Payload). q ++ queue) (t.queued-channel inbound_capacity)
            ∙ h.held,
      )
