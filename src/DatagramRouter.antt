-- ===== src/DatagramRouter.antt =====
-- crates/skimasque/src/dgram.rs: the routing table of a QUIC connection's datagrams. The channel of
-- tokio is a parameter; the lock makes each method one step on the table.
pub mod Invariant
pub mod Claim
use skimasque.Prelude.{
  ℕ, ◌≤◌, ◌<◌, List, [], ◌∷◌, ◌++◌, Bool, true, false, not, ◌&&◌, Option, none, some, leb, ◌==◌,
  if◌then◌else◌, length, drop, lookup, put, remove, ◌≡◌, refl, Result, ok, err, ltb,
}
use skimasque.Prelude.Bytes.{BytesCrate}
use skimasque.Datagram
use skimasque.Datagram.{QuarterStreamId}

abbrev pub max_pending_per_stream : ℕ
max_pending_per_stream = 16

abbrev pub max_pending_streams : ℕ
max_pending_streams = 64

abbrev pub inbound_capacity : ℕ
inbound_capacity = 256

abbrev pub Payload : Type 0
Payload = List ℕ

-- The documented behaviour of `tokio::sync::mpsc`: a new channel is open and empty, `try_send`
-- appends when the receiver is there and the queue is below its capacity, and fails otherwise.
pub record Mpsc : Type 1 where
  pub Channel : Type 0
  pub channel : (capacity : ℕ) → Channel
  pub try_send : Channel → Payload → Option Channel
  pub queued : Channel → List Payload
  pub capacity : Channel → ℕ
  pub is_open : Channel → Bool
  pub queued-channel : (n : ℕ) → queued (channel n) ≡ []
  pub capacity-channel : (n : ℕ) → capacity (channel n) ≡ n
  pub is_open-channel : (n : ℕ) → is_open (channel n) ≡ true
  pub try_send-room :
      (c : Channel) (p : Payload)
      → is_open c ≡ true
      → length (queued c) < capacity c
      → (d : Channel) × (try_send c p ≡ some d)
        × (queued d ≡ queued c ++ (p ∷ []))
        × (capacity d ≡ capacity c)
        × (is_open d ≡ true)
  pub try_send-full :
      (c : Channel) (p : Payload) → capacity c ≤ length (queued c) → try_send c p ≡ none
  pub try_send-closed : (c : Channel) (p : Payload) → is_open c ≡ false → try_send c p ≡ none

-- `queue.pop_front()` of a full queue, then `queue.push_back(payload)`
unfoldable pub enqueue : List Payload → Payload → List Payload
enqueue queue payload =
    if length queue == max_pending_per_stream
    then drop 1 queue ++ (payload ∷ [])
    else queue ++ (payload ∷ [])

-- `routes.pending.entry(stream_id).or_default()`
abbrev pub or_default : Option (List Payload) → List Payload
or_default none = []
or_default (some queue) = queue

abbrev pub is_some : {A : Type 0} → Option A → Bool
is_some none = false
is_some (some a) = true

-- `pending.len() >= MAX_PENDING_STREAMS && !pending.contains_key(&stream_id)`
unfoldable pub no_room : List (ℕ × List Payload) → ℕ → Bool
no_room pending id = leb max_pending_streams (length pending) && not (is_some (lookup id pending))

module _ ⦃t : Mpsc⦄ where
  -- The sender of a stream stands for its channel.
  pub record Routes : Type 0 where
    pub active : List (ℕ × t.Channel)
    pub pending : List (ℕ × List Payload)

  unfoldable pub empty : Routes
  empty = record { active = []; pending = [] }

  -- The part of `deliver` for a stream that is not registered.
  unfoldable pub hold : Routes → ℕ → Payload → Routes
  hold routes id payload = if no_room routes.pending id then routes else record routes {
    pending = put id (enqueue (or_default (lookup id routes.pending)) payload) routes.pending;
  }

  -- A channel that does not take the payload leaves the table as it was.
  unfoldable pub hand_over : Routes → ℕ → Option t.Channel → Routes
  hand_over routes id none = routes
  hand_over routes id (some sink) = record routes { active = put id sink routes.active }

  unfoldable pub deliver : Routes → QuarterStreamId → Payload → Routes
  deliver routes stream payload =
      let id = Datagram.stream_id stream in
      elim (lookup id routes.active) [
        | some sink ↦ hand_over routes id (t.try_send sink payload)
        | none ↦ hold routes id payload
      ]

  -- The loop over the buffered payloads, which stops at the first that the channel does not take.
  unfoldable pub send_all : t.Channel → List Payload → t.Channel
  send_all c [] = c
  send_all c (p ∷ rest) = elim (t.try_send c p) [ none ↦ c | some d ↦ send_all d rest ]

  -- The table after the call; the receiver is the other end of the channel that is now active.
  unfoldable pub register : Routes → ℕ → Routes
  register routes id =
      let tx = send_all (t.channel inbound_capacity) (or_default (lookup id routes.pending)) in
      record { active = put id tx routes.active; pending = remove id routes.pending }

  unfoldable pub unregister : Routes → ℕ → Routes
  unregister routes id = record routes { active = remove id routes.active }

  -- One datagram in `read_loop`: `none` is the closing of the connection.
  unfoldable pub read_datagram : ⦃b : BytesCrate⦄ → Routes → List ℕ → Option Routes
  read_datagram routes raw = elim (Datagram.decode_http3_datagram raw) [
    | ok (stream, payload) ↦ some (deliver routes stream payload)
    | err e ↦ none
  ]
