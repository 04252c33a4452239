-- ===== src/Datagram.antt =====
-- crates/skimasque-core/src/datagram.rs: HTTP datagrams and the context-id layer inside them.
pub mod Frames
pub mod Allocation
use skimasque.Prelude.{
  ℕ, ◌+◌, ◌-◌, ◌*◌, ◌/◌, ◌%◌, ◌^◌, List, [], ◌∷◌, ◌++◌, ltb, ◌==◌, if◌then◌else◌,
}
use skimasque.Prelude.{Bool, Option, none, some, Result, ok, err, not}
use skimasque.Prelude.Bytes.{BytesCrate}
use skimasque.Varint

-- `MAX_QUARTER_STREAM_ID`
abbrev pub max_quarter_stream_id : ℕ
max_quarter_stream_id = 2 ^ 60 - 1

pub data Field : Type 0 where
  quarter_stream_id context_id : Field

pub data Error : Type 0 where
  not_a_request_stream : ℕ → Error
  quarter_stream_id_too_large : ℕ → Error
  truncated : Field → Error
  context_id_too_large : ℕ → Error

-- `QuarterStreamId`: the constructors below are its only source.
pub record QuarterStreamId : Type 0 where
  pub get : ℕ

pub from_stream_id : ℕ → Result Error QuarterStreamId
from_stream_id id =
    if not (id % 4 == 0) then err (not_a_request_stream id) else ok (record { get = id / 4 })

unfoldable pub from_quarter : ℕ → Result Error QuarterStreamId
from_quarter quarter =
    if ltb max_quarter_stream_id quarter
    then err (quarter_stream_id_too_large quarter)
    else ok (record { get = quarter })

abbrev pub stream_id : QuarterStreamId → ℕ
stream_id q = q.get * 4

-- `expect` on a varint that is written into an empty buffer: `none` is a panic.
expect : Result Varint.Error (List ℕ) → Option (List ℕ)
expect (ok out) = some out
expect (err _) = none

module _ ⦃b : BytesCrate⦄ where
  -- A varint and the bytes behind it.
  put_prefixed : ℕ → List ℕ → List ℕ → Option (List ℕ)
  unfolding expect
  put_prefixed id payload out = elim (expect (Varint.encode id out)) [
    | none ↦ none
    | some out' ↦ some (b.put_slice out' payload)
  ]

  unfoldable pub encode_http3_datagram : QuarterStreamId → List ℕ → Option (List ℕ)
  unfolding put_prefixed
  encode_http3_datagram stream payload = put_prefixed stream.get payload []

-- `decode_http3_datagram` once the varint is taken, with the buffer behind it.
with_quarter : Result Varint.Error ℕ × List ℕ → Result Error (QuarterStreamId × List ℕ)
with_quarter (err _, rest) = err (truncated quarter_stream_id)
with_quarter (ok quarter, rest) = elim (from_quarter quarter) [
  | err e ↦ err e
  | ok q ↦ ok (q, rest)
]

module _ ⦃b : BytesCrate⦄ where
  pub decode_http3_datagram : List ℕ → Result Error (QuarterStreamId × List ℕ)
  unfolding with_quarter
  decode_http3_datagram buf = with_quarter (Varint.take_bytes buf)

pub record ContextId : Type 0 where
  pub get : ℕ

-- `ContextId::DEFAULT`
abbrev pub default : ContextId
default = record { get = 0 }

unfoldable pub new : ℕ → Result Error ContextId
new value =
    if ltb Varint.max value then err (context_id_too_large value) else ok (record { get = value })

unfoldable pub is_default : ContextId → Bool
is_default id = id.get == 0

pub data Allocator : Type 0 where
  client proxy : Allocator

unfoldable pub allocator : ContextId → Option Allocator
allocator id = if id.get == 0 then none else if id.get % 2 == 0 then some client else some proxy

pub record ContextAllocator : Type 0 where
  pub next : ℕ

pub new_allocator : Allocator → ContextAllocator
new_allocator client = record { next = 2 }
new_allocator proxy = record { next = 1 }

-- `u64::saturating_add`
unfoldable pub saturating_add : ℕ → ℕ → ℕ
saturating_add a k = if ltb (a + k) (2 ^ 64) then a + k else 2 ^ 64 - 1

pub allocate : ContextAllocator → Option ContextId × ContextAllocator
unfolding saturating_add
allocate a =
    if ltb Varint.max a.next
    then (none, a)
    else (some (record { get = a.next }), record a { next = saturating_add a.next 2 })

pub record ProxyingPayload : Type 0 where
  pub context : ContextId
  pub payload : List ℕ

unfoldable pub default_context : List ℕ → ProxyingPayload
default_context payload = record { context = default; payload = payload }

module _ ⦃b : BytesCrate⦄ where
  pub encode_into : ProxyingPayload → List ℕ → Option (List ℕ)
  unfolding put_prefixed
  encode_into p out = put_prefixed p.context.get p.payload out

  pub encode : ProxyingPayload → Option (List ℕ)
  unfolding encode_into
  encode p = encode_into p []

with_context : Result Varint.Error ℕ × List ℕ → Result Error ProxyingPayload
with_context (err _, rest) = err (truncated context_id)
with_context (ok context, rest) = elim (new context) [
  | err e ↦ err e
  | ok id ↦ ok (record { context = id; payload = rest })
]

module _ ⦃b : BytesCrate⦄ where
  pub decode : List ℕ → Result Error ProxyingPayload
  unfolding with_context
  decode buf = with_context (Varint.take_bytes buf)
