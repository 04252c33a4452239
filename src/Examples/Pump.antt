-- ===== src/Examples/Pump.antt =====
-- Runs of the capsule decoder and of the pump on concrete bytes.
use skimasque.Prelude.{
  ℕ, ◌+◌, ◌<◌, List, [], ◌∷◌, ◌++◌, Bool, true, false, none, some, ok, err, length, All,
}
use skimasque.Prelude.{◌≡◌, ◌≢◌, refl, arith}
use skimasque.Prelude.Bytes.{list_bytes}
use skimasque.Varint
use skimasque.Varint.{decode_slice}
use skimasque.Varint.Encode
use skimasque.Capsule
use skimasque.Capsule.{Capsule, CapsuleDecoder, next_capsule, value_too_large, write_header}
use skimasque.Capsule.Encode.{IsEncodable, wire, header}
use skimasque.Capsule.Stream.{next_capsule-push, next_capsule-push_err, next_capsule_waits}
use skimasque.Capsule.RoundTrip.{next_capsule-wire}
use skimasque.CapsulePump.{
  CapsulePump, continue, break, stuck, with_control, push, pump_loop, route,
}
use skimasque.CapsulePump.Delivery.{wires, delivered, IsAccepted, push-wires}
use skimasque.CapsulePump.Chunks.{push-append_continue, push-append_break, push-ne-stuck}
use skimasque.CapsulePump.Chunked.{joined, push_chunks, push_chunks-wires}

abbrev one_two : Capsule
one_two = record { kind = 0; value = 1 ∷ 2 ∷ [] }

one_two-IsEncodable : IsEncodable one_two
one_two-IsEncodable = record { kind_fits = omega arith; value_fits = omega arith }

abbrev decoder : List ℕ → CapsuleDecoder
decoder bytes = record { buf = bytes; max_value_len = 16 }

next_capsule-wire_example :
    next_capsule (decoder (wire one_two ++ 9 ∷ [])) ≡ (ok (some one_two), decoder (9 ∷ []))
next_capsule-wire_example = next_capsule-wire one_two (9 ∷ []) 16 one_two-IsEncodable (omega arith)

abbrev nine : List ℕ
nine = 9 ∷ []

abbrev header_only : List ℕ
header_only = 0 ∷ 2 ∷ []

abbrev bytes_one_two : List ℕ
bytes_one_two = 0 ∷ 2 ∷ 1 ∷ 2 ∷ 9 ∷ []

popped : next_capsule (decoder bytes_one_two) ≡ (ok (some one_two), decoder (9 ∷ []))
unfolding next_capsule decode_slice
popped = refl

next_capsule-push_example :
    next_capsule (Capsule.push (decoder bytes_one_two) (7 ∷ []))
    ≡ (ok (some one_two), Capsule.push (decoder (9 ∷ [])) (7 ∷ []))
next_capsule-push_example =
    next_capsule-push (decoder bytes_one_two) (decoder (9 ∷ [])) one_two (7 ∷ []) popped

refused :
    next_capsule (decoder (0 ∷ 63 ∷ [])) ≡ (err (value_too_large 0 63 16), decoder (0 ∷ 63 ∷ []))
unfolding next_capsule decode_slice
refused = refl

next_capsule-push_err_example :
    next_capsule (Capsule.push (decoder (0 ∷ 63 ∷ [])) (7 ∷ []))
    ≡ (err (value_too_large 0 63 16), Capsule.push (decoder (0 ∷ 63 ∷ [])) (7 ∷ []))
next_capsule-push_err_example =
    next_capsule-push_err (decoder (0 ∷ 63 ∷ [])) (decoder (0 ∷ 63 ∷ [])) (value_too_large 0 63 16)
      (7 ∷ []) refused

waiting : next_capsule (decoder (0 ∷ 2 ∷ [])) ≡ (ok none, decoder (0 ∷ 2 ∷ []))
unfolding next_capsule decode_slice
waiting = refl

next_capsule_waits_example :
    (decoder (0 ∷ 2 ∷ []) ≡ decoder (0 ∷ 2 ∷ [])) × (length header_only < 16 + 16)
next_capsule_waits_example =
    next_capsule_waits (decoder (0 ∷ 2 ∷ [])) (decoder (0 ∷ 2 ∷ []))
      (omega arith, (omega arith, tt)) waiting

abbrev always : ℕ → Bool
always n = true

abbrev never : ℕ → Bool
never n = false

abbrev route_bytes : Capsule
route_bytes = record { kind = 3; value = 7 ∷ [] }

route_bytes-IsEncodable : IsEncodable route_bytes
route_bytes-IsEncodable = record { kind_fits = omega arith; value_fits = omega arith }

abbrev sent : List Capsule
sent = one_two ∷ route_bytes ∷ []

sent-IsAccepted : All (IsAccepted with_control.decoder.max_value_len) sent
unfolding with_control Capsule.new
sent-IsAccepted = (
  record { encodable = one_two-IsEncodable; fits = omega arith },
  (record { encodable = route_bytes-IsEncodable; fits = omega arith }, tt),
)

empty_buffer : with_control.decoder.buf ≡ []
unfolding with_control Capsule.new
empty_buffer = refl

push-append_continue_example :
    push always always (delivered sent with_control) (9 ∷ [])
    ≡ push always always with_control (wires sent ++ 9 ∷ [])
push-append_continue_example =
    push-append_continue always always with_control (delivered sent with_control) (wires sent)
      (9 ∷ [])
      (push-wires always always (λ n. refl) (λ n. refl) sent with_control empty_buffer
        sent-IsAccepted)

abbrev closed : CapsulePump
closed = record { decoder = decoder []; datagrams = []; control = none }

broken :
    push never always closed bytes_one_two ≡ (break, record closed { decoder = decoder (9 ∷ []) })
unfolding push pump_loop route next_capsule decode_slice Capsule.push
broken = refl

push-append_break_example :
    push never always closed (bytes_one_two ++ 7 ∷ [])
    ≡ (break, record closed { decoder = Capsule.push (decoder (9 ∷ [])) (7 ∷ []) })
push-append_break_example =
    push-append_break never always closed (record closed { decoder = decoder (9 ∷ []) })
      bytes_one_two (7 ∷ []) broken

push-ne-stuck_example : (push never always closed bytes_one_two).0 ≢ stuck
push-ne-stuck_example = push-ne-stuck never always closed bytes_one_two

cut : joined (0 ∷ 2 ∷ 1 ∷ []) ((2 ∷ 3 ∷ 1 ∷ 7 ∷ []) ∷ []) ≡ wires sent
unfolding wire header Varint.Encode.wire
cut = refl

push_chunks-wires_example :
    push_chunks always always (0 ∷ 2 ∷ 1 ∷ []) ((2 ∷ 3 ∷ 1 ∷ 7 ∷ []) ∷ []) with_control
    ≡ (continue, delivered sent with_control)
push_chunks-wires_example =
    push_chunks-wires always always (λ n. refl) (λ n. refl) sent (0 ∷ 2 ∷ 1 ∷ [])
      ((2 ∷ 3 ∷ 1 ∷ 7 ∷ []) ∷ []) with_control empty_buffer sent-IsAccepted cut
