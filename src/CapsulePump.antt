-- ===== src/CapsulePump.antt =====
-- crates/skimasque/src/capsules.rs: the pump that decodes stream bytes and routes the capsules.
-- The two queues are tokio channels. What the pump sees of them is whether a `send` fails, which
-- it does when the receiver is gone: `datagrams_open n` and `control_open n` say whether the
-- receiver is there at the send after `n` values.
pub mod Loop
pub mod Chunks
pub mod Delivery
pub mod Chunked
use skimasque.Prelude.{
  ℕ, zero, suc, ◌+◌, List, [], ◌∷◌, ◌++◌, length, ◌==◌, if◌then◌else◌, Bool, true, false,
}
use skimasque.Prelude.{Option, none, some, Result, ok, err}
use skimasque.Prelude.Bytes.{BytesCrate}
use skimasque.Capsule
use skimasque.Capsule.{Capsule, CapsuleDecoder}
use skimasque.Capsule.CapsuleType

-- `datagrams` and `control` are what was sent so far; without a control sink `control` is `none`.
pub record CapsulePump : Type 0 where
  pub decoder : CapsuleDecoder
  pub datagrams : List (List ℕ)
  pub control : Option (List Capsule)

pub new : CapsulePump
new = record { decoder = Capsule.new; datagrams = []; control = none }

unfoldable pub with_control : CapsulePump
with_control = record { decoder = Capsule.new; datagrams = []; control = some [] }

-- `stuck` is no value of the source: the loop ran out of fuel.
pub data ControlFlow : Type 0 where
  continue break stuck : ControlFlow

-- `again` is the next round of the loop.
pub proceed :
    (CapsulePump → ControlFlow × CapsulePump)
    → ControlFlow × CapsulePump
    → ControlFlow × CapsulePump
proceed again (continue, p) = again p
proceed again (break, p) = (break, p)
proceed again (stuck, p) = (stuck, p)

module _ ⦃b : BytesCrate⦄ (datagrams_open control_open : ℕ → Bool) where
  -- Without a control sink every other capsule type is dropped.
  pub send_control : Capsule → CapsulePump → Option (List Capsule) → ControlFlow × CapsulePump
  send_control c p none = (continue, p)
  send_control c p (some sent) =
      if control_open (length sent)
      then (continue, record p { control = some (sent ++ c ∷ []) })
      else (break, p)

  -- The arm of the `match` for a decoded capsule.
  unfoldable pub route : Capsule → CapsulePump → ControlFlow × CapsulePump
  unfolding send_control
  route c p =
      if c.kind == CapsuleType.datagram
      then (if datagrams_open (length p.datagrams)
          then (continue, record p { datagrams = p.datagrams ++ c.value ∷ [] })
          else (break, p))
      else send_control c p p.control

  -- The `match` on what the decoder returned.
  dispatch :
      (CapsulePump → ControlFlow × CapsulePump)
      → CapsulePump
      → Result Capsule.Error (Option Capsule) × CapsuleDecoder
      → ControlFlow × CapsulePump
  unfolding proceed
  dispatch again p (ok none, d) = (continue, record p { decoder = d })
  dispatch again p (ok (some c), d) = proceed again (route c (record p { decoder = d }))
  dispatch again p (err _, d) = (break, record p { decoder = d })

  unfoldable pub pump_loop : ℕ → CapsulePump → ControlFlow × CapsulePump
  unfolding dispatch
  pump_loop zero p = (stuck, p)
  pump_loop (suc fuel) p = dispatch (pump_loop fuel) p (Capsule.next_capsule p.decoder)

  -- Every round but the last takes bytes off the buffer, so its length bounds the rounds.
  unfoldable pub push : CapsulePump → List ℕ → ControlFlow × CapsulePump
  push p chunk =
      let d : CapsuleDecoder = Capsule.push p.decoder chunk in
      pump_loop (suc (length d.buf)) (record p { decoder = d })

-- `finish` only warns: whether it does.
abbrev pub finish_warns : CapsulePump → Bool
finish_warns p = elim (Capsule.finish p.decoder) [ ok _ ↦ false | err _ ↦ true ]
