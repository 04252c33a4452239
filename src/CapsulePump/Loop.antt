-- ===== src/CapsulePump/Loop.antt =====
-- One round of the pump's loop, and the fuel that is enough for it.
use skimasque.Prelude.{ℕ, zero, suc, ◌+◌, ◌≤◌, ◌<◌, length, Bool}
use skimasque.Prelude.{Option, none, some, Result, ok, err, ◌≡◌, ◌≢◌, ◌∙◌, refl, sym, arith}
use skimasque.Prelude.Bytes.{BytesCrate}
use skimasque.Capsule
use skimasque.Capsule.{Capsule, CapsuleDecoder}
use skimasque.Capsule.Stream.{next_capsule_pops}
use skimasque.CapsulePump.{
  CapsulePump, ControlFlow, continue, break, stuck, proceed, route, pump_loop,
}

-- What the decoder's call gave, as one of three.
pub data Call : Result Capsule.Error (Option Capsule) × CapsuleDecoder → Type 0 where
  popped : (c : Capsule) (d : CapsuleDecoder) → Call (ok (some c), d)
  waiting : (d : CapsuleDecoder) → Call (ok none, d)
  failed : (x : Capsule.Error) (d : CapsuleDecoder) → Call (err x, d)

pub Call-cases : (r : Result Capsule.Error (Option Capsule) × CapsuleDecoder) → Call r
Call-cases (ok (some c), d) = popped c d
Call-cases (ok none, d) = waiting d
Call-cases (err x, d) = failed x d

pub proceed_continue :
    (again : CapsulePump → ControlFlow × CapsulePump) (p : CapsulePump)
    → proceed again (continue, p) ≡ again p
unfolding proceed
proceed_continue again p = refl

module _ ⦃b : BytesCrate⦄ (datagrams_open control_open : ℕ → Bool) where
  unfoldable pub loop : ℕ → CapsulePump → ControlFlow × CapsulePump
  loop = pump_loop datagrams_open control_open

  unfoldable pub route_to : Capsule → CapsulePump → ControlFlow × CapsulePump
  route_to = route datagrams_open control_open

  -- Routing reads and writes the queues alone.
  pub route-decoder :
      (c : Capsule) (p : CapsulePump) (d : CapsuleDecoder)
      → route_to c (record p { decoder = d })
        ≡ ((route_to c p).0, record (route_to c p).1 { decoder = d })
  unfolding route route_to
  route-decoder c p d = ground arith

  pub route_keeps : (c : Capsule) (p : CapsulePump) → (route_to c p).1.decoder ≡ p.decoder
  unfolding route route_to
  route_keeps c p = ground arith

  pub route-ne-stuck : (c : Capsule) (p : CapsulePump) → (route_to c p).0 ≢ stuck
  unfolding route route_to
  route-ne-stuck c p = ground arith

  -- One round of the loop, by what the decoder returned.
  pub loop_popped :
      (fuel : ℕ) (p : CapsulePump) (c : Capsule) (d : CapsuleDecoder)
      → Capsule.next_capsule p.decoder ≡ (ok (some c), d)
      → loop (suc fuel) p ≡ proceed (loop fuel) (route_to c (record p { decoder = d }))
  unfolding loop route_to pump_loop
  loop_popped fuel p c d e = rw e

  pub loop_waiting :
      (fuel : ℕ) (p : CapsulePump) (d : CapsuleDecoder)
      → Capsule.next_capsule p.decoder ≡ (ok none, d)
      → loop (suc fuel) p ≡ (continue, record p { decoder = d })
  unfolding loop pump_loop
  loop_waiting fuel p d e = rw e

  pub loop_failed :
      (fuel : ℕ) (p : CapsulePump) (x : Capsule.Error) (d : CapsuleDecoder)
      → Capsule.next_capsule p.decoder ≡ (err x, d)
      → loop (suc fuel) p ≡ (break, record p { decoder = d })
  unfolding loop pump_loop
  loop_failed fuel p x d e = rw e

  pub proceed_same :
      (f g : CapsulePump → ControlFlow × CapsulePump) (o : ControlFlow × CapsulePump)
      → f o.1 ≡ g o.1
      → proceed f o ≡ proceed g o
  unfolding proceed
  proceed_same f g (continue, p) h = h
  proceed_same f g (break, p) h = refl
  proceed_same f g (stuck, p) h = refl

  -- The buffer after a pop and the routing of what was popped.
  pub left_over :
      (c : Capsule) (p : CapsulePump) (d : CapsuleDecoder)
      → Capsule.next_capsule p.decoder ≡ (ok (some c), d)
      → length (route_to c (record p { decoder = d })).1.decoder.buf + 2 ≤ length p.decoder.buf
  left_over c p d e =
      let (shorter, _, _) = next_capsule_pops p.decoder d c e in
      rw (route_keeps c (record p { decoder = d })) shorter

  -- Fuel above the length of the buffer is as good as any other.
  pub loop_enough :
      (f g : ℕ) (p : CapsulePump)
      → length p.decoder.buf < f
      → length p.decoder.buf < g
      → loop f p ≡ loop g p
  loop_enough zero g p hf hg = absurd (omega arith)
  loop_enough (suc f) zero p hf hg = absurd (omega arith)
  loop_enough (suc f) (suc g) p hf hg =
      by_call _ refl (Call-cases (Capsule.next_capsule p.decoder)) (loop_enough f g)
    where
      by_call :
          (r : Result Capsule.Error (Option Capsule) × CapsuleDecoder)
          → Capsule.next_capsule p.decoder ≡ r
          → Call r
          → ((q : CapsulePump)
              → length q.decoder.buf < f
              → length q.decoder.buf < g
              → loop f q ≡ loop g q)
          → loop (suc f) p ≡ loop (suc g) p
      by_call _ e (waiting d) ih = loop_waiting f p d e ∙ sym (loop_waiting g p d e)
      by_call _ e (failed x d) ih = loop_failed f p x d e ∙ sym (loop_failed g p x d e)
      by_call _ e (popped c d) ih =
          let o = route_to c (record p { decoder = d }) in
          loop_popped f p c d e
          ∙ proceed_same (loop f) (loop g) o
              (ih o.1 (omega (arith, left_over c p d e)) (omega (arith, left_over c p d e)))
          ∙ sym (loop_popped g p c d e)

  -- With that fuel the loop ends.
  pub loop-ne-stuck : (f : ℕ) (p : CapsulePump) → length p.decoder.buf < f → (loop f p).0 ≢ stuck
  loop-ne-stuck zero p hf = absurd (omega arith)
  loop-ne-stuck (suc f) p hf =
      by_call _ refl (Call-cases (Capsule.next_capsule p.decoder)) (loop-ne-stuck f)
    where
      onward :
          (o : ControlFlow × CapsulePump)
          → o.0 ≢ stuck
          → (loop f o.1).0 ≢ stuck
          → (proceed (loop f) o).0 ≢ stuck
      onward (continue, q) h k = unfold proceed in k
      onward (break, q) h k = unfold proceed in h
      onward (stuck, q) h k = unfold proceed in h

      by_call :
          (r : Result Capsule.Error (Option Capsule) × CapsuleDecoder)
          → Capsule.next_capsule p.decoder ≡ r
          → Call r
          → ((q : CapsulePump) → length q.decoder.buf < f → (loop f q).0 ≢ stuck)
          → (loop (suc f) p).0 ≢ stuck
      by_call _ e (waiting d) ih = rw (loop_waiting f p d e) (λ h. cc)
      by_call _ e (failed x d) ih = rw (loop_failed f p x d e) (λ h. cc)
      by_call _ e (popped c d) ih =
          let o = route_to c (record p { decoder = d }) in
          rw (loop_popped f p c d e) (
            onward o (route-ne-stuck c (record p { decoder = d }))
              (ih o.1 (omega (arith, left_over c p d e))))
