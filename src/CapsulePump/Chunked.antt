-- ===== src/CapsulePump/Chunked.antt =====
-- A stream of encoded capsules that arrives in chunks, however it was cut.
use skimasque.Prelude.{ℕ, List, [], ◌∷◌, ◌++◌, All, Bool, true, ◌≡◌, ◌∙◌, refl, ap}
use skimasque.Prelude.Bytes.{BytesCrate}
use skimasque.Capsule.{Capsule}
use skimasque.CapsulePump.{CapsulePump, ControlFlow, continue, break, stuck, proceed, push}
use skimasque.CapsulePump.Loop.{proceed_continue}
use skimasque.CapsulePump.Chunks.{push-append_continue, push-append_break, push-ne-stuck}
use skimasque.CapsulePump.Delivery.{wires, IsAccepted, delivered, push-wires}

-- All chunks as one.
abbrev pub joined : List ℕ → List (List ℕ) → List ℕ
joined chunk [] = chunk
joined chunk (next ∷ later) = chunk ++ joined next later

module _ ⦃b : BytesCrate⦄ (datagrams_open control_open : ℕ → Bool) where
  -- The read loop above the pump: one push for each chunk, until one breaks.
  pub push_chunks : List ℕ → List (List ℕ) → CapsulePump → ControlFlow × CapsulePump
  push_chunks chunk [] p = push datagrams_open control_open p chunk
  push_chunks chunk (next ∷ later) p =
      proceed (push_chunks next later) (push datagrams_open control_open p chunk)

  -- A chunk that the pump accepts whole is accepted in two halves.
  first_half :
      (p q : CapsulePump) (xs ys : List ℕ) (o : ControlFlow × CapsulePump)
      → push datagrams_open control_open p xs ≡ o
      → push datagrams_open control_open p (xs ++ ys) ≡ (continue, q)
      → (r : CapsulePump) × (o ≡ (continue, r))
        × (push datagrams_open control_open r ys ≡ (continue, q))
  first_half p q xs ys (continue, r) e whole =
      (r, refl, push-append_continue datagrams_open control_open p r xs ys e ∙ whole)
  first_half p q xs ys (break, r) e whole =
      absurd (cc (whole, push-append_break datagrams_open control_open p r xs ys e))
  first_half p q xs ys (stuck, r) e whole = absurd (
      push-ne-stuck datagrams_open control_open p xs
        (ap (λ (o : ControlFlow × CapsulePump). o.0) e))

  push_chunks-joined :
      (chunk : List ℕ) (later : List (List ℕ)) (p q : CapsulePump)
      → push datagrams_open control_open p (joined chunk later) ≡ (continue, q)
      → push_chunks chunk later p ≡ (continue, q)
  unfolding push_chunks
  push_chunks-joined chunk [] p q e = e
  push_chunks-joined chunk (next ∷ later) p q e =
      let (r, half, rest) = first_half p q chunk (joined next later) _ refl e in
      ap (proceed (push_chunks next later)) half
      ∙ proceed_continue (push_chunks next later) r
      ∙ push_chunks-joined next later r q rest

  -- Encoded capsules are delivered however the stream is cut into chunks. With both queues open, a
  -- decoder with an empty buffer, and capsules whose types and lengths are varints and whose
  -- values are within the decoder's limit: when the chunks joined are the encodings of the
  -- capsules, the pump goes on after the last chunk with an empty buffer, and has sent the values
  -- of the DATAGRAM capsules to one queue and the other capsules to the control queue, if there is
  -- one, each in order.
  pub push_chunks-wires :
      ((n : ℕ) → datagrams_open n ≡ true)
      → ((n : ℕ) → control_open n ≡ true)
      → (cs : List Capsule) (chunk : List ℕ) (later : List (List ℕ)) (p : CapsulePump)
      → p.decoder.buf ≡ []
      → All (IsAccepted p.decoder.max_value_len) cs
      → joined chunk later ≡ wires cs
      → push_chunks chunk later p ≡ (continue, delivered cs p)
  push_chunks-wires d_open c_open cs chunk later p empty h whole =
      push_chunks-joined chunk later p (delivered cs p) (
        ap (push datagrams_open control_open p) whole
        ∙ push-wires datagrams_open control_open d_open c_open cs p empty h)
