-- ===== src/CapsulePump/Delivery.antt =====
-- What the pump delivers of a stream of encoded capsules.
use skimasque.Prelude.{
  ℕ, zero, suc, ◌+◌, ◌≤◌, ◌<◌, List, [], ◌∷◌, ◌++◌, length, All, Bool, true, ◌==◌, if◌then◌else◌,
}
use skimasque.Prelude.{Option, none, some, ◌≡◌, ◌∙◌, refl, sym, ap, arith, append_assoc, append-nil}
use skimasque.Prelude.Bytes.{BytesCrate}
use skimasque.Capsule.{Capsule, CapsuleDecoder}
use skimasque.Capsule.CapsuleType
use skimasque.Capsule.Encode.{IsEncodable, wire}
use skimasque.Capsule.Decode.{next_capsule_empty}
use skimasque.Capsule.Stream.{next_capsule_pops, push-eq}
use skimasque.Capsule.RoundTrip.{next_capsule-wire}
use skimasque.CapsulePump.{CapsulePump, continue, send_control, route, proceed, push}
use skimasque.CapsulePump.Loop.{loop, route_to, loop_popped, loop_waiting, proceed_continue}
use skimasque.CapsulePump.Chunks.{feed, push_run}

-- The bytes of the capsules, one after the other.
abbrev pub wires : List Capsule → List ℕ
wires [] = []
wires (c ∷ cs) = wire c ++ wires cs

-- The values of the DATAGRAM capsules, in order, and the other capsules.
abbrev pub payloads : List Capsule → List (List ℕ)
payloads [] = []
payloads (c ∷ cs) = if c.kind == CapsuleType.datagram then c.value ∷ payloads cs else payloads cs

abbrev pub others : List Capsule → List Capsule
others [] = []
others (c ∷ cs) = if c.kind == CapsuleType.datagram then others cs else c ∷ others cs

-- A capsule that the peer can encode and the decoder accepts.
pub record IsAccepted (limit : ℕ) (c : Capsule) : Type 0 where
  pub encodable : IsEncodable c
  pub fits : length c.value ≤ limit

abbrev pub with_control : List Capsule → Option (List Capsule) → Option (List Capsule)
with_control cs none = none
with_control cs (some sent) = some (sent ++ cs)

-- The pump after it was sent the capsules.
abbrev pub delivered : List Capsule → CapsulePump → CapsulePump
delivered cs p = record p {
  datagrams = p.datagrams ++ payloads cs;
  control = with_control (others cs) p.control;
}

with_control_nil : (o : Option (List Capsule)) → with_control [] o ≡ o
with_control_nil none = refl
with_control_nil (some sent) = ap some (append-nil sent)

with_control-append :
    (xs ys : List Capsule) (o : Option (List Capsule))
    → with_control ys (with_control xs o) ≡ with_control (xs ++ ys) o
with_control-append xs ys none = refl
with_control-append xs ys (some sent) = ap some (append_assoc sent xs ys)

delivered_nil : (p : CapsulePump) → delivered [] p ≡ p
delivered_nil p = ground (arith, append-nil p.datagrams, with_control_nil p.control)

-- Delivering one capsule and then others is delivering them all.
delivered-cons :
    (c : Capsule) (cs : List Capsule) (p : CapsulePump)
    → delivered cs (delivered (c ∷ []) p) ≡ delivered (c ∷ cs) p
delivered-cons c cs p = ground (
  arith,
  append_assoc p.datagrams (c.value ∷ []) (payloads cs),
  append-nil p.datagrams,
  with_control_nil p.control,
  with_control-append (c ∷ []) (others cs) p.control,
)

module _ ⦃b : BytesCrate⦄ (datagrams_open control_open : ℕ → Bool)
    (d_open : (n : ℕ) → datagrams_open n ≡ true) (c_open : (n : ℕ) → control_open n ≡ true) where
  send_open :
      (c : Capsule) (p : CapsulePump) (o : Option (List Capsule))
      → p.control ≡ o
      → send_control datagrams_open control_open c p o
        ≡ (continue, record p { control = with_control (c ∷ []) o })
  unfolding send_control
  send_open c p none e = ground arith
  send_open c p (some sent) e = ground (arith, c_open (length sent))

  route_open :
      (c : Capsule) (p : CapsulePump)
      → route_to datagrams_open control_open c p ≡ (continue, delivered (c ∷ []) p)
  unfolding route_to route
  route_open c p = ground (
    arith,
    d_open (length p.datagrams),
    with_control_nil p.control,
    append-nil p.datagrams,
    send_open c p p.control refl,
  )

  -- The pump with the given buffer.
  abbrev holding : CapsulePump → ℕ → List ℕ → CapsulePump
  holding p limit buf = record p { decoder = record { buf = buf; max_value_len = limit } }

  loop_delivers :
      (cs : List Capsule) (p : CapsulePump) (limit n : ℕ)
      → All (IsAccepted limit) cs
      → length (wires cs) < n
      → loop datagrams_open control_open n (holding p limit (wires cs))
        ≡ (continue, delivered cs (holding p limit []))
  loop_delivers cs p limit zero h hn = absurd (omega arith)
  loop_delivers [] p limit (suc n) h hn =
      loop_waiting datagrams_open control_open n (holding p limit []) _ (next_capsule_empty limit)
      ∙ ap (λ (q : CapsulePump). (continue, q)) (sym (delivered_nil (holding p limit [])))
  loop_delivers (c ∷ cs) p limit (suc n) (hc, h) hn =
      let rest : CapsuleDecoder = record { buf = wires cs; max_value_len = limit } in
      let popped = next_capsule-wire c (wires cs) limit hc.encodable hc.fits in
      let (shorter, _, _) = next_capsule_pops _ rest c popped in
      loop_popped datagrams_open control_open n (holding p limit (wire c ++ wires cs)) c rest popped
      ∙ ap (proceed (loop datagrams_open control_open n))
          (route_open c (holding p limit (wires cs)))
      ∙ proceed_continue (loop datagrams_open control_open n)
          (delivered (c ∷ []) (holding p limit (wires cs)))
      ∙ loop_delivers cs (delivered (c ∷ []) p) limit n h (omega arith)
      ∙ ap (λ (q : CapsulePump). (continue, q)) (delivered-cons c cs (holding p limit []))

  -- A chunk that is the encodings of acceptable capsules: the pump goes on with an empty buffer,
  -- has sent the values of the DATAGRAM capsules to one queue, in order, and the other capsules
  -- to the control queue, or nowhere when there is none.
  pub push-wires :
      (cs : List Capsule) (p : CapsulePump)
      → p.decoder.buf ≡ []
      → All (IsAccepted p.decoder.max_value_len) cs
      → push datagrams_open control_open p (wires cs) ≡ (continue, delivered cs p)
  unfolding feed
  push-wires cs p empty h =
      let limit : ℕ = p.decoder.max_value_len in
      let n : ℕ = suc (length p.decoder.buf + length (wires cs)) in
      let fed : feed p (wires cs) ≡ holding p limit (wires cs) =
        ap (λ (d : CapsuleDecoder). (let q : CapsulePump = record p { decoder = d } in q))
          (push-eq p.decoder (wires cs)
            ∙ ap
                (λ (t : List ℕ).
                  (let d : CapsuleDecoder = record p.decoder { buf = t ++ wires cs } in d))
                empty) in
      let same : holding p limit [] ≡ p = ap (λ (t : List ℕ). holding p limit t) (sym empty) in
      push_run datagrams_open control_open p (wires cs) n (omega arith)
      ∙ ap (loop datagrams_open control_open n) fed
      ∙ loop_delivers cs p limit n h (omega arith)
      ∙ ap (λ (q : CapsulePump). (continue, delivered cs q)) same
