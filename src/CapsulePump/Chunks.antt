-- ===== src/CapsulePump/Chunks.antt =====
-- Where the stream is cut into chunks does not matter to the pump.
use skimasque.Prelude.{ℕ, zero, suc, ◌+◌, ◌-◌, ◌<◌, List, ◌++◌, length, Bool}
use skimasque.Prelude.{
  Option, none, some, Result, ok, err, ◌≡◌, ◌≢◌, ◌∙◌, refl, sym, ap, arith, length-append,
  append_assoc,
}
use mathlib.Core.Path.{subst}
use skimasque.Prelude.Bytes.{BytesCrate}
use skimasque.Capsule
use skimasque.Capsule.{Capsule, CapsuleDecoder}
use skimasque.Capsule.Stream.{next_capsule-push, next_capsule-push_err, next_capsule_stays, push-eq}
use skimasque.CapsulePump.{
  CapsulePump, ControlFlow, continue, break, stuck, proceed, pump_loop, push,
}
use skimasque.CapsulePump.Loop.{
  Call, popped, waiting, failed, Call-cases, loop, route_to, route-decoder, loop_popped,
  loop_waiting, loop_failed, left_over, loop_enough, loop-ne-stuck,
}

module _ ⦃b : BytesCrate⦄ where
  -- The pump with `more` put into its buffer.
  unfoldable pub feed : CapsulePump → List ℕ → CapsulePump
  feed p more = record p { decoder = Capsule.push p.decoder more }

module _ ⦃b : BytesCrate⦄ (datagrams_open control_open : ℕ → Bool) where
  abbrev run : ℕ → CapsulePump → ControlFlow × CapsulePump
  run = loop datagrams_open control_open

  -- What a run on `p` says of the run with more input.
  abbrev Continues : CapsulePump → List ℕ → ControlFlow × CapsulePump → Type 0
  Continues p more (continue, q) =
      (g g' : ℕ)
      → length p.decoder.buf + length more < g
      → length q.decoder.buf + length more < g'
      → run g (feed p more) ≡ run g' (feed q more)
  Continues p more (break, q) =
      (g : ℕ) → length p.decoder.buf + length more < g → run g (feed p more) ≡ (break, feed q more)
  Continues p more (stuck, q) = Unit

  length-feed :
      (p : CapsulePump) (more : List ℕ)
      → length (feed p more).decoder.buf ≡ length p.decoder.buf + length more
  unfolding feed
  length-feed p more = rw push-eq (length-append p.decoder.buf more)

  -- Routing does not see what was fed.
  route-feed :
      (c : Capsule) (p q : CapsulePump) (d : CapsuleDecoder) (more : List ℕ) {flow : ControlFlow}
      → route_to datagrams_open control_open c (record p { decoder = d }) ≡ (flow, q)
      → route_to datagrams_open control_open c (record p { decoder = Capsule.push d more })
        ≡ (flow, feed q more)
  unfolding feed
  route-feed c p q d more e =
      route-decoder datagrams_open control_open c p (Capsule.push d more)
      ∙ ap
          (λ (o : ControlFlow × CapsulePump).
            (let r : ControlFlow × CapsulePump = (o.0, feed o.1 more) in r))
          (sym (route-decoder datagrams_open control_open c p d) ∙ e)

  -- A pop on `p` is a pop on the fed pump.
  popped_fed :
      (fuel : ℕ) (p q : CapsulePump) (c : Capsule) (d : CapsuleDecoder) (more : List ℕ)
      {flow : ControlFlow}
      → Capsule.next_capsule p.decoder ≡ (ok (some c), d)
      → route_to datagrams_open control_open c (record p { decoder = d }) ≡ (flow, q)
      → run (suc fuel) (feed p more) ≡ proceed (run fuel) (flow, feed q more)
  unfolding feed
  popped_fed fuel p q c d more e r =
      loop_popped datagrams_open control_open fuel (feed p more) c (Capsule.push d more)
        (next_capsule-push p.decoder d c more e)
      ∙ ap (proceed (run fuel)) (route-feed c p q d more r)

  -- From the pump after a round to the pump before it.
  before_round :
      (p q : CapsulePump) (more : List ℕ) (o : ControlFlow × CapsulePump)
      → ((g : ℕ) → run (suc g) (feed p more) ≡ run g (feed q more))
      → length q.decoder.buf < length p.decoder.buf
      → Continues q more o
      → Continues p more o
  before_round p q more (continue, s) step shorter h = λ g g' hg hg'.
      let one_more : g ≡ suc (g - 1) = omega arith in
      rw one_more (step (g - 1) ∙ h (g - 1) g' (omega arith) hg')
  before_round p q more (break, s) step shorter h = λ g hg.
      let one_more : g ≡ suc (g - 1) = omega arith in
      rw one_more (step (g - 1) ∙ h (g - 1) (omega arith))
  before_round p q more (stuck, s) step shorter h = tt

  module _ (p : CapsulePump) (more : List ℕ) (f : ℕ) where
    after_wait :
        (d : CapsuleDecoder)
        → Capsule.next_capsule p.decoder ≡ (ok none, d)
        → Continues p more (continue, record p { decoder = d })
    after_wait d e = λ g g' hg hg'.
        let same : d ≡ p.decoder = next_capsule_stays p.decoder d e in
        rw same (
          loop_enough datagrams_open control_open g g' (feed p more)
            (omega (arith, length-feed p more))
            (omega (arith, length-feed p more, ap (λ (t : CapsuleDecoder). length t.buf) same)))

    after_error :
        (x : Capsule.Error) (d : CapsuleDecoder)
        → Capsule.next_capsule p.decoder ≡ (err x, d)
        → Continues p more (break, record p { decoder = d })
    unfolding feed
    after_error x d e = λ g hg.
        let one_more : g ≡ suc (g - 1) = omega arith in
        rw one_more (
          loop_failed datagrams_open control_open (g - 1) (feed p more) x (Capsule.push d more)
            (next_capsule-push_err p.decoder d x more e))

    after_pop :
        (c : Capsule) (d : CapsuleDecoder) (o : ControlFlow × CapsulePump)
        → Capsule.next_capsule p.decoder ≡ (ok (some c), d)
        → route_to datagrams_open control_open c (record p { decoder = d }) ≡ o
        → Continues o.1 more (run f o.1)
        → Continues p more (proceed (run f) o)
    after_pop c d (continue, q) e r h =
        let shorter = left_over datagrams_open control_open c p d e in
        let buffer = ap (λ (o : ControlFlow × CapsulePump). length o.1.decoder.buf) r in
        unfold proceed in
        before_round p q more (run f q) (λ g. popped_fed g p q c d more e r) (omega arith) h
    after_pop c d (break, q) e r h =
        unfold proceed in
        λ g hg.
          let one_more : g ≡ suc (g - 1) = omega arith in
          rw one_more (popped_fed (g - 1) p q c d more e r)
    after_pop c d (stuck, q) e r h = unfold proceed in tt

  continues : (f : ℕ) (p : CapsulePump) (more : List ℕ) → Continues p more (run f p)
  continues zero p more = unfold loop pump_loop in tt
  continues (suc f) p more =
      by_call _ refl (Call-cases (Capsule.next_capsule p.decoder)) (λ q. continues f q more)
    where
      by_call :
          (r : Result Capsule.Error (Option Capsule) × CapsuleDecoder)
          → Capsule.next_capsule p.decoder ≡ r
          → Call r
          → ((q : CapsulePump) → Continues q more (run f q))
          → Continues p more (run (suc f) p)
      by_call _ e (waiting d) ih =
          subst (Continues p more) (sym (loop_waiting datagrams_open control_open f p d e))
            (after_wait p more f d e)
      by_call _ e (failed x d) ih =
          subst (Continues p more) (sym (loop_failed datagrams_open control_open f p x d e))
            (after_error p more f x d e)
      by_call _ e (popped c d) ih =
          let o = route_to datagrams_open control_open c (record p { decoder = d }) in
          subst (Continues p more) (sym (loop_popped datagrams_open control_open f p c d e))
            (after_pop p more f c d o e refl (ih o.1))

  pub push_run :
      (p : CapsulePump) (chunk : List ℕ) (n : ℕ)
      → length p.decoder.buf + length chunk < n
      → push datagrams_open control_open p chunk ≡ loop datagrams_open control_open n (feed p chunk)
  unfolding push feed loop
  push_run p chunk n h =
      loop_enough datagrams_open control_open _ n (feed p chunk) (omega arith)
        (omega (arith, length-feed p chunk))

  feed-append : (p : CapsulePump) (xs ys : List ℕ) → feed p (xs ++ ys) ≡ feed (feed p xs) ys
  unfolding feed
  feed-append p xs ys =
      rw (push-eq p.decoder (xs ++ ys), push-eq p.decoder xs, push-eq)
        (ap
          (λ (t : List ℕ).
            (let q : CapsulePump = record p { decoder = record p.decoder { buf = t } } in q))
          (sym (append_assoc p.decoder.buf xs ys)))

  -- The two halves of one push.
  module _ (p : CapsulePump) (xs ys : List ℕ) where
    size : ℕ
    size = length p.decoder.buf + length xs

    halves : Continues (feed p xs) ys (push datagrams_open control_open p xs)
    unfolding size
    halves =
        subst (Continues (feed p xs) ys) (sym (push_run p xs (suc size) (omega arith)))
          (continues (suc size) (feed p xs) ys)

  -- When the pump goes on after a chunk, pushing that chunk and then another has the result of
  -- pushing both as one chunk, whatever the queues do.
  pub push-append_continue :
      (p q : CapsulePump) (xs ys : List ℕ)
      → push datagrams_open control_open p xs ≡ (continue, q)
      → push datagrams_open control_open q ys ≡ push datagrams_open control_open p (xs ++ ys)
  push-append_continue p q xs ys e =
      let both : ℕ = suc (length p.decoder.buf + length (xs ++ ys)) in
      let second : ℕ = suc (length q.decoder.buf + length ys) in
      let h = subst (Continues (feed p xs) ys) e (halves p xs ys) in
      push_run q ys second (omega arith)
      ∙ sym (h both second (omega (arith, length-append xs ys, length-feed p xs)) (omega arith))
      ∙ ap (run both) (sym (feed-append p xs ys))
      ∙ sym (push_run p (xs ++ ys) both (omega arith))

  -- When the pump breaks on a chunk, it breaks as well on that chunk with more bytes behind it,
  -- having sent the same on both queues; the additional bytes are left in the decoder's buffer.
  pub push-append_break :
      (p q : CapsulePump) (xs ys : List ℕ)
      → push datagrams_open control_open p xs ≡ (break, q)
      → push datagrams_open control_open p (xs ++ ys)
        ≡ (break, record q { decoder = Capsule.push q.decoder ys })
  push-append_break p q xs ys e =
      let both : ℕ = suc (length p.decoder.buf + length (xs ++ ys)) in
      let h = subst (Continues (feed p xs) ys) e (halves p xs ys) in
      push_run p (xs ++ ys) both (omega arith)
      ∙ ap (run both) (feed-append p xs ys)
      ∙ h both (omega (arith, length-append xs ys, length-feed p xs))
      ∙ unfold feed in refl

  -- For every pump, every chunk and all behaviours of the queues, the fuel of `push`'s loop, one
  -- more than the length of the buffer, is enough: the loop returns what the source returns.
  pub push-ne-stuck :
      (p : CapsulePump) (chunk : List ℕ) → (push datagrams_open control_open p chunk).0 ≢ stuck
  push-ne-stuck p chunk =
      let n : ℕ = suc (length p.decoder.buf + length chunk) in
      rw (push_run p chunk n (omega arith)) (
        loop-ne-stuck datagrams_open control_open n (feed p chunk)
          (omega (arith, length-feed p chunk)))
