-- ===== src/Capsule/Stream.antt =====
-- The decoder on a stream: chunk boundaries do not matter, and the buffer stays bounded.
use skimasque.Prelude.{ℕ, ◌+◌, ◌-◌, ◌≤◌, ◌<◌, List, ◌++◌, length, take, drop, ◌≡◌, ◌∙◌, arith}
use skimasque.Prelude.{some, none, Option, Result, ok, err, length-append}
use skimasque.Prelude.{length-take, length-drop, drop-append, take-append}
use skimasque.Prelude.Bytes.{BytesCrate, AreBytes}
use skimasque.Capsule.{Error, Capsule, CapsuleDecoder, next_capsule, push}
use skimasque.Capsule.Header.{Header-bounds, Header-size, Header-append, read_header_waits}
use skimasque.Capsule.Decode.{
  Next, no_header, too_large, waits, cuts, next_capsule_cases, next_capsule_cuts,
  next_capsule_too_large,
}

module _ ⦃b : BytesCrate⦄ where
  pub push-eq :
      (d : CapsuleDecoder) (more : List ℕ) → push d more ≡ record d { buf = d.buf ++ more }
  unfolding push
  push-eq d more = rw b.put_slice-eq

-- A pop leaves the decoder two bytes shorter at least, with the value within the limit.
Next-pops :
    {d d' : CapsuleDecoder} {c : Capsule} {r : Result Error (Option Capsule) × CapsuleDecoder}
    → Next d r
    → r ≡ (ok (some c), d')
    → (length d'.buf + 2 ≤ length d.buf)
      × (length c.value ≤ d.max_value_len)
      × (d'.max_value_len ≡ d.max_value_len)
Next-pops (no_header _) e = absurd (cc e)
Next-pops (too_large _ _) e = absurd (cc e)
Next-pops (waits _ _ _) e = absurd (cc e)
Next-pops {d} {d'} {c} (cuts {value_len} {header_len} h fits enough) e =
    let (least, most) = Header-bounds h in
    let rest : d'.buf ≡ drop (header_len + value_len) d.buf = cc e in
    let value : c.value ≡ take value_len (drop header_len d.buf) = cc e in
    let limit : d'.max_value_len ≡ d.max_value_len = cc e in
    (
      rw (rest, length-drop) (omega arith),
      rw value (
          rw
            (length-take value_len (drop header_len d.buf)
              (omega (arith, length-drop header_len d.buf)))
            fits),
      limit,
    )

-- What keeps a decoder waiting is a header that has not come, or a value within the limit.
Next-waits :
    {d d' : CapsuleDecoder} {r : Result Error (Option Capsule) × CapsuleDecoder}
    → Next d r
    → AreBytes d.buf
    → r ≡ (ok none, d')
    → (d' ≡ d) × (length d.buf < 16 + d.max_value_len)
Next-waits (no_header missing) h e = (cc e, omega (arith, read_header_waits _ h missing))
Next-waits (too_large _ _) h e = absurd (cc e)
Next-waits (waits hd fits short) h e = let (size, _, _) = Header-size h hd in (cc e, omega arith)
Next-waits (cuts _ _ _) h e = absurd (cc e)

Next-stays :
    {d d' : CapsuleDecoder} {r : Result Error (Option Capsule) × CapsuleDecoder}
    → Next d r
    → r ≡ (ok none, d')
    → d' ≡ d
Next-stays (no_header _) e = cc e
Next-stays (too_large _ _) e = absurd (cc e)
Next-stays (waits _ _ _) e = cc e
Next-stays (cuts _ _ _) e = absurd (cc e)

module _ ⦃b : BytesCrate⦄ where
  Next-more :
      {d d' : CapsuleDecoder} {c : Capsule} {r : Result Error (Option Capsule) × CapsuleDecoder}
      (more : List ℕ)
      → Next d r
      → r ≡ (ok (some c), d')
      → next_capsule (push d more) ≡ (ok (some c), push d' more)
  Next-more more (no_header _) e = absurd (cc e)
  Next-more more (too_large _ _) e = absurd (cc e)
  Next-more more (waits _ _ _) e = absurd (cc e)
  Next-more {d} {d'} {c} more (cuts {kind} {value_len} {header_len} h fits enough) e =
      let behind : List ℕ = drop header_len d.buf in
      let left : length behind ≡ length d.buf - header_len = length-drop header_len d.buf in
      let value : take value_len (drop header_len (d.buf ++ more)) ≡ take value_len behind =
        rw (drop-append header_len d.buf more (omega arith))
          (take-append value_len behind more (omega arith)) in
      let rest : drop (header_len + value_len) (d.buf ++ more)
          ≡ drop (header_len + value_len) d.buf ++ more =
        drop-append (header_len + value_len) d.buf more enough in
      let popped =
        next_capsule_cuts (record d { buf = d.buf ++ more }) (Header-append more h) fits
          (omega (arith, length-append d.buf more)) in
      rw (push-eq d more, push-eq d' more) (popped ∙ ground (arith, e, value, rest))

  Next-more_err :
      {d d' : CapsuleDecoder} {x : Error} {r : Result Error (Option Capsule) × CapsuleDecoder}
      (more : List ℕ)
      → Next d r
      → r ≡ (err x, d')
      → next_capsule (push d more) ≡ (err x, push d' more)
  Next-more_err more (no_header _) e = absurd (cc e)
  Next-more_err {d} {d'} {x} more (too_large h over) e =
      rw (push-eq d more, push-eq d' more)
        (next_capsule_too_large (record d { buf = d.buf ++ more }) (Header-append more h) over
          ∙ cc e)
  Next-more_err more (waits _ _ _) e = absurd (cc e)
  Next-more_err more (cuts _ _ _) e = absurd (cc e)

  -- When `next_capsule` returns a capsule, it returns the same capsule after more bytes have been
  -- pushed, and leaves what it left before with those bytes behind it.
  pub next_capsule-push :
      (d d' : CapsuleDecoder) (c : Capsule) (more : List ℕ)
      → next_capsule d ≡ (ok (some c), d')
      → next_capsule (push d more) ≡ (ok (some c), push d' more)
  next_capsule-push d d' c more e = Next-more more (next_capsule_cases d) e

  -- When `next_capsule` returns an error, it returns the same error after more bytes have been
  -- pushed, and leaves all bytes in the buffer as it does without them.
  pub next_capsule-push_err :
      (d d' : CapsuleDecoder) (x : Error) (more : List ℕ)
      → next_capsule d ≡ (err x, d')
      → next_capsule (push d more) ≡ (err x, push d' more)
  next_capsule-push_err d d' x more e = Next-more_err more (next_capsule_cases d) e

  -- A call that pops nothing leaves the decoder as it was.
  pub next_capsule_stays : (d d' : CapsuleDecoder) → next_capsule d ≡ (ok none, d') → d' ≡ d
  next_capsule_stays d d' e = Next-stays (next_capsule_cases d) e

  -- When `next_capsule` returns a capsule, the buffer is at least two bytes shorter, the capsule's
  -- value is within the decoder's limit, and the limit stays.
  pub next_capsule_pops :
      (d d' : CapsuleDecoder) (c : Capsule)
      → next_capsule d ≡ (ok (some c), d')
      → (length d'.buf + 2 ≤ length d.buf)
        × (length c.value ≤ d.max_value_len)
        × (d'.max_value_len ≡ d.max_value_len)
  next_capsule_pops d d' c e = Next-pops (next_capsule_cases d) e

  -- When `next_capsule` asks for more input and the buffer holds bytes, the decoder is unchanged
  -- and buffers fewer than sixteen bytes more than the greatest value length that it accepts.
  pub next_capsule_waits :
      (d d' : CapsuleDecoder)
      → AreBytes d.buf
      → next_capsule d ≡ (ok none, d')
      → (d' ≡ d) × (length d.buf < 16 + d.max_value_len)
  next_capsule_waits d d' h e = Next-waits (next_capsule_cases d) h e
