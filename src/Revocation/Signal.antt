-- ===== src/Revocation/Signal.antt =====
-- crates/skimasque/src/revocation.rs: one poll of the future of `TunnelEnd::ended`.
use skimasque.Prelude.{ℕ, suc, Bool, true, false, Option, some, if◌then◌else◌, Bool-cases}
use skimasque.Prelude.{◌≡◌, refl, sym, ap, ◌∙◌, inl, inr}
use mathlib.Core.Path.{subst}
use skimasque.Prelude.Text.{Text}
use skimasque.Revocation.{
  has, Watch, Stage, checking, waiting, abandoned, Ending, at, poll_loop, poll_revoked,
}

module _ ⦃w : Watch⦄ where
  -- What a sleeping future may rely on: nothing to see means that it is not revoked.
  abbrev pub Waits : w.Sender → Text → w.Receiver → Stage → Type 0
  Waits tx sid rx checking = Unit
  Waits tx sid rx waiting = w.has_changed tx rx ≡ false → has (w.borrow tx) sid ≡ false
  Waits tx sid rx abandoned = (w.is_closed tx ≡ true) × (has (w.borrow tx) sid ≡ false)

  abbrev pub IsWaiting : w.Sender → Ending → Type 0
  IsWaiting tx f = Waits tx f.end.sid f.end.rx f.stage

  poll_loop-waiting :
      (n : ℕ) (tx : w.Sender) (f : Ending)
      → w.has_changed tx f.end.rx ≡ false
      → poll_loop (suc n) tx f waiting
        ≡ some (false, at f (if w.is_closed tx then abandoned else waiting) f.end.rx)
  unfolding poll_loop
  poll_loop-waiting n tx f h = rw (poll_loop, h) refl

  poll_loop-woken :
      (n : ℕ) (tx : w.Sender) (f : Ending)
      → w.has_changed tx f.end.rx ≡ true
      → poll_loop (suc n) tx f waiting
        ≡ poll_loop n tx (at f checking (w.mark_seen tx f.end.rx)) checking
  unfolding poll_loop
  poll_loop-woken n tx f h = rw (poll_loop, h) refl

  poll_loop-found :
      (n : ℕ) (tx : w.Sender) (f : Ending)
      → has (w.borrow tx) f.end.sid ≡ true
      → poll_loop (suc n) tx f checking ≡ some (true, at f waiting (w.mark_seen tx f.end.rx))
  unfolding poll_loop
  poll_loop-found n tx f h = rw (poll_loop, h) refl

  poll_loop-missed :
      (n : ℕ) (tx : w.Sender) (f : Ending)
      → has (w.borrow tx) f.end.sid ≡ false
      → poll_loop (suc n) tx f checking
        ≡ poll_loop n tx (at f waiting (w.mark_seen tx f.end.rx)) waiting
  unfolding poll_loop
  poll_loop-missed n tx f h = rw (poll_loop, h) refl

  falls_asleep :
      (tx : w.Sender) (sid : Text) (rx : w.Receiver)
      → has (w.borrow tx) sid ≡ false
      → Waits tx sid rx (if w.is_closed tx then abandoned else waiting)
  falls_asleep tx sid rx h = elim (Bool-cases (w.is_closed tx)) [
    | inl e ↦ rw e (e, h)
    | inr e ↦ rw e (λ _. h)
  ]

  -- A poll answers whether the session is revoked now, and keeps the tunnel's data.
  abbrev pub Answers : w.Sender → Ending → Option (Bool × Ending) → Type 0
  Answers tx f r =
      (g : Ending) × (r ≡ some (has (w.borrow tx) f.end.sid, g))
      × (g.end.sid ≡ f.end.sid)
      × (g.end.deadline ≡ f.end.deadline)
      × w.Issued tx g.end.rx
      × (has (w.borrow tx) f.end.sid ≡ false → IsWaiting tx g)

  abbrev answered : Bool → Ending → Option (Bool × Ending)
  answered b g = some (b, g)

  answer : (b c : Bool) (g : Ending) → b ≡ c → answered b g ≡ answered c g
  answer b c g h = ap (λ (x : Bool). answered x g) h

  poll_loop-abandoned :
      (n : ℕ) (tx : w.Sender) (f : Ending) → poll_loop (suc n) tx f abandoned ≡ answered false f
  unfolding poll_loop
  poll_loop-abandoned n tx f = refl

  poll_loop-checking :
      (n : ℕ) (tx : w.Sender) (f : Ending) → Answers tx f (poll_loop (suc (suc n)) tx f checking)
  poll_loop-checking n tx f =
      let seen = at f waiting (w.mark_seen tx f.end.rx) in
      elim (Bool-cases (has (w.borrow tx) f.end.sid)) [
        | inl e ↦ (
          seen,
          poll_loop-found (suc n) tx f e ∙ answer true (has (w.borrow tx) f.end.sid) seen (sym e),
          refl,
          refl,
          w.Issued-mark_seen tx f.end.rx,
          λ h. absurd (let k : true ≡ false = sym e ∙ h in cc (k)),
        )
        | inr e ↦
            let asleep = at seen (if w.is_closed tx then abandoned else waiting) seen.end.rx in
            (
              asleep,
              poll_loop-missed (suc n) tx f e
                  ∙ poll_loop-waiting n tx seen (w.has_changed-mark_seen tx f.end.rx)
                  ∙ answer false (has (w.borrow tx) f.end.sid) asleep (sym e),
              refl,
              refl,
              w.Issued-mark_seen tx f.end.rx,
              λ _. falls_asleep tx f.end.sid seen.end.rx e,
            )
      ]

  poll_loop-Answers :
      (tx : w.Sender) (f : Ending) (stage : Stage)
      → stage ≡ f.stage
      → w.Issued tx f.end.rx
      → Waits tx f.end.sid f.end.rx stage
      → Answers tx f (poll_loop 3 tx f stage)
  poll_loop-Answers tx f checking s own h = poll_loop-checking 1 tx f
  poll_loop-Answers tx f waiting s own h = elim (Bool-cases (w.has_changed tx f.end.rx)) [
    | inl e ↦
        let (g, r, i, j, k, l) =
          poll_loop-checking 0 tx (at f checking (w.mark_seen tx f.end.rx)) in
        (g, poll_loop-woken 2 tx f e ∙ r, i, j, k, l)
    | inr e ↦
        let asleep = at f (if w.is_closed tx then abandoned else waiting) f.end.rx in
        (
          asleep,
          poll_loop-waiting 2 tx f e
              ∙ answer false (has (w.borrow tx) f.end.sid) asleep (sym (h e)),
          refl,
          refl,
          own,
          λ k. falls_asleep tx f.end.sid f.end.rx k,
        )
  ]
  poll_loop-Answers tx f abandoned s own (closed, h) = (
    f,
    poll_loop-abandoned 2 tx f ∙ answer false (has (w.borrow tx) f.end.sid) f (sym h),
    refl,
    refl,
    own,
    λ _. subst (Waits tx f.end.sid f.end.rx) s (closed, h),
  )

  pub poll_revoked-Answers :
      (tx : w.Sender) (f : Ending)
      → w.Issued tx f.end.rx
      → IsWaiting tx f
      → Answers tx f (poll_revoked tx f)
  unfolding poll_revoked
  poll_revoked-Answers tx f own h = poll_loop-Answers tx f f.stage refl own h
