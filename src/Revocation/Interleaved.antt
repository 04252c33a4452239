-- ===== src/Revocation/Interleaved.antt =====
-- crates/skimasque/src/revocation.rs: the future of `TunnelEnd::ended` over all interleavings
-- of its polls with replacements of the revoked set and with the end of the set's source.
use skimasque.Prelude.{
  ℕ, List, Bool, true, false, ◌&&◌, Option, none, some, if◌then◌else◌, Bool-cases,
}
use skimasque.Prelude.{◌≡◌, refl, sym, ap, ap₂, ◌∙◌, ◌⊎◌, inl, inr, arith}
use mathlib.Core.Path.{subst}
use skimasque.Prelude.Text.{Text}
use skimasque.Revocation.{
  Set, has, set_eq, collect, Watch, exchange, replace, EndReason, revoked, expired, Stage, checking,
  waiting, abandoned, track, Ending, ended, poll_revoked, is_due, or_timer, poll_ended, is_revoked,
}
use skimasque.Revocation.Signal.{Waits, poll_revoked-Answers}

module _ ⦃w : Watch⦄ where
  -- A channel and the future of one tunnel, since the tunnel was tracked.
  pub data Reachable (sid : Text) (deadline : Option ℕ) : w.Sender → Ending → Type 0 where
    tracked : (tx : w.Sender) → Reachable sid deadline tx (ended (track sid deadline tx))
    replaced :
        (tx : w.Sender) (f : Ending) (sids : List Text)
        → w.is_closed tx ≡ false
        → Reachable sid deadline tx f
        → Reachable sid deadline (replace sids tx) f
    dropped :
        (tx : w.Sender) (f : Ending)
        → Reachable sid deadline tx f
        → Reachable sid deadline (w.close tx) f
    polled :
        (tx : w.Sender) (f g : Ending) (timer_first : Bool) (now : ℕ)
        → poll_ended timer_first tx now f ≡ some (none, g)
        → Reachable sid deadline tx f
        → Reachable sid deadline tx g

  Waits-replace :
      (tx : w.Sender) (sid : Text) (rx : w.Receiver) (stage : Stage) (sids : List Text)
      → w.Issued tx rx
      → w.is_closed tx ≡ false
      → Waits tx sid rx stage
      → Waits (replace sids tx) sid rx stage
  unfolding replace exchange
  Waits-replace tx sid rx checking sids own o h = tt
  Waits-replace tx sid rx waiting sids own o h = λ k.
      let f = exchange (collect sids) in
      elim (Bool-cases (set_eq (w.borrow tx) (collect sids))) [
        | inl e ↦
            let kept : f (w.borrow tx) ≡ (w.borrow tx, false) = rw e refl in
            ap (λ (s : Set). has s sid)
              (w.borrow-send_if_modified f tx ∙ ap (λ (r : Set × Bool). r.0) kept)
            ∙ h (
                sym
                  (w.has_changed-send_if_modified_same f tx rx (ap (λ (r : Set × Bool). r.1) kept))
                ∙ k)
        | inr e ↦
            let new : f (w.borrow tx) ≡ (collect sids, true) = rw e refl in
            let seen =
              w.has_changed-send_if_modified_new f tx rx own (ap (λ (r : Set × Bool). r.1) new) in
            absurd (let l : true ≡ false = sym seen ∙ k in cc (l))
      ]
  Waits-replace tx sid rx abandoned sids own o (c, h) =
      absurd (let l : true ≡ false = sym c ∙ o in cc (l))

  Waits-close :
      (tx : w.Sender) (sid : Text) (rx : w.Receiver) (stage : Stage)
      → Waits tx sid rx stage
      → Waits (w.close tx) sid rx stage
  Waits-close tx sid rx checking h = tt
  Waits-close tx sid rx waiting h =
      λ k. ap (λ (s : Set). has s sid) (w.borrow-close tx) ∙ h (sym (w.has_changed-close tx rx) ∙ k)
  Waits-close tx sid rx abandoned (c, h) =
      (w.is_closed-close tx, ap (λ (s : Set). has s sid) (w.borrow-close tx) ∙ h)

  -- What a poll of both branches comes to, from what the branch of the set answers.
  abbrev pub outcome : (timer_first due is_revoked : Bool) → Option EndReason
  outcome timer_first due is_revoked =
      if timer_first && due
      then some expired
      else if is_revoked
      then some revoked
      else if due
      then some expired
      else none

  branch :
      (b : Bool) (deadline : Option ℕ) (now : ℕ) (g : Ending)
      → or_timer deadline now (b, g)
        ≡ ((if b then some revoked else if is_due deadline now then some expired else none), g)
  branch true deadline now g = refl
  branch false deadline now g = elim (Bool-cases (is_due deadline now)) [
    | inl e ↦ rw e refl
    | inr e ↦ rw e refl
  ]

  poll_ended-due :
      (timer_first b : Bool) (tx : w.Sender) (now : ℕ) (f g : Ending)
      → poll_revoked tx f ≡ some (b, g)
      → (h : Ending) × (poll_ended timer_first tx now f
          ≡ some (outcome timer_first (is_due f.end.deadline now) b, h))
        × ((h ≡ f) ⊎ (h ≡ g))
  unfolding poll_ended
  poll_ended-due timer_first b tx now f g r =
      elim (Bool-cases (timer_first && is_due f.end.deadline now)) [
        | inl e ↦ (f, rw e refl, inl refl)
        | inr e ↦ (
          g,
          rw (e, r)
              (ap (λ (x : Option EndReason × Ending). some x) (branch b f.end.deadline now g)),
          inr refl,
        )
      ]

  -- Of the tunnel that was tracked, and asleep only while it may be.
  abbrev pub Keeps : Text → Option ℕ → w.Sender → Ending → Type 0
  Keeps sid deadline tx f =
      (f.end.sid ≡ sid)
      × (f.end.deadline ≡ deadline)
      × w.Issued tx f.end.rx
      × Waits tx sid f.end.rx f.stage

  outcome-none :
      (timer_first due b : Bool) → outcome timer_first due b ≡ none → (due ≡ false) × (b ≡ false)
  outcome-none timer_first due b h = ground arith

  abbrev outcome_of : Option EndReason → Ending → Option (Option EndReason × Ending)
  outcome_of r h = some (r, h)

  module _ (sid : Text) (deadline : Option ℕ) (timer_first : Bool) (now : ℕ) where
    abbrev Polled : w.Sender → Ending → Option (Option EndReason × Ending) → Type 0
    Polled tx f r =
        (g : Ending) × (r
          ≡ some (outcome timer_first (is_due deadline now) (has (w.borrow tx) sid), g))
        × (has (w.borrow tx) sid ≡ false → Keeps sid deadline tx g)

    poll_ended-Polled :
        (tx : w.Sender) (f : Ending)
        → Keeps sid deadline tx f
        → Polled tx f (poll_ended timer_first tx now f)
    poll_ended-Polled tx f (i, j, own, k) =
        let (g, r, m, n, own', l) =
          poll_revoked-Answers tx f own
            (subst (λ (s : Text). Waits tx s f.end.rx f.stage) (sym i) k) in
        let (h, p, q) = poll_ended-due timer_first (has (w.borrow tx) f.end.sid) tx now f g r in
        (
          h,
          p
              ∙ ap₂
                  (λ (s : Text) (d : Option ℕ).
                    outcome_of (outcome timer_first (is_due d now) (has (w.borrow tx) s)) h)
                  i j,
          λ live.
              let asleep = l (ap (λ (s : Text). has (w.borrow tx) s) i ∙ live) in
              let kept : Keeps sid deadline tx g = (
                m ∙ i,
                n ∙ j,
                own',
                subst (λ (s : Text). Waits tx s g.end.rx g.stage) (m ∙ i) asleep,
              ) in
              elim q [
                | inl e ↦ subst (Keeps sid deadline tx) (sym e) (i, j, own, k)
                | inr e ↦ subst (Keeps sid deadline tx) (sym e) kept
              ],
        )

  still_live :
      (sid : Text) (deadline : Option ℕ) (timer_first : Bool) (now : ℕ) (tx : w.Sender)
      (f g : Ending)
      → Keeps sid deadline tx f
      → poll_ended timer_first tx now f ≡ some (none, g)
      → Keeps sid deadline tx g
  still_live sid deadline timer_first now tx f g k e =
      let (h, p, q) = poll_ended-Polled sid deadline timer_first now tx f k in
      let same : outcome_of none g
          ≡ outcome_of (outcome timer_first (is_due deadline now) (has (w.borrow tx) sid)) h =
        sym e ∙ p in
      let pending : outcome timer_first (is_due deadline now) (has (w.borrow tx) sid) ≡ none = cc in
      let stays : h ≡ g = cc in
      subst (Keeps sid deadline tx) stays
        (q (outcome-none timer_first (is_due deadline now) (has (w.borrow tx) sid) pending).1)

  pub Reachable-Keeps :
      (sid : Text) (deadline : Option ℕ) (tx : w.Sender) (f : Ending)
      → Reachable sid deadline tx f
      → Keeps sid deadline tx f
  unfolding ended track replace
  Reachable-Keeps sid deadline tx f (tracked _) = (refl, refl, w.Issued-subscribe tx, tt)
  Reachable-Keeps sid deadline tx f (replaced before _ sids o r) =
      let (i, j, own, k) = Reachable-Keeps sid deadline before f r in
      (
        i,
        j,
        w.Issued-send_if_modified (exchange (collect sids)) before f.end.rx own,
        Waits-replace before sid f.end.rx f.stage sids own o k,
      )
  Reachable-Keeps sid deadline tx f (dropped before _ r) =
      let (i, j, own, k) = Reachable-Keeps sid deadline before f r in
      (i, j, w.Issued-close before f.end.rx own, Waits-close before sid f.end.rx f.stage k)
  Reachable-Keeps sid deadline tx f (polled _ before _ timer_first now e r) =
      still_live sid deadline timer_first now tx before f (Reachable-Keeps sid deadline tx before r)
        e

  -- Whatever replacements of the revoked set, polls and the end of the set's source came before, a
  -- poll of `TunnelEnd::ended` returns what a direct test would: with the timer polled first and
  -- the deadline come, the tunnel has expired; otherwise it is revoked exactly when the set holds
  -- its session now, and else expired when the deadline has come and pending when it has not. No
  -- change is slept through, and the loop has enough fuel.
  pub poll_ended-outcome :
      (sid : Text) (deadline : Option ℕ) (tx : w.Sender) (f : Ending)
      → Reachable sid deadline tx f
      → (timer_first : Bool) (now : ℕ)
      → (g : Ending) × (poll_ended timer_first tx now f
          ≡ some (outcome timer_first (is_due deadline now) (is_revoked tx sid), g))
  unfolding is_revoked
  poll_ended-outcome sid deadline tx f r timer_first now =
      let (g, p, _) =
        poll_ended-Polled sid deadline timer_first now tx f (Reachable-Keeps sid deadline tx f r) in
      (g, p)
