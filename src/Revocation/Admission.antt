-- ===== src/Revocation/Admission.antt =====
-- crates/skimasque/src/revocation.rs: what `Revoked::call` admits, and with which signal.
use skimasque.Prelude.{
  ℕ, ◌+◌, ◌*◌, ◌-◌, ◌/◌, ◌^◌, ◌<◌, ◌≤◌, true, false, Option, none, some, ltb, Result, ok, err,
  Bool-cases,
}
use skimasque.Prelude.{[], any_iff, Some, ◌∙◌, ◌≡◌, refl, sym, ◌⊎◌, inl, inr, arith}
use skimasque.Prelude.Text.{Text, codes, text_eq, text_eq_iff}
use skimasque.Policy.Identity.{WorkloadIdentity}
use skimasque.Revocation.{Watch, has, track, is_revoked}
use skimasque.Revocation.Claim.{HasExp, exp_claim-HasExp, HasExp-exp_claim}
use skimasque.Revocation.Layer.{
  TokenCrates, TunnelRequest, Rejection, second, checked_time, since_epoch, exp_claim,
  credential_expiry, session_of, within, deadline_of, Called, panics, refuses, accepts, Accepted,
  with_end, answers, bounded, guarded, call,
}

checked_time-cases :
    (x : ℕ)
    → ((checked_time x ≡ none) × (2 ^ 63 ≤ x / second))
      ⊎ ((checked_time x ≡ some x) × (x / second < 2 ^ 63))
unfolding checked_time
checked_time-cases x = elim (Bool-cases (ltb (x / second) (2 ^ 63))) [
  | inl e ↦ inr (rw e refl, ground arith)
  | inr e ↦ inl (rw e refl, ground arith)
]

true_not_false : true ≡ false → ⊥
true_not_false h = cc (h)

absent : (exp : ℕ) → (let o : Option ℕ = none in o ≡ some exp) → ⊥
absent exp h = cc (h)

abbrev pub Carries : Option WorkloadIdentity → Text → Type 0
Carries identity sid = (i : WorkloadIdentity) × (identity ≡ some i) × (i.sid ≡ some sid)

abbrev pub CarriesNone : Option WorkloadIdentity → Type 0
CarriesNone identity =
    (identity ≡ none) ⊎ ((i : WorkloadIdentity) × (identity ≡ some i) × (i.sid ≡ none))

abbrev pub forbidden : (detail error : Text) → Rejection
forbidden what error = record {
  status = 403;
  proxy_error = some error;
  detail = what;
  headers = [];
}

module _ {R B : Type 0} ⦃w : Watch⦄ (t : TokenCrates)
    (inner : TunnelRequest R → Result Rejection (Accepted B)) (tx : w.Sender) (now instant : ℕ)
    (request : TunnelRequest R) where
  -- The session is of the request and in no revoked set.
  abbrev pub IsLive : Text → Type 0
  IsLive sid = Carries request.identity sid × ¬ Some (λ (s : Text). sid ≡ s) (w.borrow tx)

  -- The deadline of a tunnel that is opened now: none without a claim, and with one, which is later
  -- than now, as far from the monotonic clock as the claim is from now.
  abbrev pub Expires : Option ℕ → Type 0
  Expires deadline =
      (¬ ((exp : ℕ) × HasExp t request exp) × (deadline ≡ none))
      ⊎ ((exp : ℕ) × HasExp t request exp
          × (exp < 2 ^ 63)
          × (now < exp * second)
          × ((instant + (exp * second - now)) / second < 2 ^ 63)
          × (deadline ≡ some (instant + (exp * second - now))))

  -- What the layer makes of the request.
  pub data Treats : Called (Accepted B) → Type 0 where
    passes :
        (b : Accepted B) → CarriesNone request.identity → inner request ≡ ok b → Treats (accepts b)
    passes_on :
        (r : Rejection) → CarriesNone request.identity → inner request ≡ err r → Treats (refuses r)
    is_over :
        (sid : Text)
        → Carries request.identity sid
        → Some (λ (s : Text). sid ≡ s) (w.borrow tx)
        → Treats (
            refuses
              (forbidden (codes "this session has ended; start a new one") (codes "session_ended")))
    has_expired :
        (sid : Text) (exp : ℕ)
        → IsLive sid
        → HasExp t request exp
        → exp < 2 ^ 63
        → exp * second ≤ now
        → Treats (
            refuses (
              forbidden
                (codes "this session has expired; start a new one")
                (codes "session_expired")))
    beyond_clock :
        (sid : Text) (exp : ℕ)
        → IsLive sid
        → HasExp t request exp
        → (2 ^ 63 ≤ exp)
          ⊎ ((now < exp * second) × (2 ^ 63 ≤ (instant + (exp * second - now)) / second))
        → Treats panics
    opens :
        (sid : Text) (deadline : Option ℕ) (b : Accepted B)
        → IsLive sid
        → Expires deadline
        → inner request ≡ ok b
        → Treats (
            accepts (record {
              end = some (record { sid = sid; rx = w.subscribe tx; deadline = deadline });
              body = b.body;
            }))
    declines :
        (sid : Text) (deadline : Option ℕ) (r : Rejection)
        → IsLive sid
        → Expires deadline
        → inner request ≡ err r
        → Treats (refuses r)

  module _ (sid : Text) (live : IsLive sid) where
    answers-Treats :
        (d : Option ℕ) (r : Result Rejection (Accepted B))
        → inner request ≡ r
        → Expires d
        → Treats (answers (λ a. with_end a (track sid d tx)) r)
    unfolding with_end track
    answers-Treats d (ok b) e h = opens sid d b live h e
    answers-Treats d (err r) e h = declines sid d r live h e

    bounded-Treats :
        (exp : ℕ)
        → HasExp t request exp
        → exp < 2 ^ 63
        → Treats
            (bounded t inner tx request sid (deadline_of now instant (some (some (exp * second)))))
    unfolding bounded deadline_of within
    bounded-Treats exp h k = elim (Bool-cases (ltb now (exp * second))) [
      | inr l ↦ rw l (has_expired sid exp live h k (ground arith))
      | inl l ↦
          let later : now < exp * second = ground arith in
          elim (checked_time-cases (instant + (exp * second - now))) [
            | inl (e, far) ↦ rw (l, e) (beyond_clock sid exp live h (inr (later, far)))
            | inr (e, near) ↦
                rw (l, e)
                  (answers-Treats (some (instant + (exp * second - now))) (inner request) refl
                    (inr (exp, h, k, later, near, refl)))
          ]
    ]

    claim-Treats :
        (claim : Option ℕ)
        → exp_claim t request ≡ claim
        → Treats (bounded t inner tx request sid (deadline_of now instant (since_epoch claim)))
    unfolding bounded deadline_of since_epoch
    claim-Treats none e = answers-Treats none (inner request) refl (
        inl (
          λ p. let k = HasExp-exp_claim t request (p.0) (p.1) in absurd (absent (p.0) (sym e ∙ k)),
          refl,
        ))
    claim-Treats (some exp) e =
        let h = exp_claim-HasExp t request exp e in
        elim (checked_time-cases (exp * second)) [
          | inl (f, far) ↦ rw f (beyond_clock sid exp live h (inl (omega arith)))
          | inr (f, near) ↦ rw f (bounded-Treats exp h (omega arith))
        ]

  answered :
      CarriesNone request.identity
      → (r : Result Rejection (Accepted B)) → inner request ≡ r
      → Treats (answers (λ a. a) r)
  answered h (ok b) e = passes b h e
  answered h (err r) e = passes_on r h e

  session-Treats :
      (sid : Option Text) (i : WorkloadIdentity)
      → request.identity ≡ some i
      → i.sid ≡ sid
      → Treats (guarded t inner tx now instant request sid)
  unfolding guarded credential_expiry is_revoked
  session-Treats none i e own = answered (inr (i, e, own)) (inner request) refl
  session-Treats (some sid) i e own =
      let among = any_iff (λ (x : Text). sid ≡ x) (text_eq sid) (text_eq_iff sid) (w.borrow tx) in
      elim (Bool-cases (has (w.borrow tx) sid)) [
        | inl h ↦ rw h (is_over sid (i, e, own) (among.0 h))
        | inr h ↦
            let live : IsLive sid = ((i, e, own), λ k. true_not_false (sym (among.1 k) ∙ h)) in
            rw h (claim-Treats sid live (exp_claim t request) refl)
      ]

  guarded-Treats :
      (identity : Option WorkloadIdentity)
      → request.identity ≡ identity
      → Treats (guarded t inner tx now instant request (session_of identity))
  unfolding guarded
  guarded-Treats none e = answered (inl e) (inner request) refl
  guarded-Treats (some i) e = session-Treats i.sid i e refl

  -- What `Revoked::call` makes of a request, for every inner service. A request without a session
  -- gets the inner service's answer, unchanged. One whose session is in the revoked set is refused
  -- as ended. For any other session the `exp` claim of its bearer token decides. When it is beyond
  -- signed 64-bit seconds, the call panics. When it has come, the request is refused as expired,
  -- whatever the inner service says. When it is later than now, the call panics if the deadline,
  -- which is as far from the clock as `exp` is from now, is beyond signed 64-bit seconds, and
  -- otherwise gives the inner service's answer; without a readable claim it gives that answer with
  -- no deadline. If the service accepts, the tunnel carries the signal of that session with that
  -- deadline.
  pub call-Treats : Treats (call t inner tx now instant request)
  unfolding call
  call-Treats = guarded-Treats request.identity refl
