-- ===== src/Examples/Sessions.antt =====
-- Runs of the session layer, with a channel that counts its versions.
use skimasque.Prelude.{
  ℕ, ◌+◌, ◌≤◌, [], ◌∷◌, Bool, true, false, Bool-cases, inl, inr, none, some, ltb, if◌then◌else◌,
  Result, ok,
}
use skimasque.Prelude.{◌≡◌, refl, arith}
use skimasque.Prelude.Text.{codes}
use skimasque.Policy.Identity.{WorkloadIdentity}
use skimasque.Revocation.{
  Set, Watch, new, replace, is_revoked, track, Ending, ended, poll_ended, is_due,
}
use skimasque.Revocation.Interleaved.{Reachable, tracked, replaced, outcome, poll_ended-outcome}
use skimasque.Revocation.Layer.{
  TokenCrates, TunnelRequest, Rejection, Accepted, call, accepts, refuses, session_expired, guarded,
  bounded, deadline_of, within, credential_expiry, since_epoch, checked_time, exp_claim, with_end,
}
use skimasque.Revocation.Admission.{Treats, call-Treats}

-- A receiver is the version that it saw last.
record Channel : Type 0 where
  value : Set
  version : ℕ
  closed : Bool

abbrev send : (Set → Set × Bool) → Channel → Channel
send f c = record c {
  value = (f c.value).0;
  version = if (f c.value).1 then c.version + 1 else c.version;
}

send_same :
    (f : Set → Set × Bool) (c : Channel) (r : ℕ)
    → (f c.value).1 ≡ false
    → ltb r (send f c).version ≡ ltb r c.version
send_same f c r h = rw h refl

send_new :
    (f : Set → Set × Bool) (c : Channel) (r : ℕ)
    → r ≤ c.version
    → (f c.value).1 ≡ true
    → ltb r (send f c).version ≡ true
send_new f c r own h = rw h (ground (arith, own))

send_grows : (f : Set → Set × Bool) (c : Channel) (r : ℕ) → r ≤ c.version → r ≤ (send f c).version
send_grows f c r own = elim (Bool-cases (f c.value).1) [
  | inl e ↦ rw e (omega (arith, own))
  | inr e ↦ rw e own
]

instance abbrev counted : Watch
counted = record {
  Sender = Channel;
  Receiver = ℕ;
  channel = λ set. record { value = set; version = 0; closed = false };
  borrow = λ c. c.value;
  send_if_modified = send;
  subscribe = λ c. c.version;
  has_changed = λ c r. ltb r c.version;
  mark_seen = λ c r. c.version;
  is_closed = λ c. c.closed;
  close = λ c. record c { closed = true };
  Issued = λ c r. r ≤ c.version;
  Issued-subscribe = λ c. omega arith;
  Issued-mark_seen = λ c r. omega arith;
  Issued-send_if_modified = send_grows;
  Issued-close = λ c r own. own;
  borrow-channel = λ set. refl;
  borrow-send_if_modified = λ f c. refl;
  has_changed-send_if_modified_same = send_same;
  has_changed-send_if_modified_new = send_new;
  has_changed-mark_seen = λ c r. ground arith;
  is_closed-close = λ c. refl;
  borrow-close = λ c. refl;
  has_changed-close = λ c r. refl;
}

abbrev watched : Ending
watched = ended (track (codes "sess_a") (some 90) new)

abbrev after : Channel
after = replace (codes "sess_a" ∷ []) new

after-Reachable : Reachable (codes "sess_a") (some 90) after watched
unfolding new
after-Reachable = replaced new watched (codes "sess_a" ∷ []) refl (tracked new)

poll_ended-outcome_example :
    (g : Ending) × (poll_ended false after 50 watched
      ≡ some (outcome false (is_due (some 90) 50) (is_revoked after (codes "sess_a")), g))
poll_ended-outcome_example =
    poll_ended-outcome (codes "sess_a") (some 90) after watched after-Reachable false 50

-- Every payload's claim is one second after the epoch.
abbrev crates : TokenCrates
crates = record { to_str = λ b. some b; decode = λ t. some t; exp_of = λ b. some 1 }

abbrev workload : WorkloadIdentity
workload = record {
  organization = none;
  repository = none;
  workflow = none;
  git_ref = none;
  environment = none;
  actor = none;
  kind = none;
  run_id = none;
  runtime = none;
  sid = some (codes "sess_a");
}

abbrev asks : TunnelRequest ℕ
asks = record {
  identity = some workload;
  proxy_authorization = some (codes "Bearer head.claims.signature");
  other = 7;
}

abbrev accept_all : TunnelRequest ℕ → Result Rejection (Accepted ℕ)
accept_all request = ok (record { end = none; body = request.other })

before_expiry :
    call crates accept_all new 50 60 asks
    ≡ accepts (record { end = some (track (codes "sess_a") (some 1000000010) new); body = 7 })
unfolding call guarded bounded deadline_of within credential_expiry since_epoch checked_time
    exp_claim is_revoked new track with_end
before_expiry = refl

at_expiry : call crates accept_all new 1000000000 60 asks ≡ refuses session_expired
unfolding call guarded bounded deadline_of credential_expiry since_epoch checked_time exp_claim
    is_revoked new
at_expiry = refl

call-Treats_example :
    Treats crates accept_all new 50 60 asks (call crates accept_all new 50 60 asks)
call-Treats_example = call-Treats crates accept_all new 50 60 asks
