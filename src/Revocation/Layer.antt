-- ===== src/Revocation/Layer.antt =====
-- crates/skimasque/src/revocation.rs: `Revoked::call`, which refuses ended and expired sessions and
-- gives every other tunnel of a session its signal. Times are nanoseconds; the addition of times
-- panics above the greatest second of the system, as the standard library's does. The inner service
-- and what reads a header and a token are parameters.
use skimasque.Prelude.{
  ℕ, ◌+◌, ◌*◌, ◌-◌, ◌/◌, ◌^◌, List, [], ◌∷◌, Option, none, some, ltb, if◌then◌else◌, Result, ok,
  err,
}
use skimasque.Prelude.Text.{Text, codes, strip_prefix, split}
use skimasque.Policy.Identity.{WorkloadIdentity}
use skimasque.Revocation.{Watch, TunnelEnd, track, is_revoked}

-- `http::HeaderValue::to_str`, the base64 decoder and the JSON reader of the `exp` claim.
pub record TokenCrates : Type 0 where
  pub to_str : List ℕ → Option Text
  pub decode : Text → Option (List ℕ)
  pub exp_of : List ℕ → Option ℕ

pub record TunnelRequest (R : Type 0) : Type 0 where
  pub identity : Option WorkloadIdentity
  pub proxy_authorization : Option (List ℕ)
  pub other : R

-- crates/skimasque/src/service.rs: why a request was not accepted.
pub record Rejection : Type 0 where
  pub status : ℕ
  pub proxy_error : Option Text
  pub detail : Text
  pub headers : List (Text × Text)

abbrev pub new_rejection : (status : ℕ) (detail : Text) → Rejection
new_rejection s d = record { status = s; proxy_error = none; detail = d; headers = [] }

abbrev pub with_proxy_error : Rejection → Text → Rejection
with_proxy_error r error = record r { proxy_error = some error }

abbrev pub second : ℕ
second = 1000000000

-- `time + duration`, for a clock of signed 64-bit seconds.
unfoldable pub checked_time : ℕ → Option ℕ
checked_time t = if ltb (t / second) (2 ^ 63) then some t else none

abbrev pub nth_1 : List Text → Option Text
nth_1 (_ ∷ x ∷ _) = some x
nth_1 _ = none

abbrev pub and_then {ℓ κ} : {A : Type ℓ} {B : Type κ} → Option A → (A → Option B) → Option B
and_then none f = none
and_then (some a) f = f a

-- What a call comes to: the source panics, refuses, or hands on to the inner service.
pub data Called (A : Type 0) : Type 0 where
  panics : Called A
  refuses : Rejection → Called A
  accepts : A → Called A

abbrev pub session_ended : Rejection
session_ended =
    with_proxy_error (new_rejection 403 (codes "this session has ended; start a new one"))
      (codes "session_ended")

abbrev pub session_expired : Rejection
session_expired =
    with_proxy_error (new_rejection 403 (codes "this session has expired; start a new one"))
      (codes "session_expired")

-- `UNIX_EPOCH + Duration::from_secs(exp)`: nothing inside means that the addition panics.
unfoldable pub since_epoch : Option ℕ → Option (Option ℕ)
since_epoch none = none
since_epoch (some exp) = some (checked_time (exp * second))

module _ {R : Type 0} (t : TokenCrates) where
  -- The readable `exp` claim of the bearer token, in seconds.
  unfoldable pub exp_claim : TunnelRequest R → Option ℕ
  exp_claim request = and_then request.proxy_authorization (λ (header : List ℕ).
      and_then (t.to_str header) (λ (value : Text).
        and_then (strip_prefix value (codes "Bearer ")) (λ (token : Text).
          and_then (nth_1 (split b'.' token))
            (λ (part : Text). and_then (t.decode part) t.exp_of))))

  unfoldable pub credential_expiry : TunnelRequest R → Option (Option ℕ)
  credential_expiry request = since_epoch (exp_claim request)

abbrev pub session_of : Option WorkloadIdentity → Option Text
session_of none = none
session_of (some identity) = identity.sid

-- What is to become of a credential's expiry: a panic, a refusal or a deadline for the tunnel.
pub data Deadline : Type 0 where
  overflows : Deadline
  over : Deadline
  at_most : Option ℕ → Deadline

unfoldable pub within : Option ℕ → Deadline
within none = overflows
within (some instant) = at_most (some instant)

-- `now` is the system's clock and `instant` the monotonic one.
unfoldable pub deadline_of : (now instant : ℕ) → Option (Option ℕ) → Deadline
deadline_of now instant none = at_most none
deadline_of now instant (some none) = overflows
deadline_of now instant (some (some expiry)) =
    if ltb now expiry then within (checked_time (instant + (expiry - now))) else over

module _ ⦃w : Watch⦄ where
  -- crates/skimasque/src/service.rs: an accepted tunnel, as far as its end goes.
  pub record Accepted (B : Type 0) : Type 0 where
    pub end : Option TunnelEnd
    pub body : B

  unfoldable pub with_end : {B : Type 0} → Accepted B → TunnelEnd → Accepted B
  with_end a e = record a { end = some e }

  abbrev pub answers :
      {B : Type 0} → (Accepted B → Accepted B) → Result Rejection (Accepted B) → Called (Accepted B)
  answers f (ok a) = accepts (f a)
  answers f (err e) = refuses e

module _ {R B : Type 0} ⦃w : Watch⦄ where
  module _ (t : TokenCrates) (inner : TunnelRequest R → Result Rejection (Accepted B)) where
    unfoldable pub bounded : w.Sender → TunnelRequest R → Text → Deadline → Called (Accepted B)
    bounded tx request sid overflows = panics
    bounded tx request sid over = refuses session_expired
    bounded tx request sid (at_most deadline) =
        let e = track sid deadline tx in answers (λ a. with_end a e) (inner request)

    unfoldable pub guarded :
        w.Sender → (now instant : ℕ) → TunnelRequest R → Option Text → Called (Accepted B)
    guarded tx now instant request none = answers (λ a. a) (inner request)
    guarded tx now instant request (some sid) =
        if is_revoked tx sid
        then refuses session_ended
        else bounded tx request sid (deadline_of now instant (credential_expiry t request))

    unfoldable pub call : w.Sender → (now instant : ℕ) → TunnelRequest R → Called (Accepted B)
    call tx now instant request = guarded tx now instant request (session_of request.identity)
