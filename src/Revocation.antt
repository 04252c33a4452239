-- ===== src/Revocation.antt =====
-- crates/skimasque/src/revocation.rs: the set of revoked sessions, the signal that a tunnel of a
-- session carries, and the layer that refuses ended and expired sessions. The watch channel of
-- tokio is a parameter; an instant is a number of nanoseconds.
pub mod Replace
pub mod Signal
pub mod Interleaved
pub mod Layer
pub mod Claim
pub mod Admission
use skimasque.Prelude.{
  ℕ, ◌≡◌, zero, suc, ◌+◌, ◌*◌, ◌-◌, ◌/◌, ◌^◌, List, [], ◌∷◌, Bool, true, false, ◌&&◌, Option, none,
  some, ltb, leb, ◌==◌, if◌then◌else◌, any, length,
}
use skimasque.Prelude.Text.{Text, codes, text_eq, strip_prefix, split}

-- A `HashSet<String>`: its members, each once. `contains`, `==` and `collect`.
abbrev pub Set : Type 0
Set = List Text

abbrev pub has : Set → Text → Bool
has set sid = any (text_eq sid) set

abbrev pub is_subset : Set → Set → Bool
is_subset [] b = true
is_subset (x ∷ a) b = has b x && is_subset a b

abbrev pub set_eq : Set → Set → Bool
set_eq a b = is_subset a b && is_subset b a

abbrev pub collect : List Text → Set
collect [] = []
collect (x ∷ xs) = let rest = collect xs in if has rest x then rest else x ∷ rest

-- The documented behaviour of `tokio::sync::watch`: `send_if_modified` stores what the closure
-- leaves, and a receiver of the channel sees a change after the closure has answered true, until it
-- looks.
pub record Watch : Type 1 where
  pub Sender : Type 0
  pub Receiver : Type 0
  pub channel : Set → Sender
  pub borrow : Sender → Set
  pub send_if_modified : (Set → Set × Bool) → Sender → Sender
  pub subscribe : Sender → Receiver
  pub has_changed : Sender → Receiver → Bool
  pub mark_seen : Sender → Receiver → Receiver
  pub is_closed : Sender → Bool
  pub close : Sender → Sender
  pub Issued : Sender → Receiver → Type 0
  pub Issued-subscribe : (s : Sender) → Issued s (subscribe s)
  pub Issued-mark_seen : (s : Sender) (r : Receiver) → Issued s (mark_seen s r)
  pub Issued-send_if_modified :
      (f : Set → Set × Bool) (s : Sender) (r : Receiver)
      → Issued s r
      → Issued (send_if_modified f s) r
  pub Issued-close : (s : Sender) (r : Receiver) → Issued s r → Issued (close s) r
  pub borrow-channel : (set : Set) → borrow (channel set) ≡ set
  pub borrow-send_if_modified :
      (f : Set → Set × Bool) (s : Sender) → borrow (send_if_modified f s) ≡ (f (borrow s)).0
  pub has_changed-send_if_modified_same :
      (f : Set → Set × Bool) (s : Sender) (r : Receiver)
      → (f (borrow s)).1 ≡ false
      → has_changed (send_if_modified f s) r ≡ has_changed s r
  pub has_changed-send_if_modified_new :
      (f : Set → Set × Bool) (s : Sender) (r : Receiver)
      → Issued s r
      → (f (borrow s)).1 ≡ true
      → has_changed (send_if_modified f s) r ≡ true
  pub has_changed-mark_seen : (s : Sender) (r : Receiver) → has_changed s (mark_seen s r) ≡ false
  pub is_closed-close : (s : Sender) → is_closed (close s) ≡ true
  pub borrow-close : (s : Sender) → borrow (close s) ≡ borrow s
  pub has_changed-close : (s : Sender) (r : Receiver) → has_changed (close s) r ≡ has_changed s r

-- The closure of `replace`.
unfoldable pub exchange : (next : Set) → Set → Set × Bool
exchange next current = if set_eq current next then (current, false) else (next, true)

pub data EndReason : Type 0 where
  revoked expired : EndReason

-- Where the future of `TunnelEnd::ended` stands: at the check of the set, in `changed().await`, or
-- in `pending().await` after the channel was closed.
pub data Stage : Type 0 where
  checking waiting abandoned : Stage

module _ ⦃w : Watch⦄ where
  -- `Revocations::new`, `replace`, `is_revoked`, `len` and `is_empty`
  unfoldable pub new : w.Sender
  new = w.channel []

  unfoldable pub replace : List Text → w.Sender → w.Sender
  replace sids tx = w.send_if_modified (exchange (collect sids)) tx

  unfoldable pub is_revoked : w.Sender → Text → Bool
  is_revoked tx sid = has (w.borrow tx) sid

  unfoldable pub len : w.Sender → ℕ
  len tx = length (w.borrow tx)

  unfoldable pub is_empty : w.Sender → Bool
  is_empty tx = len tx == 0

  pub record TunnelEnd : Type 0 where
    pub sid : Text
    pub rx : w.Receiver
    pub deadline : Option ℕ

  unfoldable pub track : (sid : Text) (deadline : Option ℕ) (tx : w.Sender) → TunnelEnd
  track s d tx = record { sid = s; rx = w.subscribe tx; deadline = d }

  -- The future of `TunnelEnd::ended`.
  pub record Ending : Type 0 where
    pub end : TunnelEnd
    pub stage : Stage

  unfoldable pub ended : TunnelEnd → Ending
  ended e = record { end = e; stage = checking }

  abbrev pub at : Ending → Stage → w.Receiver → Ending
  at f s r = record { end = record f.end { rx = r }; stage = s }

  -- One poll of the future `revoked`, with fuel for its loop: whether it returned, and what is
  -- left of it.
  unfoldable pub poll_loop :
      (fuel : ℕ) (tx : w.Sender) (f : Ending) (stage : Stage) → Option (Bool × Ending)
  poll_loop zero tx f s = none
  poll_loop (suc fuel) tx f checking =
      let seen = at f waiting (w.mark_seen tx f.end.rx) in
      elim (has (w.borrow tx) f.end.sid) [
        | true ↦ some (true, seen)
        | false ↦ poll_loop fuel tx seen waiting
      ]
  poll_loop (suc fuel) tx f waiting = elim (w.has_changed tx f.end.rx) [
    | true ↦ poll_loop fuel tx (at f checking (w.mark_seen tx f.end.rx)) checking
    | false ↦ some (false, at f (if w.is_closed tx then abandoned else waiting) f.end.rx)
  ]
  poll_loop (suc fuel) tx f abandoned = some (false, f)

  unfoldable pub poll_revoked : w.Sender → Ending → Option (Bool × Ending)
  poll_revoked tx f = poll_loop 3 tx f f.stage

  -- Whether `sleep_until(deadline)` is ready.
  unfoldable pub is_due : Option ℕ → (now : ℕ) → Bool
  is_due none now = false
  is_due (some deadline) now = leb deadline now

  abbrev pub resolved : EndReason → Bool → Option EndReason
  resolved reason true = some reason
  resolved reason false = none

  -- The timer's branch, when the other did not return.
  abbrev pub or_timer : Option ℕ → ℕ → Bool × Ending → Option EndReason × Ending
  or_timer deadline now (true, f) = (some revoked, f)
  or_timer deadline now (false, f) = (resolved expired (is_due deadline now), f)

  abbrev pub map_poll :
      Option (Bool × Ending)
      → (Bool × Ending → Option EndReason × Ending)
      → Option (Option EndReason × Ending)
  map_poll none g = none
  map_poll (some r) g = some (g r)

  -- One poll of `ended`: `select!` polls its branches in either order and stops at one that is ready.
  unfoldable pub poll_ended :
      (timer_first : Bool) (tx : w.Sender) (now : ℕ) → Ending → Option (Option EndReason × Ending)
  poll_ended timer_first tx now f =
      let revoked_branch = map_poll (poll_revoked tx f) (or_timer f.end.deadline now) in
      if timer_first && is_due f.end.deadline now then some (some expired, f) else revoked_branch
