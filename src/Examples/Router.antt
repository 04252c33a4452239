-- ===== src/Examples/Router.antt =====
-- Runs of the datagram router with a channel that is a bounded list.
use skimasque.Prelude.{
  ℕ, ◌≤◌, ◌<◌, List, [], ◌∷◌, ◌++◌, Bool, true, ◌&&◌, Option, none, some, ltb, if◌then◌else◌,
  length, lookup,
}
use skimasque.Prelude.{◌≡◌, refl, arith, lt→ltb}
use skimasque.Datagram.{QuarterStreamId}
use skimasque.DatagramRouter.{Mpsc, Payload, Routes, empty, deliver, register}
use skimasque.DatagramRouter.Invariant.{
  IsBounded, Reachable, start, delivered, registered, Reachable-IsBounded,
}
use skimasque.DatagramRouter.Claim.{deliver_all, latest, register-deliver_all}

record Queue : Type 0 where
  items : List Payload
  limit : ℕ
  listening : Bool

abbrev send : Queue → Payload → Option Queue
send c p =
    if c.listening && ltb (length c.items) c.limit
    then some (record c { items = c.items ++ p ∷ [] })
    else none

send-full : (c : Queue) (p : Payload) → c.limit ≤ length c.items → send c p ≡ none
send-full c p full = ground (arith, full)

instance abbrev list_mpsc : Mpsc
list_mpsc = record {
  Channel = Queue;
  channel = λ n. record { items = []; limit = n; listening = true };
  try_send = send;
  queued = λ c. c.items;
  capacity = λ c. c.limit;
  is_open = λ c. c.listening;
  queued-channel = λ n. refl;
  capacity-channel = λ n. refl;
  is_open-channel = λ n. refl;
  try_send-room = λ c p open_c room. (
    record c { items = c.items ++ p ∷ [] },
    rw (send, open_c, lt→ltb (length c.items) c.limit room) refl,
    refl,
    refl,
    open_c,
  );
  try_send-full = send-full;
  try_send-closed = λ c p closed. rw (send, closed) refl;
}

abbrev stream : QuarterStreamId
stream = record { get = 2 }

abbrev used : Routes
used = register (deliver empty stream (1 ∷ [])) 8

used-Reachable : Reachable used
used-Reachable =
    registered (deliver empty stream (1 ∷ [])) 8 (delivered empty stream (1 ∷ []) start)

Reachable-IsBounded_example : IsBounded used
Reachable-IsBounded_example = Reachable-IsBounded used used-Reachable

abbrev payloads : List Payload
payloads = (1 ∷ []) ∷ (2 ∷ 3 ∷ []) ∷ []

no_active : lookup 8 empty.active ≡ none
unfolding empty
no_active = refl

no_pending : lookup 8 empty.pending ≡ none
unfolding empty
no_pending = refl

room : length empty.pending < 64
unfolding empty
room = omega arith

register-deliver_all_example :
    (c : Queue) × (lookup 8 (register (deliver_all empty stream payloads) 8).active ≡ some c)
    × (c.items ≡ latest payloads)
register-deliver_all_example = register-deliver_all empty stream payloads no_active no_pending room
