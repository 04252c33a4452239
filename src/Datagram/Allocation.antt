-- ===== src/Datagram/Allocation.antt =====
-- Context ids as one endpoint allocates them, call after call.
use skimasque.Prelude.{ℕ, zero, suc, ◌+◌, ◌*◌, ◌≤◌, ◌<◌, ltb, if◌then◌else◌}
use skimasque.Prelude.{Option, none, some, ◌≡◌, ◌∙◌, ap, refl, sym, arith, lt→ltb, le→ltb, false}
use native.Mathlib.Decide.{dec_lt}
use skimasque.Varint
use skimasque.Datagram.{
  ContextId, Allocator, client, proxy, allocator, is_default, ContextAllocator, new_allocator,
  allocate,
}

-- The state after `n` calls, and what the call after those returns.
unfoldable pub after : Allocator → ℕ → ContextAllocator
after who zero = new_allocator who
after who (suc n) = (allocate (after who n)).1

pub allocated : Allocator → ℕ → Option ContextId
allocated who n = (allocate (after who n)).0

abbrev pub first : Allocator → ℕ
first client = 2
first proxy = 1

allocate_open :
    (a : ContextAllocator)
    → a.next ≤ Varint.max
    → ((allocate a).0 ≡ some (record { get = a.next })) × ((allocate a).1.next ≡ a.next + 2)
unfolding allocate
allocate_open a h = ground arith

allocate_closed :
    (a : ContextAllocator) → Varint.max < a.next → ((allocate a).0 ≡ none) × ((allocate a).1 ≡ a)
unfolding allocate
allocate_closed a h = ground arith

first_bounds : (who : Allocator) → (1 ≤ first who) × (first who ≤ 2)
first_bounds client = omega arith
first_bounds proxy = omega arith

-- Until the space is used up the counter is two further after each call; then it stands.
data Counter (who : Allocator) (n : ℕ) (a : ContextAllocator) : Type 0 where
  counting : a.next ≡ first who + 2 * n → a.next ≤ Varint.max + 2 → Counter who n a
  used_up : Varint.max < a.next → Varint.max < first who + 2 * n → Counter who n a

Counter-step :
    (who : Allocator) (n : ℕ) (a : ContextAllocator)
    → Counter who n a
    → Counter who (suc n) (allocate a).1
Counter-step who n a (counting at bound) = elim (dec_lt Varint.max a.next) [
  | yes over ↦ let (_, same) = allocate_closed a over in rw same (used_up over (omega arith))
  | no room ↦ let (_, next) = allocate_open a (omega arith) in counting (omega arith) (omega arith)
]
Counter-step who n a (used_up over passed) =
    let (_, same) = allocate_closed a over in rw same (used_up over (omega arith))

Counter-after : (who : Allocator) (n : ℕ) → Counter who n (after who n)
unfolding after new_allocator
Counter-after client zero = counting refl (omega arith)
Counter-after proxy zero = counting refl (omega arith)
Counter-after who (suc n) = Counter-step who n (after who n) (Counter-after who n)

-- For a client and for a proxy, the call of `ContextAllocator::allocate` after `n` others on a new
-- allocator returns the first id, 2 or 1, plus `2 * n` while that is up to the varint maximum, and
-- nothing after that.
pub allocated_lem :
    (who : Allocator) (n : ℕ)
    → allocated who n ≡ (
        if ltb Varint.max (first who + 2 * n)
        then none
        else some (record { get = first who + 2 * n }))
unfolding allocated
allocated_lem who n = by_counter (Counter-after who n)
  where
    by_counter :
        Counter who n (after who n)
        → (allocate (after who n)).0 ≡ (
            if ltb Varint.max (first who + 2 * n)
            then none
            else some (record { get = first who + 2 * n }))
    by_counter (counting at bound) = elim (dec_lt Varint.max (first who + 2 * n)) [
      | yes over ↦ rw (lt→ltb _ _ over) (allocate_closed (after who n) (omega arith)).0
      | no room ↦ rw (le→ltb Varint.max (first who + 2 * n) (omega arith)) (
          (allocate_open (after who n) (omega arith)).0
          ∙ ap (λ (k : ℕ). some (let i : ContextId = record { get = k } in i)) at)
    ]
    by_counter (used_up over passed) =
        rw (lt→ltb Varint.max (first who + 2 * n) passed) (allocate_closed (after who n) over).0

parity : (who : Allocator) (n : ℕ) → allocator (record { get = first who + 2 * n }) ≡ some who
unfolding allocator
parity client n = ground arith
parity proxy n = ground arith

allocated_value :
    (who : Allocator) (n : ℕ) (id : ContextId)
    → allocated who n ≡ some id
    → (id ≡ record { get = first who + 2 * n }) × (first who + 2 * n ≤ Varint.max)
allocated_value who n id e = ground (arith, allocated_lem who n)

same_call :
    (who other : Allocator) (n m : ℕ)
    → first who + 2 * n ≡ first other + 2 * m
    → (other ≡ who) × (m ≡ n)
same_call client client n m e = (refl, omega arith)
same_call client proxy n m e = absurd (omega arith)
same_call proxy client n m e = absurd (omega arith)
same_call proxy proxy n m e = (refl, omega arith)

-- An allocated id belongs to the endpoint that allocates, is a varint, and is not the reserved
-- context; neither endpoint ever returns it in another call.
pub allocated_own :
    (who other : Allocator) (n m : ℕ) (id : ContextId)
    → allocated who n ≡ some id
    → (allocator id ≡ some who)
      × (id.get ≤ Varint.max)
      × (is_default id ≡ false)
      × (allocated other m ≡ some id → (other ≡ who) × (m ≡ n))
allocated_own who other n m id e =
    let (value, fits) = allocated_value who n id e in
    (
      rw value (parity who n),
      rw value fits,
      rw value (unfold is_default in ground (arith, first_bounds who)),
      λ f.
          let (value', _) = allocated_value other m id f in
          same_call who other n m (ap (λ (i : ContextId). i.get) (sym value ∙ value')),
    )
