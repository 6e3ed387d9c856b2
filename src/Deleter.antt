-- ===== src/Deleter.antt =====
-- include/deleter.h: deleters, which run an action when the last of their shares is destroyed.
-- The heap is the impl at each address and the next address that is free; what is run is a trace.
-- `none` is a use of an impl that was freed, or fuel that is used up.
pub mod Owns
pub mod Destroy
pub mod Shares
pub mod Appends
pub mod Both
use Prim.Native.Nat.{suc}
use replica_wbcache.Prelude.{
  ℕ, zero, ◌+◌, ◌-◌, ◌%◌, ◌^◌, Option, none, some, Bool, true, false, List, [], ◌∷◌, ◌++◌, ◌==◌,
  if◌then◌else◌,
}

-- A deleter's `_impl`: null, a raw object by its tag, or an impl.
pub data Handle : Type 0 where
  null : Handle
  raw_object at : ℕ → Handle

-- What the destructors do: `std::free`, a lambda's call, and an object's destructor.
pub data Event : Type 0 where
  freed called destroyed : ℕ → Event

-- The classes that derive from impl, with what they carry
pub data Payload : Type 0 where
  lambda_deleter free_deleter object_deleter : ℕ → Payload
  deleter_object : Handle → Payload

pub record Impl : Type 0 where
  pub refs : ℕ
  pub next : Handle
  pub payload : Payload

pub record Heap : Type 0 where
  pub cells : ℕ → Option Impl
  pub top : ℕ

abbrev pub update : (ℕ → Option Impl) → ℕ → Option Impl → ℕ → Option Impl
update cells p v a = if a == p then v else cells a

abbrev pub store_impl : Heap → ℕ → Option Impl → Heap
store_impl h a v = record h { cells = update h.cells a v }

-- `new`, at an address that was not used before
unfoldable pub new_impl : Impl → Heap → Handle × Heap
new_impl i h = (at h.top, record { cells = update h.cells h.top (some i); top = h.top + 1 })

unfoldable pub form_raw_object : ℕ → Handle
form_raw_object object = raw_object (object - object % 2)

-- The destructor's own body, or that of the member
abbrev pub actions_of : Payload → List Event
actions_of (lambda_deleter f) = called f ∷ []
actions_of (free_deleter obj) = freed obj ∷ []
actions_of (object_deleter obj) = destroyed obj ∷ []
actions_of (deleter_object d) = []

-- The deleter that is a member of the derived class
abbrev pub member : Payload → Handle
member (deleter_object d) = d
member _ = null

abbrev pub then_run {ℓ} :
    {A : Type ℓ} → Option (Heap × List Event) → (Heap → List Event → Option A) → Option A
then_run none k = none
then_run (some (h, trace)) k = k h trace

abbrev pub with_impl {ℓ} : {A : Type ℓ} → Option Impl → (Impl → Option A) → Option A
with_impl none k = none
with_impl (some i) k = k i

-- `--refs` of an atomic_uint
abbrev pub minus_one : ℕ → ℕ
minus_one refs = (refs + (2 ^ 32 - 1)) % 2 ^ 32

-- ~deleter, with `delete _impl`: the derived class's body and members, then the base's `next`
unfoldable pub destroy : (fuel : ℕ) → Handle → Heap → List Event → Option (Heap × List Event)
destroy zero d h trace = none
destroy (suc n) null h trace = some (h, trace)
destroy (suc n) (raw_object obj) h trace = some (h, trace ++ freed obj ∷ [])
destroy (suc n) (at a) h trace = with_impl (h.cells a) (λ i.
    let refs' = minus_one i.refs in
    let h' = store_impl h a (some (record i { refs = refs' })) in
    let deleted =
      then_run (destroy n (member i.payload) h' (trace ++ actions_of i.payload)) (λ h₁ trace₁.
        then_run (destroy n i.next h₁ trace₁) (λ h₂ trace₂. some (store_impl h₂ a none, trace₂))) in
    if refs' == 0 then deleted else some (h', trace))

-- The deleter itself afterwards, the one that is returned, and the heap
unfoldable pub share : Handle → Heap → Option (Handle × Handle × Heap)
unfolding new_impl
share null h = some (null, null, h)
share (raw_object obj) h =
    let i : Impl = record { refs = (1 + 1) % 2 ^ 32; next = null; payload = free_deleter obj } in
    let (d, h') = new_impl i h in some (d, d, h')
share (at a) h =
    with_impl (h.cells a)
      (λ i. some (at a, at a, store_impl h a (some (record i { refs = (i.refs + 1) % 2 ^ 32 }))))

unfoldable pub make_free_deleter : ℕ → Handle
unfolding form_raw_object
make_free_deleter obj = if obj == 0 then null else form_raw_object obj

unfoldable pub make_deleter : (next : Handle) → Payload → Heap → Handle × Heap
unfolding new_impl
make_deleter next payload h = new_impl (record { refs = 1; next = next; payload = payload }) h

-- Where `next_d` points: to the deleter itself, or to the `next` of an impl
pub data Slot : Type 0 where
  self : Slot
  next_of : ℕ → Slot

-- `next_d->_impl = v`, for the deleter `this` and the heap
abbrev pub put : Slot → Handle → Handle → Heap → Option (Handle × Heap)
put self v this h = some (v, h)
put (next_of p) v this h =
    with_impl (h.cells p) (λ i. some (this, store_impl h p (some (record i { next = v }))))

abbrev pub same_handle : Handle → Handle → Bool
same_handle null null = true
same_handle (raw_object x) (raw_object y) = x == y
same_handle (at a) (at b) = a == b
same_handle _ _ = false

abbrev then_put {ℓ} : {A : Type ℓ} → Option (Handle × Heap) → (Handle → Heap → Option A) → Option A
then_put none k = none
then_put (some (this, h)) k = k this h

-- The loop of append: the deleter itself, what is left in `d`, and the heap
unfoldable pub append_loop :
    (fuel : ℕ) → Slot → (next_impl d this : Handle) → Heap → Option (Handle × Handle × Heap)
unfolding new_impl
append_loop zero slot next_impl d this h = none
append_loop (suc n) slot null d this h =
    then_put (put slot d this h) (λ this' h'. some (this', null, h'))
append_loop (suc n) slot (raw_object obj) d this h =
    if same_handle (raw_object obj) d
    then some (this, d, h)
    else then_put
        (put slot (at h.top) this
          (new_impl (record { refs = 1; next = null; payload = free_deleter obj }) h).1)
        (λ this' h'. append_loop n (next_of h.top) null d this' h')
append_loop (suc n) slot (at a) d this h =
    if same_handle (at a) d
    then some (this, d, h)
    else with_impl (h.cells a) (λ i.
      if i.refs == 1
      then append_loop n (next_of a) i.next d this h
      else let h₁ = store_impl h a (some (record i { next = null })) in
        let shared : Impl = record { refs = 1; next = i.next; payload = deleter_object (at a) } in
        then_put (put slot (at h.top) this (new_impl shared h₁).1)
          (λ this' h'. append_loop n (next_of h.top) i.next d this' h'))

abbrev pub then_append {ℓ} :
    {A : Type ℓ} → Option (Handle × Handle × Heap) → (Handle → Handle → Heap → Option A) → Option A
then_append none k = none
then_append (some (this, d, h)) k = k this d h

-- append, whose parameter is destroyed when it returns
unfoldable pub append_deleter :
    (fuel : ℕ) → (this d : Handle) → Heap → List Event → Option (Handle × Heap × List Event)
unfolding append_loop destroy
append_deleter n this null h trace = some (this, h, trace)
append_deleter n this d h trace =
    then_append (append_loop n self this d this h)
      (λ this' d' h'. then_run (destroy n d' h' trace) (λ h'' trace'. some (this', h'', trace')))

-- operator=(deleter&&) from another deleter: what `this` held is destroyed, and `other` is null.
unfoldable pub assign :
    (fuel : ℕ)
    → (this other : Handle) → Heap
    → List Event
    → Option (Handle × Handle × Heap × List Event)
unfolding destroy
assign n this other h trace =
    then_run (destroy n this h trace) (λ h' trace'. some (other, null, h', trace'))
