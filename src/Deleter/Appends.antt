-- ===== src/Deleter/Appends.antt =====
-- include/deleter.h: what the loop of append does to a slot, for each thing that the slot may hold.
use replica_wbcache.Prelude.{
  ℕ, suc, ◌+◌, ◌<◌, ◌≡◌, ◌≢◌, refl, sym, ap, ◌∙◌, inl, inr, Option, some, false, List, [], ◌∷◌,
  ◌++◌, ◌==◌, Bool-cases, ==_iff, length, length-append, arith,
}
use replica_wbcache.Buffer.Links.Chain.{
  NotIn, Apart, NotIn-append, NotIn-left, NotIn-right, Apart-one, Apart-none, Apart-cons,
}
use replica_wbcache.Buffer.Links.Roots.{Apart-sym}
use replica_wbcache.Deleter.{
  Handle, null, raw_object, at, Event, freed, Payload, free_deleter, Impl, Heap, update, store_impl,
  actions_of, member, append_loop, put, Slot, self, next_of,
}
use replica_wbcache.Deleter.Owns.{Owns, owns_null, owns_impl, Keeps, Owns-Keeps, Apart-right}
use replica_wbcache.Deleter.Destroy.{update_self, update-Keeps}

abbrev pub addresses : Slot → List ℕ
addresses self = []
addresses (next_of p) = p ∷ []

-- The slot, in the impl `i` if it is one's `next`, holds `cur`.
abbrev pub Ready : Slot → (cur this : Handle) → Heap → Impl → Type 0
Ready self cur this h i = this ≡ cur
Ready (next_of p) cur this h i = (h.cells p ≡ some i) × (i.next ≡ cur)

-- What was put there
abbrev pub Filled : Slot → (cur this this' : Handle) → Heap → Impl → Type 0
Filled self cur this this' h i = this' ≡ cur
Filled (next_of p) cur this this' h i =
    (this' ≡ this) × (h.cells p ≡ some (record i { next = cur }))

put-fills :
    (slot : Slot) (v cur this : Handle) (h : Heap) (i : Impl)
    → Ready slot cur this h i
    → (this' : Handle) × (h' : Heap) × (put slot v this h ≡ some (this', h'))
      × Filled slot v this this' h' i
      × Keeps (addresses slot) h.cells h'.cells
put-fills self v cur this h i ready = (v, h, refl, refl, λ a out. refl)
put-fills (next_of p) v cur this h i ready = (
  this,
  store_impl h p (some (record i { next = v })),
  rw ready.0 refl,
  (refl, update_self h.cells p (some (record i { next = v }))),
  update-Keeps h.cells p (some (record i { next = v })),
)

-- A slot that the changes do not touch
Ready-Keeps :
    (slot : Slot) (cur this : Handle) (h h' : Heap) (i : Impl) (cs : List ℕ)
    → Keeps cs h.cells h'.cells
    → Apart cs (addresses slot)
    → Ready slot cur this h i
    → Ready slot cur this h' i
Ready-Keeps self cur this h h' i cs keep apart ready = ready
Ready-Keeps (next_of p) cur this h h' i cs keep apart ready = (keep p apart.0 ∙ ready.0, ready.1)

Filled-Keeps :
    (slot : Slot) (cur this this' : Handle) (h h' : Heap) (i : Impl) (cs : List ℕ)
    → Keeps cs h.cells h'.cells
    → Apart cs (addresses slot)
    → Filled slot cur this this' h i
    → Filled slot cur this this' h' i
Filled-Keeps self cur this this' h h' i cs keep apart filled = filled
Filled-Keeps (next_of p) cur this this' h h' i cs keep apart filled =
    (filled.0, keep p apart.0 ∙ filled.1)

Ready→Filled :
    (slot : Slot) (cur this : Handle) (h : Heap) (i : Impl)
    → Ready slot cur this h i
    → Filled slot cur this this h i
Ready→Filled self cur this h i ready = ready
Ready→Filled (next_of p) cur this h i ready =
    (refl, ready.0 ∙ ap (λ d. some (record i { next = d })) ready.1)

-- The head of what is apart
pub NotIn-head :
    {cells : ℕ → Option Impl} (xs : List ℕ) (b : ℕ) (ys : List ℕ) (es : List Event)
    → Owns cells (at b) ys es
    → Apart xs ys
    → NotIn b xs
NotIn-head xs b ys es (owns_impl b' next payload us vs fs gs found fresh split inner outer) apart =
    apart.0

Apart-join : (cs ds ys : List ℕ) → Apart cs ys → Apart ds ys → Apart (cs ++ ds) ys
Apart-join cs ds [] p q = tt
Apart-join cs ds (y ∷ ys) p q = (NotIn-append y cs ds p.0 q.0, Apart-join cs ds ys p.1 q.1)

-- What is in none of the parts is in nothing that they cover.
Apart-within :
    (zs vs ys us : List ℕ) (top : ℕ)
    → ((x : ℕ) → NotIn x vs → NotIn x ys → x ≢ top → NotIn x zs)
    → Apart vs us
    → Apart ys us
    → NotIn top us
    → Apart zs us
Apart-within zs vs ys [] top within p q out = tt
Apart-within zs vs ys (u ∷ us) top within p q out =
    (within u p.0 q.0 (λ e. out.0 (sym e)), Apart-within zs vs ys us top within p.1 q.1 out.1)

-- What the loop does from a slot that holds `cur` on
abbrev pub Appended :
    (n : ℕ) (slot : Slot) (cur : Handle) (b : ℕ) (this : Handle) (h : Heap) (i : Impl)
    (xs ys : List ℕ) (es : List Event)
    → Type 0
Appended n slot cur b this h i xs ys es =
    (this' : Handle) × (h' : Heap) × (c : Handle) × (zs : List ℕ) × (append_loop n slot cur (at b)
        this h
      ≡ some (this', null, h'))
    × Owns h'.cells c zs es
    × Filled slot c this this' h' i
    × Keeps (addresses slot ++ (xs ++ h.top ∷ [])) h.cells h'.cells
    × ((x : ℕ) → NotIn x xs → NotIn x ys → x ≢ h.top → NotIn x zs)
    × (length zs < 2 + length xs + length ys)

pub append_null :
    (n : ℕ) (slot : Slot) (b : ℕ) (this : Handle) (h : Heap) (i : Impl) (ys : List ℕ)
    (es : List Event)
    → Ready slot null this h i
    → Owns h.cells (at b) ys es
    → Apart (addresses slot) ys
    → Appended (suc n) slot null b this h i [] ys es
unfolding append_loop
append_null n slot b this h i ys es ready owns apart =
    let (this', h', run, filled, keep) = put-fills slot (at b) null this h i ready in
    (
      this',
      h',
      at b,
      ys,
      rw run refl,
      Owns-Keeps (addresses slot) (at b) ys es keep apart owns,
      filled,
      λ x out. keep x (NotIn-left x (addresses slot) (h.top ∷ []) out),
      λ x _ out _. out,
      omega arith,
    )

pub append_raw :
    (n : ℕ) (slot : Slot) (obj b : ℕ) (this : Handle) (h : Heap) (i : Impl) (ys : List ℕ)
    (es : List Event)
    → Ready slot (raw_object obj) this h i
    → Owns h.cells (at b) ys es
    → Apart (addresses slot) ys
    → NotIn h.top ys
    → NotIn h.top (addresses slot)
    → Appended (suc (suc n)) slot (raw_object obj) b this h i [] ys (freed obj ∷ [] ++ es)
unfolding append_loop
append_raw n slot obj b this h i ys es ready owns apart fresh new =
    let made : Impl = record { refs = 1; next = null; payload = free_deleter obj } in
    let h₁ : Heap = record { cells = update h.cells h.top (some made); top = h.top + 1 } in
    let kept : Keeps (h.top ∷ []) h.cells h₁.cells = update-Keeps h.cells h.top (some made) in
    let ready₁ =
      Ready-Keeps slot (raw_object obj) this h h₁ i (h.top ∷ []) kept
        (Apart-one h.top (addresses slot) new) ready in
    let (this', h₂, run, filled, keep) =
      put-fills slot (at h.top) (raw_object obj) this h₁ i ready₁ in
    let there : h₂.cells h.top ≡ some made =
      keep h.top new ∙ update_self h.cells h.top (some made) in
    let h₃ : Heap = store_impl h₂ h.top (some (record made { next = at b })) in
    let last = update-Keeps h₂.cells h.top (some (record made { next = at b })) in
    let all : Keeps (addresses slot ++ h.top ∷ []) h.cells h₃.cells = λ x out.
      last x (NotIn-right x (addresses slot) (h.top ∷ []) out)
      ∙ keep x (NotIn-left x (addresses slot) (h.top ∷ []) out)
      ∙ kept x (NotIn-right x (addresses slot) (h.top ∷ []) out) in
    (
      this',
      h₃,
      at h.top,
      h.top ∷ ys,
      rw (run, there) refl,
      owns_impl h.top (at b) (free_deleter obj) [] ys [] es
          (update_self h₂.cells h.top (some (record made { next = at b }))) fresh (Apart-none ys)
          owns_null
          (Owns-Keeps (addresses slot ++ h.top ∷ []) (at b) ys es all
            (Apart-join (addresses slot) (h.top ∷ []) ys apart (Apart-one h.top ys fresh)) owns),
      Filled-Keeps slot (at h.top) this this' h₂ h₃ i (h.top ∷ []) last
          (Apart-one h.top (addresses slot) new) filled,
      all,
      λ x _ out ne. (ne, out),
      omega arith,
    )

pub append_impl :
    (n : ℕ) (slot : Slot) (a b : ℕ) (this : Handle) (h : Heap) (i : Impl) (next : Handle)
    (payload : Payload) (us vs ys : List ℕ) (fs gs es : List Event)
    → Ready slot (at a) this h i
    → h.cells a ≡ some (record { refs = 1; next = next; payload = payload })
    → a ≢ b
    → Apart (addresses slot) (a ∷ us ++ vs)
    → NotIn a (us ++ vs)
    → NotIn a ys
    → Apart us vs
    → Apart us ys
    → NotIn h.top (a ∷ us ++ vs)
    → NotIn h.top (addresses slot)
    → Owns h.cells (member payload) us fs
    → Appended n
        (next_of a)
        next
        b
        this
        h
        (record { refs = 1; next = next; payload = payload })
        vs
        ys
        (gs ++ es)
    → Appended
        (suc n)
        slot
        (at a)
        b
        this
        h
        i
        (a ∷ us ++ vs)
        ys
        (actions_of payload ++ fs ++ (gs ++ es))
unfolding append_loop
append_impl n slot a b this h i next payload us vs ys fs gs es ready found differ apart fresh fresh'
      split split' new new' inner (this', h', c, zs, run, owns, filled, keep, within, few) =
    let other : (a == b) ≡ false = elim (Bool-cases (a == b)) [
      | inl eq ↦ absurd (differ ((==_iff a b).0 eq))
      | inr ne ↦ ne
    ] in
    let out_of : (x : ℕ)
        → NotIn x (addresses slot ++ ((a ∷ us ++ vs) ++ h.top ∷ []))
        → NotIn x (a ∷ (vs ++ h.top ∷ [])) =
      λ x out.
        let r = NotIn-right x (addresses slot) ((a ∷ us ++ vs) ++ h.top ∷ []) out in
        (
          r.0,
          NotIn-append x vs (h.top ∷ [])
              (NotIn-right x us vs (NotIn-left x (us ++ vs) (h.top ∷ []) r.1))
              (NotIn-right x (us ++ vs) (h.top ∷ []) r.1),
        ) in
    let aside : Apart (a ∷ (vs ++ h.top ∷ [])) us =
      Apart-cons a (vs ++ h.top ∷ []) us (NotIn-left a us vs fresh) (
        Apart-join vs (h.top ∷ []) us (Apart-sym us vs split)
          (Apart-one h.top us (NotIn-left h.top us vs new.1))) in
    let beside : Apart (a ∷ (vs ++ h.top ∷ [])) (addresses slot) =
      Apart-cons a (vs ++ h.top ∷ []) (addresses slot) apart.0 (
        Apart-join vs (h.top ∷ []) (addresses slot)
          (Apart-sym (addresses slot) vs (Apart-right (addresses slot) us vs apart.1))
          (Apart-one h.top (addresses slot) new')) in
    let us_zs = Apart-sym zs us (
      Apart-within zs vs ys us h.top within (Apart-sym us vs split) (Apart-sym us ys split')
        (NotIn-left h.top us vs new.1)) in
    (
      this',
      h',
      at a,
      a ∷ us ++ zs,
      rw (other, found) run,
      owns_impl a c payload us zs fs (gs ++ es) filled.1
          (NotIn-append a us zs (NotIn-left a us vs fresh)
            (within a (NotIn-right a us vs fresh) fresh' (λ e. new.0 (sym e))))
          us_zs (Owns-Keeps (a ∷ (vs ++ h.top ∷ [])) (member payload) us fs keep aside inner) owns,
      rw filled.0 (
          Filled-Keeps slot (at a) this this h h' i (a ∷ (vs ++ h.top ∷ [])) keep beside
            (Ready→Filled slot (at a) this h i ready)),
      λ x out. keep x (out_of x out),
      λ x out out' ne. (
        out.0,
        NotIn-append x us zs (NotIn-left x us vs out.1)
            (within x (NotIn-right x us vs out.1) out' ne),
      ),
      omega (arith, length-append us zs, length-append us vs),
    )
