-- ===== src/Deleter/Shares.antt =====
-- include/deleter.h: what the shares of a deleter run.
use replica_wbcache.Prelude.{
  ℕ, suc, zero, ◌+◌, ◌<◌, ◌≡◌, refl, sym, ap, append-nil, some, List, [], ◌∷◌, ◌++◌, length,
  length-append, arith,
}
use replica_wbcache.Buffer.Links.Chain.{NotIn, Apart, NotIn-left, NotIn-right, Apart-one}
use replica_wbcache.Deleter.{
  Handle, null, at, Event, Payload, free_deleter, Impl, Heap, update, store_impl, actions_of,
  member, destroy, share,
}
use replica_wbcache.Deleter.Owns.{Owns, owns_null, owns_raw, owns_impl, Keeps, Owns-Keeps}
use replica_wbcache.Deleter.Destroy.{update_self, update-Keeps, destroy-runs}

-- An impl that two deleters share: the first that goes runs nothing, the second everything.
twice-runs :
    (n : ℕ) (h : Heap) (trace : List Event) (a : ℕ) (next : Handle) (payload : Payload)
    (xs ys : List ℕ) (es fs : List Event)
    → h.cells a ≡ some (record { refs = 2; next = next; payload = payload })
    → NotIn a (xs ++ ys)
    → Apart xs ys
    → Owns h.cells (member payload) xs es
    → Owns h.cells next ys fs
    → suc (length (xs ++ ys)) < n
    → (h₁ : Heap) × (h₂ : Heap) × (destroy n (at a) h trace ≡ some (h₁, trace))
      × (destroy n (at a) h₁ trace ≡ some (h₂, trace ++ (actions_of payload ++ es ++ fs)))
unfolding destroy
twice-runs zero h trace a next payload xs ys es fs found fresh split inner outer enough =
    absurd (omega arith)
twice-runs (suc n) h trace a next payload xs ys es fs found fresh split inner outer enough =
    let i : Impl = record { refs = 1; next = next; payload = payload } in
    let h₁ : Heap = store_impl h a (some i) in
    let kept : Keeps (a ∷ []) h.cells h₁.cells = update-Keeps h.cells a (some i) in
    let inside =
      Owns-Keeps (a ∷ []) (member payload) xs es kept (Apart-one a xs (NotIn-left a xs ys fresh))
        inner in
    let outside =
      Owns-Keeps (a ∷ []) next ys fs kept (Apart-one a ys (NotIn-right a xs ys fresh)) outer in
    let owns : Owns h₁.cells (at a) (a ∷ xs ++ ys) (actions_of payload ++ es ++ fs) =
      owns_impl a next payload xs ys es fs (update_self h.cells a (some i)) fresh split inside
        outside in
    let (h₂, run₂, _, _) =
      destroy-runs (suc n) (at a) h₁ trace (a ∷ xs ++ ys) (actions_of payload ++ es ++ fs) owns
        enough in
    (h₁, h₂, rw found refl, run₂)

-- If a deleter owns what it leads to, and the fuel exceeds the number of its impls by 2, share
-- gives two deleters alike; the destructor of one runs nothing, and that of the other then runs
-- everything that was owned, once and in order.
pub share-runs_once :
    (n : ℕ) (d : Handle) (h : Heap) (trace : List Event) (xs : List ℕ) (es : List Event)
    → Owns h.cells d xs es
    → suc (length xs) < n
    → (d' : Handle) × (h₁ : Heap) × (h₂ : Heap) × (h₃ : Heap) × (share d h ≡ some (d', d', h₁))
      × (destroy n d' h₁ trace ≡ some (h₂, trace))
      × (destroy n d' h₂ trace ≡ some (h₃, trace ++ es))
unfolding destroy share
share-runs_once zero d h trace xs es owns enough = absurd (omega arith)
share-runs_once (suc n) d h trace xs es owns_null enough =
    (null, h, h, h, refl, refl, ap (λ (t : List Event). some (h, t)) (sym (append-nil trace)))
share-runs_once (suc n) d h trace xs es (owns_raw obj) enough =
    let i : Impl = record { refs = 2; next = null; payload = free_deleter obj } in
    let h₁ : Heap = record { cells = update h.cells h.top (some i); top = h.top + 1 } in
    let (h₂, h₃, first, second) =
      twice-runs (suc n) h₁ trace h.top null (free_deleter obj) [] [] [] []
        (update_self h.cells h.top (some i)) tt tt owns_null owns_null enough in
    (at h.top, h₁, h₂, h₃, refl, first, second)
share-runs_once (suc n) d h trace xs es
      (owns_impl a next payload xs' ys fs gs found fresh split inner outer) enough =
    let i : Impl = record { refs = 2; next = next; payload = payload } in
    let h₁ : Heap = store_impl h a (some i) in
    let kept : Keeps (a ∷ []) h.cells h₁.cells = update-Keeps h.cells a (some i) in
    let inside =
      Owns-Keeps (a ∷ []) (member payload) xs' fs kept (Apart-one a xs' (NotIn-left a xs' ys fresh))
        inner in
    let outside =
      Owns-Keeps (a ∷ []) next ys gs kept (Apart-one a ys (NotIn-right a xs' ys fresh)) outer in
    let (h₂, h₃, first, second) =
      twice-runs (suc n) h₁ trace a next payload xs' ys fs gs (update_self h.cells a (some i)) fresh
        split inside outside (omega (arith, length-append xs' ys)) in
    (at a, h₁, h₂, h₃, rw found refl, first, second)
