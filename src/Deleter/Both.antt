-- ===== src/Deleter/Both.antt =====
-- include/deleter.h: a deleter that another was appended to owns what both owned.
use replica_wbcache.Prelude.{
  ℕ, suc, zero, ◌+◌, ◌<◌, ◌≤◌, ◌≡◌, ◌≢◌, refl, sym, append_assoc, some, List, ◌∷◌, ◌++◌, length,
  length-append, arith,
}
use mathlib.Core.Path.{subst}
use replica_wbcache.Buffer.Links.Chain.{NotIn, Apart, NotIn-right, Apart-one, Apart-none}
use replica_wbcache.Buffer.Links.Roots.{Apart-sym, Apart-tail}
use replica_wbcache.Deleter.{
  Handle, null, at, Event, free_deleter, Impl, Heap, actions_of, append_deleter, destroy, Slot,
  self, next_of,
}
use replica_wbcache.Deleter.Owns.{Owns, owns_null, owns_raw, owns_impl, Apart-left, Apart-right}
use replica_wbcache.Deleter.Destroy.{destroy-runs}
use replica_wbcache.Deleter.Appends.{
  addresses, Ready, Appended, NotIn-head, append_null, append_raw, append_impl,
}

append_loop-Appended :
    (n : ℕ) (slot : Slot) (cur : Handle) (b : ℕ) (this : Handle) (h : Heap) (i : Impl)
    (xs ys : List ℕ) (es ds : List Event)
    → Ready slot cur this h i
    → Owns h.cells cur xs es
    → Owns h.cells (at b) ys ds
    → Apart xs ys
    → Apart (addresses slot) xs
    → Apart (addresses slot) ys
    → NotIn h.top xs
    → NotIn h.top ys
    → NotIn h.top (addresses slot)
    → suc (length xs) < n
    → Appended n slot cur b this h i xs ys (es ++ ds)
append_loop-Appended zero slot cur b this h i xs ys es ds ready cur_owns owns apart ax ay nx ny ns
      enough =
    absurd (omega arith)
append_loop-Appended (suc n) slot cur b this h i xs ys es ds ready owns_null owns apart ax ay nx ny
      ns enough =
    append_null n slot b this h i ys ds ready owns ay
append_loop-Appended (suc zero) slot cur b this h i xs ys es ds ready (owns_raw obj) owns apart ax
      ay nx ny ns enough =
    absurd (omega arith)
append_loop-Appended (suc (suc n)) slot cur b this h i xs ys es ds ready (owns_raw obj) owns apart
      ax ay nx ny ns enough =
    append_raw n slot obj b this h i ys ds ready owns ay ny ns
append_loop-Appended (suc n) slot cur b this h i xs ys es ds ready
      (owns_impl a next payload us vs fs gs found fresh split inner outer) owns apart ax ay nx ny ns
      enough =
    let around = Apart-sym (a ∷ us ++ vs) ys apart in
    let differ : a ≢ b = λ e. (NotIn-head (a ∷ us ++ vs) b ys ds owns apart).0 (sym e) in
    let more =
      append_loop-Appended n (next_of a) next b this h
        (record { refs = 1; next = next; payload = payload }) vs ys gs ds (found, refl) outer owns
        (Apart-sym ys vs
          (Apart-right ys us vs (Apart-sym (us ++ vs) ys (Apart-tail a (us ++ vs) ys apart))))
        (Apart-one a vs (NotIn-right a us vs fresh)) (Apart-one a ys around.0)
        (NotIn-right h.top us vs nx.1) ny (nx.0, tt) (omega (arith, length-append us vs)) in
    let assoc : actions_of payload ++ fs ++ (gs ++ ds) ≡ actions_of payload ++ fs ++ gs ++ ds =
      sym (append_assoc (actions_of payload ++ fs) gs ds) in
    subst (Appended (suc n) slot (at a) b this h i (a ∷ us ++ vs) ys) assoc (
      append_impl n slot a b this h i next payload us vs ys fs gs ds ready found differ ax fresh
        around.0 split
        (Apart-sym ys us
          (Apart-left ys us vs (Apart-sym (us ++ vs) ys (Apart-tail a (us ++ vs) ys apart))))
        nx ns inner more)

-- If two deleters own what they lead to, none of it shared or common to both, and the second is an
-- impl, append with fuel of 3 more than the impls runs nothing, and the destructor of the result
-- runs what the first owned and then what the second owned.
pub append_deleter-runs_both :
    (n : ℕ) (d : Handle) (b : ℕ) (h : Heap) (trace : List Event) (xs ys : List ℕ)
    (es ds : List Event)
    → Owns h.cells d xs es
    → Owns h.cells (at b) ys ds
    → Apart xs ys
    → NotIn h.top xs
    → NotIn h.top ys
    → 3 + length xs + length ys ≤ n
    → (d' : Handle) × (h₁ : Heap) × (h₂ : Heap) × (append_deleter n d (at b) h trace
        ≡ some (d', h₁, trace))
      × (destroy n d' h₁ trace ≡ some (h₂, trace ++ (es ++ ds)))
unfolding append_deleter destroy
append_deleter-runs_both zero d b h trace xs ys es ds owns owns' apart nx ny enough =
    absurd (omega arith)
append_deleter-runs_both (suc n) d b h trace xs ys es ds owns owns' apart nx ny enough =
    let i : Impl = record { refs = 0; next = null; payload = free_deleter 0 } in
    let (d', h₁, c, zs, run, owns₁, filled, _, _, few) =
      append_loop-Appended (suc n) self d b d h i xs ys es ds refl owns owns' apart (Apart-none xs)
        (Apart-none ys) nx ny tt (omega arith) in
    let (h₂, second, _, _) = destroy-runs (suc n) c h₁ trace zs (es ++ ds) owns₁ (omega arith) in
    (d', h₁, h₂, rw run refl, rw filled second)
