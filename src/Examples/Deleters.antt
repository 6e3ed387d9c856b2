-- ===== src/Examples/Deleters.antt =====
-- Deleters (include/deleter.h) at concrete inputs.
use replica_wbcache.Prelude.{ℕ, ◌≡◌, ◌≢◌, refl, Option, some, none, List, [], ◌∷◌, arith}
use replica_wbcache.Deleter.{
  Handle, null, raw_object, at, Event, called, freed, lambda_deleter, Impl, Heap, update,
  make_deleter, make_free_deleter, share, append_deleter, assign, destroy, then_append,
}
use replica_wbcache.Deleter.Owns.{Owns, owns_null, owns_raw, owns_impl}
use replica_wbcache.Deleter.Destroy.{destroy-runs, Gone}
use replica_wbcache.Deleter.Shares.{share-runs_once}
use replica_wbcache.Deleter.Both.{append_deleter-runs_both}

abbrev no_impls : Heap
no_impls = record { cells = λ a. none; top = 0 }

-- A lambda in front of a raw object
abbrev one : Impl
one = record { refs = 1; next = raw_object 64; payload = lambda_deleter 1 }

abbrev two : Impl
two = record { refs = 1; next = null; payload = lambda_deleter 2 }

abbrev heap : Heap
heap = record { cells = update (update (λ a. none) 0 (some one)) 1 (some two); top = 2 }

one-Owns : Owns heap.cells (at 0) (0 ∷ []) (called 1 ∷ freed 64 ∷ [])
one-Owns =
    owns_impl 0 (raw_object 64) (lambda_deleter 1) [] [] [] (freed 64 ∷ []) refl tt tt owns_null
      (owns_raw 64)

two-Owns : Owns heap.cells (at 1) (1 ∷ []) (called 2 ∷ [])
two-Owns = owns_impl 1 null (lambda_deleter 2) [] [] [] [] refl tt tt owns_null owns_null

destroy-runs_example :
    (h' : Heap) × (destroy 2 (at 0) heap [] ≡ some (h', called 1 ∷ freed 64 ∷ []))
    × ((a : ℕ) → (a ≢ 0) × Unit {0} → h'.cells a ≡ heap.cells a)
    × Gone h'.cells (0 ∷ [])
destroy-runs_example =
    destroy-runs 2 (at 0) heap [] (0 ∷ []) (called 1 ∷ freed 64 ∷ []) one-Owns (omega arith)

share-runs_once_example :
    (d' : Handle) × (h₁ : Heap) × (h₂ : Heap) × (h₃ : Heap) × (share (at 0) heap
      ≡ some (d', d', h₁))
    × (destroy 3 d' h₁ [] ≡ some (h₂, []))
    × (destroy 3 d' h₂ [] ≡ some (h₃, called 1 ∷ freed 64 ∷ []))
share-runs_once_example =
    share-runs_once 3 (at 0) heap [] (0 ∷ []) (called 1 ∷ freed 64 ∷ []) one-Owns (omega arith)

append_deleter-runs_both_example :
    (d' : Handle) × (h₁ : Heap) × (h₂ : Heap) × (append_deleter 5 (at 0) (at 1) heap []
      ≡ some (d', h₁, []))
    × (destroy 5 d' h₁ [] ≡ some (h₂, called 1 ∷ freed 64 ∷ called 2 ∷ []))
append_deleter-runs_both_example =
    append_deleter-runs_both 5 (at 0) 1 heap [] (0 ∷ []) (1 ∷ []) (called 1 ∷ freed 64 ∷ [])
      (called 2 ∷ []) one-Owns two-Owns ((λ e. absurd (omega arith), tt), tt)
      (λ e. absurd (omega arith), tt) (λ e. absurd (omega arith), tt) (omega arith)

abbrev trace_of : {A : Type 0} → Option (A × List Event) → Option (List Event)
trace_of none = none
trace_of (some (x, trace)) = some trace

make_free_deleter_run :
    trace_of (destroy 2 (make_free_deleter 64) no_impls []) ≡ some (freed 64 ∷ [])
unfolding make_free_deleter destroy
make_free_deleter_run = refl

-- A deleter of two actions, shared, to one share of which a third is appended: when that share
-- goes, the second action runs, though the other share is there.
abbrev chain : Handle × Heap
chain =
    let (second, h) = make_deleter null (lambda_deleter 2) no_impls in
    make_deleter second (lambda_deleter 1) h

append_shared_run :
    trace_of (
      then_append (share chain.0 chain.1) (λ mine yours h.
        let (third, h') = make_deleter null (lambda_deleter 3) h in
        elim (append_deleter 9 mine third h' []) [
          | none ↦ none
          | some (mine', h'', trace) ↦ destroy 9 mine' h'' trace
        ]))
    ≡ some (called 2 ∷ called 3 ∷ [])
unfolding make_deleter share append_deleter destroy
append_shared_run = refl

assign_run :
    trace_of (elim (assign 3 (at 0) (at 1) heap []) [
      | none ↦ none
      | some (d, other, h, trace) ↦ destroy 3 d h trace
    ])
    ≡ some (called 1 ∷ freed 64 ∷ called 2 ∷ [])
unfolding assign destroy
assign_run = refl
