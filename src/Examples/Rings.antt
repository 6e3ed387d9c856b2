-- ===== src/Examples/Rings.antt =====
-- Rings of hooks (include/buffer/buffer_list.h) at concrete inputs.
use replica_wbcache.Prelude.{◌≡◌, refl, List, [], ◌∷◌, some, arith}
use replica_wbcache.Buffer.Links.{
  Memory, Buffers, store_next, splice_back, swap_buffers, nodes_from,
}
use replica_wbcache.Buffer.Links.Chain.{IsRing}
use replica_wbcache.Buffer.Links.Steps.{Op, back, front, after, erase, run_ops, run_ops-refine}
use replica_wbcache.Buffer.Links.Joins.{splice_back-IsRing}
use replica_wbcache.Buffer.Links.Pairs.{swap_buffers-IsRing}

-- A ring at 100 with the nodes 1 and 2, one at 200 with the node 3.
abbrev memory : Memory
memory =
    store_next (store_next (store_next (store_next (store_next (λ a. 0) 100 1) 1 2) 2 100) 200 3) 3
      200

abbrev two : Buffers
two = record { root = 100; tail = 2 }

abbrev one : Buffers
one = record { root = 200; tail = 3 }

two-IsRing : IsRing memory two (1 ∷ 2 ∷ [])
two-IsRing = record { path = (refl, (refl, refl)); ends = refl; distinct = omega arith }

one-IsRing : IsRing memory one (3 ∷ [])
one-IsRing = record { path = (refl, refl); ends = refl; distinct = omega arith }

abbrev ops : List Op
ops = back 4 ∷ front 5 ∷ after 1 6 ∷ erase 6 ∷ []

run_ops-refine_example :
    IsRing (run_ops ops (two, memory)).1 (run_ops ops (two, memory)).0 (5 ∷ 1 ∷ 6 ∷ 4 ∷ [])
    × (nodes_from 4
          (run_ops ops (two, memory)).0.root
          ((run_ops ops (two, memory)).1 (run_ops ops (two, memory)).0.root)
          (run_ops ops (two, memory)).1
        ≡ some (5 ∷ 1 ∷ 6 ∷ 4 ∷ []))
run_ops-refine_example =
    run_ops-refine ops two memory (1 ∷ 2 ∷ []) (5 ∷ 1 ∷ 6 ∷ 4 ∷ []) two-IsRing (
      1 ∷ 2 ∷ 4 ∷ [],
      (omega arith, refl),
      (
        5 ∷ 1 ∷ 2 ∷ 4 ∷ [],
        (omega arith, refl),
        (
          5 ∷ 1 ∷ 6 ∷ 2 ∷ 4 ∷ [],
          (5 ∷ 1 ∷ [], 2 ∷ 4 ∷ [], refl, refl, omega arith, refl),
          (5 ∷ 1 ∷ 6 ∷ 4 ∷ [], (5 ∷ 1 ∷ 6 ∷ [], 4 ∷ [], 2, refl, refl, refl), refl),
        ),
      ),
    )

splice_back-IsRing_example :
    IsRing (splice_back two one memory).2 (splice_back two one memory).0 (1 ∷ 2 ∷ 3 ∷ [])
    × IsRing (splice_back two one memory).2 (splice_back two one memory).1 []
splice_back-IsRing_example =
    splice_back-IsRing memory two one (1 ∷ 2 ∷ []) (3 ∷ []) two-IsRing one-IsRing (omega arith)

swap_buffers-IsRing_example :
    IsRing (swap_buffers two one memory).2 (swap_buffers two one memory).0 (3 ∷ [])
    × IsRing (swap_buffers two one memory).2 (swap_buffers two one memory).1 (1 ∷ 2 ∷ [])
swap_buffers-IsRing_example =
    swap_buffers-IsRing memory two one (1 ∷ 2 ∷ []) (3 ∷ []) two-IsRing one-IsRing (omega arith)
