-- ===== src/Examples/Containers.antt =====
-- Compact containers (include/compact_map.h) at concrete inputs.
use replica_wbcache.Prelude.{ℕ, ◌≡◌, refl, none, some, true, List, [], ◌∷◌}
use replica_wbcache.Compact.{
  compact_lower_bound, compact_upper_bound, compact_erase, erase_iterator, singular, iterator,
  iterators_equal,
}
use replica_wbcache.Compact.Std.{set_of_numbers}
use replica_wbcache.Compact.Ops.{
  Op, emplaces, erases, erase_found, clears, swaps, assigns, emplaced, erased, went, nothing,
  run_compact, run_compacts, run_stds,
}
use replica_wbcache.Compact.Runs.{Follows, run_compacts-Seen}

-- An element is copied, a second one is added, and both are erased from the copy.
abbrev ops : List (Op ℕ ℕ)
ops =
    emplaces 5
    ∷ swaps
    ∷ assigns
    ∷ emplaces 3
    ∷ erase_found 3
    ∷ erase_found 5
    ∷ erases 4
    ∷ clears
    ∷ []

run_compacts-Seen_example :
    Follows set_of_numbers 7
      (run_compacts set_of_numbers 7 ops (none, none))
      (run_stds set_of_numbers 7 ops ([], []))
run_compacts-Seen_example = run_compacts-Seen set_of_numbers 7 ops

run_ops_run :
    run_compacts set_of_numbers 7 ops (none, none)
    ≡ some (
      (none, some (5 ∷ [])),
      emplaced (iterator 7 0) true
          ∷ nothing
          ∷ nothing
          ∷ emplaced (iterator 7 0) true
          ∷ went (iterator 7 0)
          ∷ went (singular 7)
          ∷ erased 0
          ∷ nothing
          ∷ [],
    )
unfolding run_compact
run_ops_run = refl

emptied_run : compact_erase set_of_numbers 5 (some (5 ∷ [])) ≡ (none, 1)
unfolding compact_erase
emptied_run = refl

-- An iterator of another container fails the assertion.
foreign_run : erase_iterator set_of_numbers 7 (some (5 ∷ [])) (iterator 8 0) ≡ none
unfolding erase_iterator
foreign_run = refl

bounds_run :
    iterators_equal set_of_numbers
      (some (3 ∷ 5 ∷ []))
      (compact_lower_bound set_of_numbers 7 4 (some (3 ∷ 5 ∷ [])))
      (compact_upper_bound set_of_numbers 7 3 (some (3 ∷ 5 ∷ [])))
    ≡ some true
unfolding iterators_equal compact_lower_bound compact_upper_bound
bounds_run = refl
