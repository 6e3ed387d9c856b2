-- ===== src/Compact/Ops.antt =====
-- include/compact_map.h: what a caller does with two compact containers, and the same on plain ones.
use replica_wbcache.Prelude.{
  ℕ, ◌≡◌, Option, none, some, Bool, false, ◌==◌, if◌then◌else◌, List, [], ◌∷◌,
}
use replica_wbcache.Compact.{
  Container, Iterator, singular, iterator, compact_count, compact_erase, compact_clear,
  compact_swap, compact_assign, compact_emplace, compact_find, erase_iterator,
}

-- A caller's operations; `erase_found` erases by find's iterator, if the key is there, and `swaps`
-- and `assigns` have the other container as their argument.
pub data Op (K E : Type 0) : Type 0 where
  emplaces : E → Op K E
  erases erase_found : K → Op K E
  clears swaps assigns : Op K E

-- What an operation returns
pub data Returned (I : Type 0) : Type 0 where
  emplaced : Iterator I → Bool → Returned I
  erased : ℕ → Returned I
  went : Iterator I → Returned I
  nothing : Returned I

module _ {K E C I : Type 0} (std : Container K E C I) (this : ℕ) where
  abbrev pub Compacts : Type 0
  Compacts = Option C × Option C

  abbrev pub erased_at : Option C → Option (Option C × Iterator I) → Option (Compacts × Returned I)
  erased_at other none = none
  erased_at other (some (m, it)) = some ((m, other), went it)

  -- `none` is a failed assertion, or the use of an iterator that was default constructed.
  unfoldable pub run_compact : Op K E → Compacts → Option (Compacts × Returned I)
  unfolding compact_emplace compact_erase compact_clear compact_count erase_iterator compact_find
      compact_swap compact_assign
  run_compact (emplaces e) (m, other) =
      let (m', it, fresh) = compact_emplace std this e m in some ((m', other), emplaced it fresh)
  run_compact (erases k) (m, other) =
      let (m', r) = compact_erase std k m in some ((m', other), erased r)
  run_compact (erase_found k) (m, other) =
      if compact_count std k m == 0
      then some ((m, other), nothing)
      else erased_at other (erase_iterator std this m (compact_find std this k m))
  run_compact clears (m, other) = some ((compact_clear std m, other), nothing)
  run_compact swaps (m, other) = some (compact_swap std m other, nothing)
  run_compact assigns (m, other) = some ((compact_assign std m other, other), nothing)

  -- A container's iterator, as a compact one has it: none if the container is empty.
  abbrev pub seen : C → I → Iterator I
  seen c i = if std.empty c then singular this else iterator this i

  unfoldable pub run_std : Op K E → C × C → (C × C) × Returned I
  run_std (emplaces e) (c, d) =
      let (c', i, fresh) = std.emplace e c in ((c', d), emplaced (iterator this i) fresh)
  run_std (erases k) (c, d) = let (c', r) = std.erase_key k c in ((c', d), erased r)
  run_std (erase_found k) (c, d) =
      if std.count k c == 0
      then ((c, d), nothing)
      else (let (c', i) = std.erase (std.find k c) c in ((c', d), went (seen c' i)))
  run_std clears (c, d) = ((std.new, d), nothing)
  run_std swaps (c, d) = ((d, c), nothing)
  run_std assigns (c, d) = ((d, d), nothing)

  abbrev pub with_returned :
      Returned I → Option (Compacts × List (Returned I)) → Option (Compacts × List (Returned I))
  with_returned r none = none
  with_returned r (some (ms, rs)) = some (ms, r ∷ rs)

  abbrev pub and_then :
      Option (Compacts × Returned I)
      → (Compacts → Option (Compacts × List (Returned I)))
      → Option (Compacts × List (Returned I))
  and_then none next = none
  and_then (some (ms, r)) next = with_returned r (next ms)

  abbrev pub run_compacts : List (Op K E) → Compacts → Option (Compacts × List (Returned I))
  run_compacts [] ms = some (ms, [])
  run_compacts (op ∷ ops) ms = and_then (run_compact op ms) (run_compacts ops)

  abbrev pub run_stds : List (Op K E) → C × C → (C × C) × List (Returned I)
  run_stds [] cs = (cs, [])
  run_stds (op ∷ ops) cs =
      let (cs', r) = run_std op cs in let (cs'', rs) = run_stds ops cs' in (cs'', r ∷ rs)

  -- A container is allocated only if it holds something.
  abbrev pub IsCompact : Option C → Type 0
  IsCompact none = Unit {0}
  IsCompact (some c) = std.empty c ≡ false

  abbrev pub unless : C → Option C
  unless c = if std.empty c then none else some c
