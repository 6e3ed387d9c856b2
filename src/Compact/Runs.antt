-- ===== src/Compact/Runs.antt =====
-- include/compact_map.h: any operations on two compact containers against the same on plain ones.
use replica_wbcache.Prelude.{
  ℕ, ◌≡◌, refl, sym, ap, ◌∙◌, inl, inr, Option, none, some, true, ◌==◌, if◌then◌else◌, Bool-cases,
  ==_iff, List, [], ◌∷◌,
}
use mathlib.Core.Path.{subst}
use replica_wbcache.Compact.{
  Container, singular, iterator, alloc_internal, compact_equal, compact_erase, compact_assign,
  compact_emplace,
}
use replica_wbcache.Compact.Ops.{
  Op, emplaces, erases, erase_found, clears, swaps, assigns, erased, went, Compacts, erased_at,
  run_compact, run_std, seen, with_returned, and_then, run_compacts, run_stds, IsCompact, unless,
}
use replica_wbcache.Compact.Looks.{Seen, alloc-Seen, compact_equal-alloc}

module _ {K E C I : Type 0} (std : Container K E C I) (this : ℕ) where
  unless-IsCompact : (c : C) → IsCompact std this (unless std this c)
  unless-IsCompact c = elim (Bool-cases (std.empty c)) [ inl e ↦ rw e tt | inr n ↦ rw n n ]

  unless-alloc : (c : C) → alloc_internal std (unless std this c) ≡ c
  unfolding alloc_internal
  unless-alloc c = elim (Bool-cases (std.empty c)) [
    | inl e ↦ rw e (sym (std.empty_new c e))
    | inr n ↦ rw n refl
  ]

  abbrev plain : Compacts std this → C × C
  plain (m, other) = (alloc_internal std m, alloc_internal std other)

  -- A run returns what the plain one returns, and its containers stand for the plain ones.
  record Tracks {A : Type 0} (run : Option (Compacts std this × A)) (end : (C × C) × A)
      : Type 0 where
    m : Option C
    other : Option C
    runs : run ≡ some ((m, other), end.1)
    here : IsCompact std this m
    there : IsCompact std this other
    same : plain (m, other) ≡ end.0

  -- What erasing by an iterator leaves and returns.
  erased_at-seen :
      (c : C) (i : I) (other : Option C)
      → erased_at std this other
          (if std.empty c then some (none, singular this) else some (some c, iterator this i))
        ≡ some ((unless std this c, other), went (seen std this c i))
  erased_at-seen c i other = elim (Bool-cases (std.empty c)) [
    | inl e ↦ rw e refl
    | inr n ↦ rw n refl
  ]

  run_compact-Tracks :
      (op : Op K E) (m other : Option C)
      → IsCompact std this m
      → IsCompact std this other
      → Tracks (run_compact std this op (m, other)) (run_std std this op (plain (m, other)))
  unfolding run_compact run_std alloc_internal compact_emplace compact_erase compact_assign
  run_compact-Tracks (emplaces e) m other h h' = record {
    m = some (std.emplace e (alloc_internal std m)).0;
    other = other;
    runs = refl;
    here = std.emplace_full e (alloc_internal std m);
    there = h';
    same = refl;
  }
  run_compact-Tracks (erases k) none other h h' = record {
    m = none;
    other = other;
    runs = ap (λ (r : C × ℕ). some ((none, other), erased r.1)) (sym (std.erase_new k));
    here = tt;
    there = h';
    same = ap (λ (r : C × ℕ). (r.0, alloc_internal std other)) (sym (std.erase_new k));
  }
  run_compact-Tracks (erases k) (some c) other h h' =
      let c' = (std.erase_key k c).0 in
      record {
        m = unless std this c';
        other = other;
        runs = refl;
        here = unless-IsCompact c';
        there = h';
        same = ap (λ x. (x, alloc_internal std other)) (unless-alloc c');
      }
  run_compact-Tracks (erase_found k) none other h h' = record {
    m = none;
    other = other;
    runs = rw (std.count_new k) refl;
    here = tt;
    there = h';
    same = rw (std.count_new k) refl;
  }
  run_compact-Tracks (erase_found k) (some c) other h h' =
      let mine : (this == this) ≡ true = (==_iff this this).1 refl in
      let (c', i) = std.erase (std.find k c) c in
      elim (Bool-cases (std.count k c == 0)) [
        | inl absent ↦ record {
          m = some c;
          other = other;
          runs = rw absent refl;
          here = h;
          there = h';
          same = rw absent refl;
        }
        | inr present ↦ record {
          m = unless std this c';
          other = other;
          runs = rw (present, mine) (erased_at-seen c' i other);
          here = unless-IsCompact c';
          there = h';
          same = rw present (ap (λ x. (x, alloc_internal std other)) (unless-alloc c'));
        }
      ]
  run_compact-Tracks clears m other h h' = record {
    m = none;
    other = other;
    runs = refl;
    here = tt;
    there = h';
    same = refl;
  }
  run_compact-Tracks swaps m other h h' = record {
    m = other;
    other = m;
    runs = refl;
    here = h';
    there = h;
    same = refl;
  }
  run_compact-Tracks assigns m none h h' = record {
    m = none;
    other = none;
    runs = refl;
    here = tt;
    there = tt;
    same = refl;
  }
  run_compact-Tracks assigns m (some d) h h' = record {
    m = some d;
    other = some d;
    runs = refl;
    here = h';
    there = h';
    same = refl;
  }

  run_compacts-Tracks :
      (ops : List (Op K E)) (m other : Option C)
      → IsCompact std this m
      → IsCompact std this other
      → Tracks (run_compacts std this ops (m, other)) (run_stds std this ops (plain (m, other)))
  run_compacts-Tracks [] m other h h' = record {
    m = m;
    other = other;
    runs = refl;
    here = h;
    there = h';
    same = refl;
  }
  run_compacts-Tracks (op ∷ ops) m other h h' =
      let first = run_compact-Tracks op m other h h' in
      let rest = run_compacts-Tracks ops first.m first.other first.here first.there in
      record {
        m = rest.m;
        other = rest.other;
        runs =
            ap (λ r. and_then std this r (run_compacts std this ops)) first.runs
            ∙ ap (with_returned std this (run_std std this op (plain (m, other))).1) rest.runs
            ∙ ap
                (λ cs. some (
                  (rest.m, rest.other),
                  (run_std std this op (plain (m, other))).1 ∷ (run_stds std this ops cs).1,
                ))
                first.same;
        here = rest.here;
        there = rest.there;
        same = rest.same ∙ ap (λ cs. (run_stds std this ops cs).0) first.same;
      }

  -- A run that returns what the plain one returns, and leaves containers that are seen as the plain
  -- ones and are allocated only if they hold something.
  pub record Follows {A : Type 0} (run : Option (Compacts std this × A)) (end : (C × C) × A)
      : Type 0 where
    pub m : Option C
    pub other : Option C
    pub runs : run ≡ some ((m, other), end.1)
    pub here : IsCompact std this m
    pub there : IsCompact std this other
    pub seen_here : Seen std this m end.0.0
    pub seen_there : Seen std this other end.0.1
    pub equals : compact_equal std m other ≡ std.equal end.0.0 end.0.1

  -- For a container that keeps its laws, any sequence of emplace, erase by key, erase of what find
  -- finds, clear, swap and assignment on two compact containers, null at first, fails no assertion
  -- and returns, at each operation, what the plain containers return, with an iterator that is
  -- default constructed where an erase emptied the container. It leaves both allocated only if they
  -- hold something; empty, size, count, begin, end, find, lower_bound and upper_bound of both, == of
  -- the two, and whether find gives end() are those of the plain containers.
  pub run_compacts-Seen :
      (ops : List (Op K E))
      → Follows (run_compacts std this ops (none, none)) (run_stds std this ops (std.new, std.new))
  unfolding alloc_internal
  run_compacts-Seen ops =
      let t = run_compacts-Tracks ops none none tt tt in
      record {
        m = t.m;
        other = t.other;
        runs = t.runs;
        here = t.here;
        there = t.there;
        seen_here =
            subst (λ (cs : C × C). Seen std this t.m cs.0) t.same (alloc-Seen std this t.m t.here);
        seen_there =
            subst (λ (cs : C × C). Seen std this t.other cs.1) t.same
              (alloc-Seen std this t.other t.there);
        equals =
            compact_equal-alloc std this t.m t.other
            ∙ ap (λ (cs : C × C). std.equal cs.0 cs.1) t.same;
      }
