-- ===== src/Compact/Looks.antt =====
-- include/compact_map.h: what a compact container looks like, against the plain one.
use replica_wbcache.Prelude.{
  ℕ, ◌≡◌, refl, sym, ap, ◌∙◌, inl, inr, Option, none, some, true, ◌==◌, Bool-cases, ==_iff,
}
use replica_wbcache.Compact.{
  Container, alloc_internal, compact_empty, compact_size, compact_count, compact_equal,
  compact_begin, compact_find, compact_end, compact_lower_bound, compact_upper_bound,
  iterators_equal,
}
use replica_wbcache.Compact.Ops.{seen, IsCompact}

module _ {K E C I : Type 0} (std : Container K E C I) (this : ℕ) where
  -- What a caller sees of a compact container is what it sees of the plain one.
  pub record Seen (m : Option C) (c : C) : Type 0 where
    pub empty : compact_empty std m ≡ std.empty c
    pub size : compact_size std m ≡ std.size c
    pub count : (k : K) → compact_count std k m ≡ std.count k c
    pub begin : compact_begin std this m ≡ seen std this c (std.begin c)
    pub end : compact_end std this m ≡ seen std this c (std.end c)
    pub find : (k : K) → compact_find std this k m ≡ seen std this c (std.find k c)
    pub lower : (k : K) → compact_lower_bound std this k m ≡ seen std this c (std.lower_bound k c)
    pub upper : (k : K) → compact_upper_bound std this k m ≡ seen std this c (std.upper_bound k c)
    pub finds :
        (k : K)
        → iterators_equal std m (compact_find std this k m) (compact_end std this m)
          ≡ some (std.count k c == 0)

  pub alloc-Seen : (m : Option C) → IsCompact std this m → Seen m (alloc_internal std m)
  unfolding alloc_internal compact_empty compact_size compact_count compact_find compact_end
      compact_begin compact_lower_bound compact_upper_bound iterators_equal
  alloc-Seen none h =
      let mine : (this == this) ≡ true = (==_iff this this).1 refl in
      record {
        empty = sym std.new_empty;
        size = sym std.size_new;
        count = λ k. sym (std.count_new k);
        begin = rw std.new_empty refl;
        end = rw std.new_empty refl;
        find = λ k. rw std.new_empty refl;
        lower = λ k. rw std.new_empty refl;
        upper = λ k. rw std.new_empty refl;
        finds = λ k. rw (mine, std.count_new k) refl;
      }
  alloc-Seen (some c) h =
      let mine : (this == this) ≡ true = (==_iff this this).1 refl in
      record {
        empty = refl;
        size = refl;
        count = λ k. refl;
        begin = rw h refl;
        end = rw h refl;
        find = λ k. rw h refl;
        lower = λ k. rw h refl;
        upper = λ k. rw h refl;
        finds = λ k. rw mine (ap some (std.find_end k c));
      }

  pub compact_equal-alloc :
      (m n : Option C)
      → compact_equal std m n ≡ std.equal (alloc_internal std m) (alloc_internal std n)
  unfolding alloc_internal compact_equal compact_empty
  compact_equal-alloc none none = sym (std.equal_new std.new ∙ std.new_empty)
  compact_equal-alloc none (some d) = elim (Bool-cases (std.empty d)) [
    | inl e ↦ rw (std.equal_new d, e) refl
    | inr e ↦ rw (std.equal_new d, e) refl
  ]
  compact_equal-alloc (some c) none = elim (Bool-cases (std.empty c)) [
    | inl e ↦ rw (std.new_equal c, e) refl
    | inr e ↦ rw (std.new_equal c, e) refl
  ]
  compact_equal-alloc (some c) (some d) = elim (Bool-cases (std.empty c)) [
    | inr e ↦ rw e refl
    | inl e ↦ elim (Bool-cases (std.empty d)) [
      | inr f ↦ rw (e, f) refl
      | inl f ↦ rw (e, f) (sym (ap (λ x. std.equal x d) (std.empty_new c e) ∙ std.equal_new d ∙ f))
    ]
  ]
