-- ===== src/Compact.antt =====
-- include/compact_map.h and compact_set.h: containers of the standard library that are allocated
-- only while they hold something. The container is an interface, std::map, std::multimap or
-- std::set; `m_map` is null or a container, and an iterator has the address of its map.
pub mod Std
pub mod Ops
pub mod Looks
pub mod Runs
use replica_wbcache.Prelude.{
  ℕ, ◌≡◌, Option, none, some, Bool, true, false, ◌&&◌, ◌||◌, not, ◌==◌, if◌then◌else◌,
}

-- What the code uses of a container, with the laws that it relies on
pub record Container (K E C I : Type 0) : Type 0 where
  pub new : C
  pub empty : C → Bool
  pub size : C → ℕ
  pub count : K → C → ℕ
  pub equal : C → C → Bool
  pub emplace : E → C → C × I × Bool
  pub erase : I → C → C × I
  pub erase_key : K → C → C × ℕ
  pub begin : C → I
  pub end : C → I
  pub find : K → C → I
  pub lower_bound : K → C → I
  pub upper_bound : K → C → I
  pub same_iterator : I → I → Bool
  pub empty_new : (c : C) → empty c ≡ true → c ≡ new
  pub new_empty : empty new ≡ true
  pub size_new : size new ≡ 0
  pub count_new : (k : K) → count k new ≡ 0
  pub erase_new : (k : K) → erase_key k new ≡ (new, 0)
  pub equal_new : (c : C) → equal new c ≡ empty c
  pub new_equal : (c : C) → equal c new ≡ empty c
  pub emplace_full : (e : E) (c : C) → empty (emplace e c).0 ≡ false
  pub find_end : (k : K) (c : C) → same_iterator (find k c) (end c) ≡ (count k c == 0)

-- `_map` and `_it`, which may be default constructed
pub record Iterator (I : Type 0) : Type 0 where
  pub map : ℕ
  pub it : Option I

abbrev pub singular : {I : Type 0} → ℕ → Iterator I
singular this = record { map = this; it = none }

abbrev pub iterator : {I : Type 0} → ℕ → I → Iterator I
iterator this i = record { map = this; it = some i }

abbrev pub is_null : {C : Type 0} → Option C → Bool
is_null none = true
is_null (some c) = false

module _ {K E C I : Type 0} (std : Container K E C I) where
  unfoldable pub alloc_internal : Option C → C
  alloc_internal none = std.new
  alloc_internal (some c) = c

  -- The iterators' operator==; `none` compares an iterator that was default constructed.
  unfoldable pub iterators_equal : Option C → (a b : Iterator I) → Option Bool
  iterators_equal m a b =
      if a.map == b.map
      then elim m [
        | none ↦ some true
        | some c ↦ elim a.it [
          | none ↦ none
          | some i ↦ elim b.it [ none ↦ none | some j ↦ some (std.same_iterator i j) ]
        ]
      ]
      else some false

  unfoldable pub compact_empty : Option C → Bool
  compact_empty none = true
  compact_empty (some c) = std.empty c

  unfoldable pub compact_size : Option C → ℕ
  compact_size none = 0
  compact_size (some c) = std.size c

  unfoldable pub compact_count : K → Option C → ℕ
  compact_count k none = 0
  compact_count k (some c) = std.count k c

  abbrev both_equal : Option C → Option C → Bool
  both_equal (some c) (some d) = std.equal c d
  both_equal _ _ = false

  unfoldable pub compact_equal : Option C → Option C → Bool
  unfolding compact_empty
  compact_equal m other = (compact_empty m && compact_empty other) || both_equal m other

  abbrev unless_empty : C → Option C
  unless_empty c = if std.empty c then none else some c

  -- `none` is a failed assertion, or an iterator that was default constructed.
  unfoldable pub erase_iterator :
      (this : ℕ) → Option C → Iterator I → Option (Option C × Iterator I)
  erase_iterator this none p = some (none, singular this)
  erase_iterator this (some c) p =
      if this == p.map
      then elim p.it [
        | none ↦ none
        | some i ↦
            let (c', i') = std.erase i c in
            if std.empty c' then some (none, singular this) else some (some c', iterator this i')
      ]
      else none

  unfoldable pub compact_erase : K → Option C → Option C × ℕ
  compact_erase k none = (none, 0)
  compact_erase k (some c) = let (c', r) = std.erase_key k c in (unless_empty c', r)

  unfoldable pub compact_clear : Option C → Option C
  compact_clear m = none

  unfoldable pub compact_swap : Option C → Option C → Option C × Option C
  compact_swap m other = (other, m)

  -- operator= and the copy constructor, whose `m` is null
  unfoldable pub compact_assign : (m other : Option C) → Option C
  compact_assign m none = none
  compact_assign m (some c) = some c

  unfoldable pub compact_emplace : (this : ℕ) → E → Option C → Option C × Iterator I × Bool
  unfolding alloc_internal
  compact_emplace this e m =
      let (c, i, fresh) = std.emplace e (alloc_internal m) in (some c, iterator this i, fresh)

  unfoldable pub compact_begin : (this : ℕ) → Option C → Iterator I
  compact_begin this none = singular this
  compact_begin this (some c) = iterator this (std.begin c)

  unfoldable pub compact_end : (this : ℕ) → Option C → Iterator I
  compact_end this none = singular this
  compact_end this (some c) = iterator this (std.end c)

  unfoldable pub compact_find : (this : ℕ) → K → Option C → Iterator I
  compact_find this k none = singular this
  compact_find this k (some c) = iterator this (std.find k c)

  unfoldable pub compact_lower_bound : (this : ℕ) → K → Option C → Iterator I
  compact_lower_bound this k none = singular this
  compact_lower_bound this k (some c) = iterator this (std.lower_bound k c)

  unfoldable pub compact_upper_bound : (this : ℕ) → K → Option C → Iterator I
  compact_upper_bound this k none = singular this
  compact_upper_bound this k (some c) = iterator this (std.upper_bound k c)
