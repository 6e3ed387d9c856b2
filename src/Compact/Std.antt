-- ===== src/Compact/Std.antt =====
-- std::set of numbers, as the sequence of its elements in order, with positions for iterators: a
-- container that compact_set may hold.
use replica_wbcache.Prelude.{
  ℕ, zero, suc, ◌≡◌, refl, Bool, true, false, List, [], ◌∷◌, ltb, leb, ◌==◌, if◌then◌else◌, inl,
  inr, Bool-cases, length, arith,
}
use replica_wbcache.Compact.{Container}

abbrev pub count_of : ℕ → List ℕ → ℕ
count_of k [] = 0
count_of k (x ∷ xs) = if x == k then suc (count_of k xs) else count_of k xs

-- The position of the first element that is not below `k`, and of the first above it
abbrev pub lower : ℕ → List ℕ → ℕ
lower k [] = 0
lower k (x ∷ xs) = if ltb x k then suc (lower k xs) else 0

abbrev pub upper : ℕ → List ℕ → ℕ
upper k [] = 0
upper k (x ∷ xs) = if leb x k then suc (upper k xs) else 0

abbrev pub position : ℕ → List ℕ → ℕ
position k [] = 0
position k (x ∷ xs) = if x == k then 0 else suc (position k xs)

abbrev pub remove_at : ℕ → List ℕ → List ℕ
remove_at i [] = []
remove_at zero (x ∷ xs) = xs
remove_at (suc i) (x ∷ xs) = x ∷ remove_at i xs

abbrev pub remove_key : ℕ → List ℕ → List ℕ × ℕ
remove_key k [] = ([], 0)
remove_key k (x ∷ xs) = let (ys, r) = remove_key k xs in if x == k then (ys, suc r) else (x ∷ ys, r)

-- In order, if it is not there
abbrev pub add : ℕ → List ℕ → List ℕ × ℕ × Bool
add e [] = (e ∷ [], 0, true)
add e (x ∷ xs) =
    let (ys, i, fresh) = add e xs in
    if e == x
    then (x ∷ xs, 0, false)
    else if ltb e x
    then (e ∷ x ∷ xs, 0, true)
    else (x ∷ ys, suc i, fresh)

abbrev pub is_nil : List ℕ → Bool
is_nil [] = true
is_nil (x ∷ xs) = false

abbrev pub equal_lists : List ℕ → List ℕ → Bool
equal_lists [] [] = true
equal_lists (x ∷ xs) (y ∷ ys) = if x == y then equal_lists xs ys else false
equal_lists _ _ = false

pub is_nil-new : (c : List ℕ) → is_nil c ≡ true → c ≡ []
is_nil-new [] e = refl
is_nil-new (x ∷ xs) e = ground arith

pub nil-equal : (c : List ℕ) → equal_lists [] c ≡ is_nil c
nil-equal [] = refl
nil-equal (x ∷ xs) = refl

pub equal-nil : (c : List ℕ) → equal_lists c [] ≡ is_nil c
equal-nil [] = refl
equal-nil (x ∷ xs) = refl

pub add-full : (e : ℕ) (c : List ℕ) → is_nil (add e c).0 ≡ false
add-full e [] = refl
add-full e (x ∷ xs) = elim (Bool-cases (e == x)) [
  | inl same ↦ rw same refl
  | inr differs ↦ elim (Bool-cases (ltb e x)) [
    | inl lt ↦ rw (differs, lt) refl
    | inr ge ↦ rw (differs, ge) refl
  ]
]

pub position-end : (k : ℕ) (c : List ℕ) → (position k c == length c) ≡ (count_of k c == 0)
position-end k [] = refl
position-end k (x ∷ xs) = elim (Bool-cases (x == k)) [
  | inl same ↦ rw same (ground arith)
  | inr differs ↦ rw differs (ground (arith, position-end k xs))
]

abbrev pub set_of_numbers : Container ℕ ℕ (List ℕ) ℕ
set_of_numbers = record {
  new = [];
  empty = is_nil;
  size = length;
  count = count_of;
  equal = equal_lists;
  emplace = add;
  erase = λ i c. (remove_at i c, i);
  erase_key = remove_key;
  begin = λ c. 0;
  end = length;
  find = position;
  lower_bound = lower;
  upper_bound = upper;
  same_iterator = λ i j. i == j;
  empty_new = is_nil-new;
  new_empty = refl;
  size_new = refl;
  count_new = λ k. refl;
  erase_new = λ k. refl;
  equal_new = nil-equal;
  new_equal = equal-nil;
  emplace_full = add-full;
  find_end = position-end;
}
