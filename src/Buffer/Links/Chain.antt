-- ===== src/Buffer/Links/Chain.antt =====
-- What a ring of hooks holds: paths of `next` through distinct addresses.
use replica_wbcache.Prelude.{ℕ, ◌≡◌, ◌≢◌, refl, sym, ◌∙◌, List, [], ◌∷◌, ◌++◌, arith}
use replica_wbcache.Buffer.Links.{Memory, Buffers, store_next}

-- The last of `a` and what follows it.
abbrev pub last : ℕ → List ℕ → ℕ
last a [] = a
last a (x ∷ xs) = last x xs

-- From `a` the links lead through `xs` to `e`.
abbrev pub IsPath : Memory → ℕ → List ℕ → ℕ → Type 0
IsPath h a [] e = h a ≡ e
IsPath h a (x ∷ xs) e = (h a ≡ x) × IsPath h x xs e

abbrev pub NotIn : ℕ → List ℕ → Type 0
NotIn x [] = Unit {0}
NotIn x (y ∷ ys) = (x ≢ y) × NotIn x ys

abbrev pub Distinct : List ℕ → Type 0
Distinct [] = Unit {0}
Distinct (x ∷ xs) = NotIn x xs × Distinct xs

-- The list `l` stands in memory and holds the nodes `xs`.
pub record IsRing (h : Memory) (l : Buffers) (xs : List ℕ) : Type 0 where
  pub path : IsPath h l.root xs l.root
  pub ends : l.tail ≡ last l.root xs
  pub distinct : Distinct (l.root ∷ xs)

pub last-append : (a : ℕ) (xs ys : List ℕ) → last a (xs ++ ys) ≡ last (last a xs) ys
last-append a [] ys = refl
last-append a (x ∷ xs) ys = last-append x xs ys

pub NotIn-append : (x : ℕ) (ys zs : List ℕ) → NotIn x ys → NotIn x zs → NotIn x (ys ++ zs)
NotIn-append x [] zs p q = q
NotIn-append x (y ∷ ys) zs p q = (p.0, NotIn-append x ys zs p.1 q)

pub NotIn-left : (x : ℕ) (ys zs : List ℕ) → NotIn x (ys ++ zs) → NotIn x ys
NotIn-left x [] zs p = tt
NotIn-left x (y ∷ ys) zs p = (p.0, NotIn-left x ys zs p.1)

pub NotIn-right : (x : ℕ) (ys zs : List ℕ) → NotIn x (ys ++ zs) → NotIn x zs
NotIn-right x [] zs p = p
NotIn-right x (y ∷ ys) zs p = NotIn-right x ys zs p.1

pub Distinct-left : (xs ys : List ℕ) → Distinct (xs ++ ys) → Distinct xs
Distinct-left [] ys d = tt
Distinct-left (x ∷ xs) ys d = (NotIn-left x xs ys d.0, Distinct-left xs ys d.1)

pub Distinct-right : (xs ys : List ℕ) → Distinct (xs ++ ys) → Distinct ys
Distinct-right [] ys d = d
Distinct-right (x ∷ xs) ys d = Distinct-right xs ys d.1

-- An address more in the middle, and one less.
pub Distinct-insert :
    (x : ℕ) (xs ys : List ℕ) → Distinct (xs ++ ys) → NotIn x (xs ++ ys) → Distinct (xs ++ x ∷ ys)
Distinct-insert x [] ys d fresh = (fresh, d)
Distinct-insert x (z ∷ xs) ys d fresh = (
  NotIn-append z xs (x ∷ ys) (NotIn-left z xs ys d.0)
      (λ e. fresh.0 (sym e), NotIn-right z xs ys d.0),
  Distinct-insert x xs ys d.1 fresh.1,
)

pub Distinct-erase : (x : ℕ) (xs ys : List ℕ) → Distinct (xs ++ x ∷ ys) → Distinct (xs ++ ys)
Distinct-erase x [] ys d = d.1
Distinct-erase x (z ∷ xs) ys d = (
  NotIn-append z xs ys (NotIn-left z xs (x ∷ ys) d.0) (NotIn-right z xs (x ∷ ys) d.0).1,
  Distinct-erase x xs ys d.1,
)

-- The erased address is none of the others.
pub NotIn-erase : (x : ℕ) (xs ys : List ℕ) → Distinct (xs ++ x ∷ ys) → NotIn x xs
NotIn-erase x [] ys d = tt
NotIn-erase x (z ∷ xs) ys d =
    (λ e. (NotIn-right z xs (x ∷ ys) d.0).0 (sym e), NotIn-erase x xs ys d.1)

pub NotIn-last : (x a : ℕ) (xs : List ℕ) → NotIn x (a ∷ xs) → x ≢ last a xs
NotIn-last x a [] p = p.0
NotIn-last x a (y ∷ ys) p = NotIn-last x y ys p.1

pub last-NotIn : (a : ℕ) (xs ys : List ℕ) → Distinct ((a ∷ xs) ++ ys) → NotIn (last a xs) ys
last-NotIn a [] ys d = d.0
last-NotIn a (x ∷ xs) ys d = last-NotIn x xs ys d.1

-- None of `ys` is one of `cs`.
abbrev pub Apart : List ℕ → List ℕ → Type 0
Apart cs [] = Unit {0}
Apart cs (y ∷ ys) = NotIn y cs × Apart cs ys

pub Apart-none : (ys : List ℕ) → Apart [] ys
Apart-none [] = tt
Apart-none (y ∷ ys) = (tt, Apart-none ys)

pub Apart-one : (c : ℕ) (ys : List ℕ) → NotIn c ys → Apart (c ∷ []) ys
Apart-one c [] n = tt
Apart-one c (y ∷ ys) n = ((λ e. n.0 (sym e), tt), Apart-one c ys n.1)

pub Apart-cons : (c : ℕ) (cs ys : List ℕ) → NotIn c ys → Apart cs ys → Apart (c ∷ cs) ys
Apart-cons c cs [] n rest = tt
Apart-cons c cs (y ∷ ys) n rest = ((λ e. n.0 (sym e), rest.0), Apart-cons c cs ys n.1 rest.1)

-- The same nodes behind another address that leads where `a` led, if the memory changes at `cs`
-- only.
pub IsPath-move :
    (h h' : Memory) (cs : List ℕ)
    → ((y : ℕ) → NotIn y cs → h' y ≡ h y)
    → (a b : ℕ) (xs : List ℕ) (e : ℕ) → h' b ≡ h a
    → Apart cs xs
    → IsPath h a xs e
    → IsPath h' b xs e
IsPath-move h h' cs keep a b [] e same apart p = same ∙ p
IsPath-move h h' cs keep a b (x ∷ xs) e same apart p =
    (same ∙ p.0, IsPath-move h h' cs keep x x xs e (keep x apart.0) apart.1 p.1)

-- The same nodes with another end, if the memory changes at `cs` and the last of them only.
pub IsPath-turn :
    (h h' : Memory) (cs : List ℕ) (a : ℕ) (xs : List ℕ) (e e' : ℕ)
    → ((y : ℕ) → y ≢ last a xs → NotIn y cs → h' y ≡ h y)
    → h' (last a xs) ≡ e'
    → Apart cs (a ∷ xs)
    → Distinct (a ∷ xs)
    → IsPath h a xs e
    → IsPath h' a xs e'
IsPath-turn h h' cs a [] e e' keep out apart d p = out
IsPath-turn h h' cs a (x ∷ xs) e e' keep out apart d p = (
  keep a (NotIn-last a x xs d.0) apart.0 ∙ p.0,
  IsPath-turn h h' cs x xs e e' keep out apart.1 d.1 p.1,
)

pub IsPath-join :
    (h : Memory) (a : ℕ) (xs ys : List ℕ) (c e : ℕ)
    → IsPath h a xs c
    → IsPath h (last a xs) ys e
    → IsPath h a (xs ++ ys) e
IsPath-join h a [] ys c e p q = q
IsPath-join h a (x ∷ xs) ys c e p q = (p.0, IsPath-join h x xs ys c e p.1 q)

pub IsPath-front :
    (h : Memory) (a : ℕ) (xs ys : List ℕ) (e : ℕ)
    → IsPath h a (xs ++ ys) e
    → IsPath h a xs (h (last a xs))
IsPath-front h a [] ys e p = refl
IsPath-front h a (x ∷ xs) ys e p = (p.0, IsPath-front h x xs ys e p.1)

pub IsPath-behind :
    (h : Memory) (a : ℕ) (xs ys : List ℕ) (e : ℕ)
    → IsPath h a (xs ++ ys) e
    → IsPath h (last a xs) ys e
IsPath-behind h a [] ys e p = p
IsPath-behind h a (x ∷ xs) ys e p = IsPath-behind h x xs ys e p.1

-- What a store of a link leaves.
pub store_next-at : (h : Memory) (p v : ℕ) → store_next h p v p ≡ v
store_next-at h p v = ground arith

pub store_next-off : (h : Memory) (p v y : ℕ) → y ≢ p → store_next h p v y ≡ h y
store_next-off h p v y n = ground arith
