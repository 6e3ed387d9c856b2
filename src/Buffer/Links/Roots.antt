-- ===== src/Buffer/Links/Roots.antt =====
-- A ring's nodes under another root, and addresses of two rings.
use replica_wbcache.Prelude.{
  ℕ, ◌≡◌, ◌≢◌, refl, sym, ◌∙◌, List, [], ◌∷◌, ◌++◌, ◌==◌, ==_iff, if◌then◌else◌,
}
use replica_wbcache.Buffer.Links.{Memory}
use replica_wbcache.Buffer.Links.Chain.{
  last, IsPath, NotIn, Distinct, NotIn-append, NotIn-last, Apart, IsPath-turn,
}
use replica_wbcache.Buffer.Links.Ops.{ne→false}

abbrev pub first : ℕ → List ℕ → ℕ
first e [] = e
first e (x ∷ xs) = x

-- What a ring's root links to, and its tail, for another root `q`.
pub first_link :
    (h : Memory) (r q : ℕ) (ys : List ℕ)
    → IsPath h r ys r
    → NotIn r ys
    → (if h r == r then q else h r) ≡ first q ys
first_link h r q [] p n = rw ((==_iff (h r) r).1 p) refl
first_link h r q (y ∷ ys) p n = rw (ne→false (h r) r (λ e. n.0 (sym e ∙ p.0))) p.0

pub last_tail :
    (t r q : ℕ) (ys : List ℕ) → t ≡ last r ys → NotIn r ys → (if t == r then q else t) ≡ last q ys
last_tail t r q [] e n = rw ((==_iff t r).1 e) refl
last_tail t r q (y ∷ ys) e n = rw (ne→false t r (λ s. NotIn-last r y ys n (sym s ∙ e))) e

pub NotIn-Apart : (x : ℕ) (cs ys : List ℕ) → Apart (x ∷ cs) ys → NotIn x ys
NotIn-Apart x cs [] a = tt
NotIn-Apart x cs (y ∷ ys) a = (λ e. a.0.0 (sym e), NotIn-Apart x cs ys a.1)

pub Apart-tail : (x : ℕ) (cs ys : List ℕ) → Apart (x ∷ cs) ys → Apart cs ys
Apart-tail x cs [] a = tt
Apart-tail x cs (y ∷ ys) a = (a.0.1, Apart-tail x cs ys a.1)

pub Apart-sym : (cs ys : List ℕ) → Apart cs ys → Apart ys cs
Apart-sym [] ys a = tt
Apart-sym (c ∷ cs) ys a = (NotIn-Apart c cs ys a, Apart-sym cs ys (Apart-tail c cs ys a))

pub Apart-last : (cs : List ℕ) (a : ℕ) (xs : List ℕ) → Apart cs (a ∷ xs) → NotIn (last a xs) cs
Apart-last cs a [] p = p.0
Apart-last cs a (x ∷ xs) p = Apart-last cs x xs p.1

pub Distinct-append :
    (xs ys : List ℕ) → Distinct xs → Distinct ys → Apart ys xs → Distinct (xs ++ ys)
Distinct-append [] ys p q a = q
Distinct-append (x ∷ xs) ys p q a = (NotIn-append x xs ys p.0 a.0, Distinct-append xs ys p.1 q a.1)

-- The nodes `ys` of the ring at `r`, under another root `q` that links to the first of them and to
-- which the last of them links.
pub rerooted :
    (h k : Memory) (cs : List ℕ) (r q : ℕ) (ys : List ℕ)
    → IsPath h r ys r
    → Distinct (r ∷ ys)
    → k q ≡ first q ys
    → k (last q ys) ≡ q
    → ((z : ℕ) → z ≢ last q ys → NotIn z cs → k z ≡ h z)
    → Apart cs ys
    → IsPath k q ys q
rerooted h k cs r q [] p d enters leaves keep apart = leaves
rerooted h k cs r q (y ∷ ys) p d enters leaves keep apart =
    (enters, IsPath-turn h k cs y ys r q keep leaves apart d.1 p.1)

pub first-last : (q : ℕ) (ys : List ℕ) → NotIn q ys → q ≡ last q ys → first q ys ≡ q
first-last q [] n e = refl
first-last q (y ∷ ys) n e = absurd (NotIn-last q y ys n e)
