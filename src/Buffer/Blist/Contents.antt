-- ===== src/Buffer/Blist/Contents.antt =====
-- The bytes of a list, and when a list is well formed.
use replica_wbcache.Prelude.{
  ℕ, ◌<◌, ◌≡◌, ◌≢◌, refl, sym, ap, ◌∙◌, Option, none, some, List, [], ◌∷◌, ◌++◌, append-nil,
  append_assoc, arith, length, get_elem?, take, drop,
}
use replica_wbcache.Buffer.Store.{Store}
use replica_wbcache.Buffer.Ptr.{Ptr, end}
use replica_wbcache.Buffer.Ptr.Access.{
  IsWindow, bytes, data_of, raw_bytes, Preserves, IsBefore, keep-IsWindow, keep-bytes,
}
use replica_wbcache.Buffer.Blist.{Node, Blist, find_node, set_node, last?}

-- The bytes that the nodes of a list hold, in order.
abbrev pub contents : Store → List Node → List ℕ
contents s [] = []
contents s (n ∷ ns) = bytes s n.bptr ++ contents s ns

abbrev pub All : (Node → Type 0) → List Node → Type 0
All P [] = Unit {0}
All P (n ∷ ns) = P n × All P ns

abbrev pub IsDistinct : List Node → Type 0
IsDistinct [] = Unit {0}
IsDistinct (n ∷ ns) = All (λ m. m.id ≢ n.id) ns × IsDistinct ns

-- The tail of a node's raw buffer belongs to that node: no node of the list reaches behind it.
abbrev pub IsBehind : Ptr → Node → Type 0
IsBehind p n = (i : ℕ) → p.m_raw ≡ some i → IsBefore i (end p) n.bptr

-- The cached node is one of the list, and owns the tail of its raw buffer.
abbrev pub IsCached : Option ℕ → List Node → Type 0
IsCached none ns = Unit {0}
IsCached (some i) ns = (p : Ptr) × (find_node i ns ≡ some p) × All (IsBehind p) ns

pub record IsChain (s : Store) (ns : List Node) : Type 0 where
  pub windows : All (λ n. IsWindow s n.bptr) ns
  pub fresh : All (λ n. n.id < s.next_node) ns
  pub distinct : IsDistinct ns

pub record IsList (s : Store) (l : Blist) : Type 0 where
  pub chain : IsChain s l.buffers
  pub tail : IsCached l.cache l.buffers
  pub counted : l.len ≡ length (contents s l.buffers)
  pub numbered : l.num ≡ length l.buffers

module _ (P : Node → Type 0) where
  pub All-append : (xs ys : List Node) → All P xs → All P ys → All P (xs ++ ys)
  All-append [] ys h k = k
  All-append (x ∷ xs) ys h k = (h.0, All-append xs ys h.1 k)

  pub All-left : (xs ys : List Node) → All P (xs ++ ys) → All P xs
  All-left [] ys h = tt
  All-left (x ∷ xs) ys h = (h.0, All-left xs ys h.1)

  pub All-right : (xs ys : List Node) → All P (xs ++ ys) → All P ys
  All-right [] ys h = h
  All-right (x ∷ xs) ys h = All-right xs ys h.1

  pub All-mono :
      (Q : Node → Type 0) (ns : List Node) → ((n : Node) → P n → Q n) → All P ns → All Q ns
  All-mono Q [] f h = tt
  All-mono Q (n ∷ ns) f h = (f n h.0, All-mono Q ns f h.1)

pub contents-append :
    (s : Store) (xs ys : List Node) → contents s (xs ++ ys) ≡ contents s xs ++ contents s ys
contents-append s [] ys = refl
contents-append s (x ∷ xs) ys =
    ap (λ zs. bytes s x.bptr ++ zs) (contents-append s xs ys)
    ∙ sym (append_assoc (bytes s x.bptr) (contents s xs) (contents s ys))

pub contents-snoc :
    (s : Store) (xs : List Node) (n : Node)
    → contents s (xs ++ n ∷ []) ≡ contents s xs ++ bytes s n.bptr
contents-snoc s xs n =
    contents-append s xs (n ∷ []) ∙ ap (λ zs. contents s xs ++ zs) (append-nil (bytes s n.bptr))

-- A change of the store that no window reaches keeps the bytes of a list.
module _ {i k : ℕ} {s s' : Store} (kept : Preserves i k s s') where
  pub keep-windows :
      (ns : List Node) → All (λ n. IsWindow s n.bptr) ns → All (λ n. IsWindow s' n.bptr) ns
  keep-windows ns =
      All-mono (λ n. IsWindow s n.bptr) (λ n. IsWindow s' n.bptr) ns (λ n w. keep-IsWindow kept w)

  pub keep-contents :
      (ns : List Node)
      → All (λ n. IsWindow s n.bptr) ns
      → All (λ n. IsBefore i k n.bptr) ns
      → contents s' ns ≡ contents s ns
  keep-contents [] w b = refl
  keep-contents (n ∷ ns) w b = rw (keep-bytes kept w.0 b.0, keep-contents ns w.1 b.1)

-- A node with a new address keeps the addresses distinct.
pub snoc-IsDistinct :
    (xs : List Node) (n : Node)
    → IsDistinct xs
    → All (λ m. m.id < n.id) xs
    → IsDistinct (xs ++ n ∷ [])
snoc-IsDistinct [] n d f = (tt, tt)
snoc-IsDistinct (x ∷ xs) n d f = (
  All-append (λ m. m.id ≢ x.id) xs (n ∷ []) d.0 ((λ e. absurd (omega (arith, f.0))), tt),
  snoc-IsDistinct xs n d.1 f.1,
)

-- The last of distinct nodes differs from those before it.
pub snoc_apart : (xs : List Node) (n : Node) → IsDistinct (xs ++ n ∷ []) → All (λ m. m.id ≢ n.id) xs
snoc_apart [] n d = tt
snoc_apart (x ∷ xs) n d =
    (λ e. (All-right (λ m. m.id ≢ x.id) xs (n ∷ []) d.0).0 (sym e), snoc_apart xs n d.1)

-- The bytes behind the last node may change; its address may not.
pub snoc_same-IsDistinct :
    (xs : List Node) (n m : Node)
    → m.id ≡ n.id
    → IsDistinct (xs ++ n ∷ [])
    → IsDistinct (xs ++ m ∷ [])
snoc_same-IsDistinct [] n m e d = (tt, tt)
snoc_same-IsDistinct (x ∷ xs) n m e d = (
  All-append (λ k. k.id ≢ x.id) xs (m ∷ []) (All-left (λ k. k.id ≢ x.id) xs (n ∷ []) d.0)
      ((λ f. (All-right (λ k. k.id ≢ x.id) xs (n ∷ []) d.0).0 (sym e ∙ f)), tt),
  snoc_same-IsDistinct xs n m e d.1,
)

-- Windows and contents depend on the raw buffers alone.
module _ (s s' : Store) (same : s'.raws ≡ s.raws) where
  data_of_raws : (o : Option ℕ) → data_of s' o ≡ data_of s o
  data_of_raws none = refl
  data_of_raws (some i) = ap (λ rs. raw_bytes (get_elem? rs i)) same

  pub bytes_raws : (p : Ptr) → bytes s' p ≡ bytes s p
  bytes_raws p = ap (λ xs. take p.m_len (drop p.m_off xs)) (data_of_raws p.m_raw)

  pub contents_raws : (ns : List Node) → contents s' ns ≡ contents s ns
  contents_raws [] = refl
  contents_raws (n ∷ ns) = rw (data_of_raws n.bptr.m_raw, contents_raws ns)

  pub IsWindow_raws : (p : Ptr) → IsWindow s p → IsWindow s' p
  IsWindow_raws p w = record {
    i = w.i;
    r = w.r;
    is_raw = w.is_raw;
    holds = ap (λ rs. get_elem? rs w.i) same ∙ w.holds;
    fits = w.fits;
    small = w.small;
  }

  pub windows_raws :
      (ns : List Node) → All (λ n. IsWindow s n.bptr) ns → All (λ n. IsWindow s' n.bptr) ns
  windows_raws ns =
      All-mono (λ n. IsWindow s n.bptr) (λ n. IsWindow s' n.bptr) ns (λ n. IsWindow_raws n.bptr)

pub find_node-snoc :
    (xs : List Node) (n : Node)
    → All (λ m. m.id ≢ n.id) xs
    → find_node n.id (xs ++ n ∷ []) ≡ some n.bptr
unfolding find_node
find_node-snoc [] n apart = ground arith
find_node-snoc (x ∷ xs) n apart = ground (arith, apart.0, find_node-snoc xs n apart.1)

pub set_node-snoc :
    (xs : List Node) (n : Node) (p : Ptr)
    → All (λ m. m.id ≢ n.id) xs
    → set_node n.id p (xs ++ n ∷ []) ≡ xs ++ record n { bptr = p } ∷ []
unfolding set_node
set_node-snoc [] n p apart = ground arith
set_node-snoc (x ∷ xs) n p apart = ground (arith, apart.0, set_node-snoc xs n p apart.1)

pub last?-snoc : (xs : List Node) (n : Node) → last? (xs ++ n ∷ []) ≡ some n
unfolding last?
last?-snoc [] n = refl
last?-snoc (x ∷ []) n = refl
last?-snoc (x ∷ y ∷ xs) n = last?-snoc (y ∷ xs) n

-- The front of a list that has a last node.
pub last?_split :
    (ns : List Node) (n : Node) → last? ns ≡ some n → (front : List Node) × (ns ≡ front ++ n ∷ [])
unfolding last?
last?_split [] n h = cc
last?_split (x ∷ []) n h = ([], cc)
last?_split (x ∷ y ∷ ns) n h =
    let (front, e) = last?_split (y ∷ ns) n h in (x ∷ front, ap (λ zs. x ∷ zs) e)
