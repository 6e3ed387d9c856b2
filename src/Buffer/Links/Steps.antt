-- ===== src/Buffer/Links/Steps.antt =====
-- Any sequence of operations on a ring against the same operations on the sequence of its nodes.
use mathlib.Core.Path.{subst}
use replica_wbcache.Prelude.{ℕ, ◌≡◌, refl, sym, List, [], ◌∷◌, ◌++◌, some, length, arith}
use replica_wbcache.Buffer.Links.{
  Memory, Buffers, push_back_item, push_front_item, insert_after, erase_after, nodes_from,
}
use replica_wbcache.Buffer.Links.Chain.{last, NotIn, IsRing}
use replica_wbcache.Buffer.Links.Ops.{
  push_back_item-IsRing, push_front_item-IsRing, insert_after-IsRing, erase_after-IsRing,
  nodes_from-IsRing,
}

pub data Op : Type 0 where
  back : ℕ → Op
  front : ℕ → Op
  after : (it item : ℕ) → Op
  erase : (it : ℕ) → Op

abbrev pub run_op : Op → Buffers × Memory → Buffers × Memory
run_op (back item) (l, h) = push_back_item l item h
run_op (front item) (l, h) = push_front_item l item h
run_op (after it item) (l, h) = insert_after l it item h
run_op (erase it) (l, h) = ((erase_after l it h).0, (erase_after l it h).1)

abbrev pub run_ops : List Op → Buffers × Memory → Buffers × Memory
run_ops [] m = m
run_ops (op ∷ ops) m = run_ops ops (run_op op m)

-- What an operation does to the sequence of nodes, and when it may be called: a node that is
-- added is not there yet, and a position is the root's or that of a node.
abbrev pub IsOp : ℕ → Op → List ℕ → List ℕ → Type 0
IsOp root (back item) ns ms = NotIn item (root ∷ ns) × (ms ≡ ns ++ item ∷ [])
IsOp root (front item) ns ms = NotIn item (root ∷ ns) × (ms ≡ item ∷ ns)
IsOp root (after it item) ns ms =
    (xs ys : List ℕ) × (it ≡ last root xs)
    × (ns ≡ xs ++ ys)
    × NotIn item (root ∷ ns)
    × (ms ≡ xs ++ item ∷ ys)
IsOp root (erase it) ns ms =
    (xs ys : List ℕ) × (item : ℕ) × (it ≡ last root xs) × (ns ≡ xs ++ item ∷ ys) × (ms ≡ xs ++ ys)

abbrev pub AreOps : ℕ → List Op → List ℕ → List ℕ → Type 0
AreOps root [] ns ms = ns ≡ ms
AreOps root (op ∷ ops) ns ms = (ks : List ℕ) × IsOp root op ns ks × AreOps root ops ks ms

run_op-root : (op : Op) (l : Buffers) (h : Memory) → (run_op op (l, h)).0.root ≡ l.root
unfolding push_back_item push_front_item insert_after erase_after
run_op-root (back item) l h = refl
run_op-root (front item) l h = refl
run_op-root (after it item) l h = refl
run_op-root (erase it) l h = refl

run_op-IsRing :
    (op : Op) (l : Buffers) (h : Memory) (ns ms : List ℕ)
    → IsRing h l ns
    → IsOp l.root op ns ms
    → IsRing (run_op op (l, h)).1 (run_op op (l, h)).0 ms
run_op-IsRing (back item) l h ns ms ring (fresh, e) =
    subst (λ zs. IsRing (push_back_item l item h).1 (push_back_item l item h).0 zs) (sym e)
      (push_back_item-IsRing h l ns item ring fresh)
run_op-IsRing (front item) l h ns ms ring (fresh, e) =
    subst (λ zs. IsRing (push_front_item l item h).1 (push_front_item l item h).0 zs) (sym e)
      (push_front_item-IsRing h l ns item ring fresh)
run_op-IsRing (after it item) l h ns ms ring (xs, ys, at, split, fresh, e) =
    subst (λ zs. IsRing (insert_after l it item h).1 (insert_after l it item h).0 zs) (sym e)
      (subst (λ p. IsRing (insert_after l p item h).1 (insert_after l p item h).0 (xs ++ item ∷ ys))
        (sym at)
        (insert_after-IsRing h l xs ys item (subst (IsRing h l) split ring)
          (subst (λ zs. NotIn item (l.root ∷ zs)) split fresh)))
run_op-IsRing (erase it) l h ns ms ring (xs, ys, item, at, split, e) =
    subst (λ zs. IsRing (erase_after l it h).1 (erase_after l it h).0 zs) (sym e)
      (subst (λ p. IsRing (erase_after l p h).1 (erase_after l p h).0 (xs ++ ys)) (sym at)
        (erase_after-IsRing h l xs ys item (subst (IsRing h l) split ring)))

run_ops-IsRing :
    (ops : List Op) (l : Buffers) (h : Memory) (ns ms : List ℕ)
    → IsRing h l ns
    → AreOps l.root ops ns ms
    → IsRing (run_ops ops (l, h)).1 (run_ops ops (l, h)).0 ms
run_ops-IsRing [] l h ns ms ring e = subst (IsRing h l) e ring
run_ops-IsRing (op ∷ ops) l h ns ms ring (ks, first, rest) =
    run_ops-IsRing ops (run_op op (l, h)).0 (run_op op (l, h)).1 ks ms
      (run_op-IsRing op l h ns ks ring first)
      (subst (λ r. AreOps r ops ks ms) (sym (run_op-root op l h)) rest)

-- Any sequence of push_back, push_front, insert_after and erase_after on a well-formed ring, where
-- each node that is added is not in the ring and each position is the root or a node (not the
-- last, for erase_after), leaves a well-formed ring that holds the nodes which the same operations
-- leave of the sequence, and a range loop meets these in order.
pub run_ops-refine :
    (ops : List Op) (l : Buffers) (h : Memory) (ns ms : List ℕ)
    → IsRing h l ns
    → AreOps l.root ops ns ms
    → IsRing (run_ops ops (l, h)).1 (run_ops ops (l, h)).0 ms
      × (nodes_from
            (length ms)
            (run_ops ops (l, h)).0.root
            ((run_ops ops (l, h)).1 (run_ops ops (l, h)).0.root)
            (run_ops ops (l, h)).1
          ≡ some ms)
run_ops-refine ops l h ns ms ring steps =
    let r = run_ops-IsRing ops l h ns ms ring steps in
    (
      r,
      nodes_from-IsRing (length ms) (run_ops ops (l, h)).1 (run_ops ops (l, h)).0 ms r
          (omega arith),
    )
