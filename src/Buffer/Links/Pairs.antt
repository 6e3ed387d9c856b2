-- ===== src/Buffer/Links/Pairs.antt =====
-- The operations on two rings: swap.
use replica_wbcache.Prelude.{
  ℕ, ◌≡◌, ◌≢◌, refl, sym, List, [], ◌∷◌, ◌==◌, inl, inr, Bool-cases, ==_iff,
}
use replica_wbcache.Buffer.Links.{Memory, Buffers, store_next, swap_buffers}
use replica_wbcache.Buffer.Links.Chain.{
  last, IsPath, NotIn, IsRing, NotIn-last, Apart, Apart-one, Apart-cons, store_next-at,
}
use replica_wbcache.Buffer.Links.Ops.{ne→false}
use replica_wbcache.Buffer.Links.Roots.{
  first, first_link, last_tail, NotIn-Apart, Apart-tail, Apart-sym, Apart-last, rerooted,
  first-last,
}

record Stored (h k : Memory) (a b ea eb ta tb : ℕ) : Type 0 where
  pub enter_a : k a ≡ ea
  pub enter_b : k b ≡ eb
  pub leave_a : k ta ≡ a
  pub leave_b : k tb ≡ b
  pub others : (z : ℕ) → NotIn z (a ∷ b ∷ ta ∷ tb ∷ []) → k z ≡ h z

-- The links at the roots `a` and `b` and at the tails `ta` and `tb`, stored in the order of swap.
abbrev four_stores : Memory → (a b ea eb ta tb : ℕ) → Memory
four_stores h a b ea eb ta tb =
    store_next (store_next (store_next (store_next h a ea) b eb) ta a) tb b

module _ (h : Memory) (a b ea eb ta tb : ℕ) (ab : a ≢ b) (a_tb : a ≢ tb) (b_ta : b ≢ ta)
    (ta_tb : ta ≢ tb) where
  at_a : (a ≡ ta → ea ≡ a) → four_stores h a b ea eb ta tb a ≡ ea
  at_a alone = elim (Bool-cases (a == ta)) [
    | inl same ↦ rw (ne→false a tb a_tb, same) (sym (alone ((==_iff a ta).0 same)))
    | inr off ↦ rw (ne→false a tb a_tb, off, ne→false a b ab, (==_iff a a).1 refl) refl
  ]

  at_b : (b ≡ tb → eb ≡ b) → four_stores h a b ea eb ta tb b ≡ eb
  at_b alone = elim (Bool-cases (b == tb)) [
    | inl same ↦ rw same (sym (alone ((==_iff b tb).0 same)))
    | inr off ↦ rw (off, ne→false b ta b_ta, (==_iff b b).1 refl) refl
  ]

  at_ta : four_stores h a b ea eb ta tb ta ≡ a
  at_ta = rw (ne→false ta tb ta_tb, (==_iff ta ta).1 refl) refl

  at_tb : four_stores h a b ea eb ta tb tb ≡ b
  at_tb = store_next-at (store_next (store_next (store_next h a ea) b eb) ta a) tb b

  elsewhere : (z : ℕ) → NotIn z (a ∷ b ∷ ta ∷ tb ∷ []) → four_stores h a b ea eb ta tb z ≡ h z
  elsewhere z n =
      rw (ne→false z tb n.1.1.1.0, ne→false z ta n.1.1.0, ne→false z b n.1.0, ne→false z a n.0) refl

  stored :
      (a ≡ ta → ea ≡ a)
      → (b ≡ tb → eb ≡ b)
      → Stored h (four_stores h a b ea eb ta tb) a b ea eb ta tb
  stored p q = record {
    enter_a = at_a p;
    enter_b = at_b q;
    leave_a = at_ta;
    leave_b = at_tb;
    others = elsewhere;
  }

-- Two rings with no address in common.
module _ (h : Memory) (l m : Buffers) (xs ys : List ℕ) (p : IsRing h l xs) (q : IsRing h m ys)
    (apart : Apart (m.root ∷ ys) (l.root ∷ xs)) where
  roots : l.root ≢ m.root
  roots = apart.0.0

  -- The addresses of the rings after the swap are apart too.
  cross : Apart (m.root ∷ xs) (l.root ∷ ys)
  cross = (
    (roots, p.distinct.0),
    Apart-cons m.root xs ys q.distinct.0 (
        Apart-tail l.root xs ys
          (Apart-sym ys (l.root ∷ xs) (Apart-tail m.root ys (l.root ∷ xs) apart))),
  )

  l_tail : l.root ≢ last m.root xs
  l_tail = NotIn-last l.root m.root xs cross.0

  m_tail : m.root ≢ last l.root ys
  m_tail = NotIn-last m.root l.root ys (NotIn-Apart m.root xs (l.root ∷ ys) cross)

  tails : last l.root ys ≢ last m.root xs
  tails = NotIn-last (last l.root ys) m.root xs (Apart-last (m.root ∷ xs) l.root ys cross)

  l_not_ys : NotIn l.root ys
  l_not_ys = apart.0.1

  m_not_xs : NotIn m.root xs
  m_not_xs = NotIn-Apart m.root ys xs apart.1

  abbrev after_swap : Memory
  after_swap =
      four_stores h l.root m.root (first l.root ys) (first m.root xs) (last l.root ys)
        (last m.root xs)

  swap_stores :
      Stored h after_swap l.root m.root
        (first l.root ys)
        (first m.root xs)
        (last l.root ys)
        (last m.root xs)
  swap_stores =
      stored h l.root m.root (first l.root ys) (first m.root xs) (last l.root ys) (last m.root xs)
        roots l_tail m_tail tails (first-last l.root ys l_not_ys) (first-last m.root xs m_not_xs)

  left_holds : IsPath after_swap l.root ys l.root
  left_holds =
      rerooted h after_swap (l.root ∷ m.root ∷ last m.root xs ∷ []) m.root l.root ys q.path
        q.distinct swap_stores.enter_a swap_stores.leave_a
        (λ z off n. swap_stores.others z (n.0, (n.1.0, (off, n.1.1))))
        (Apart-cons l.root (m.root ∷ last m.root xs ∷ []) ys l_not_ys (
          Apart-cons m.root (last m.root xs ∷ []) ys q.distinct.0 (
            Apart-one (last m.root xs) ys
              (Apart-last (l.root ∷ ys) m.root xs
                (Apart-sym (m.root ∷ xs) (l.root ∷ ys) cross)).1)))

  right_holds : IsPath after_swap m.root xs m.root
  right_holds =
      rerooted h after_swap (l.root ∷ m.root ∷ last l.root ys ∷ []) l.root m.root xs p.path
        p.distinct swap_stores.enter_b swap_stores.leave_b
        (λ z off n. swap_stores.others z (n.0, (n.1.0, (n.1.1.0, (off, tt)))))
        (Apart-cons l.root (m.root ∷ last l.root ys ∷ []) xs p.distinct.0 (
          Apart-cons m.root (last l.root ys ∷ []) xs m_not_xs
            (Apart-one (last l.root ys) xs (Apart-last (m.root ∷ xs) l.root ys cross).1)))

  -- For well-formed rings with no address in common, either of them empty or not, swap leaves both
  -- well formed, each with the other's nodes.
  pub swap_buffers-IsRing :
      IsRing (swap_buffers l m h).2 (swap_buffers l m h).0 ys
      × IsRing (swap_buffers l m h).2 (swap_buffers l m h).1 xs
  unfolding swap_buffers
  swap_buffers-IsRing =
      rw
        (
          first_link h m.root l.root ys q.path q.distinct.0,
          first_link h l.root m.root xs p.path p.distinct.0,
          last_tail m.tail m.root l.root ys q.ends q.distinct.0,
          last_tail l.tail l.root m.root xs p.ends p.distinct.0,
        )
        (
          record { path = left_holds; ends = refl; distinct = (l_not_ys, q.distinct.1) },
          record { path = right_holds; ends = refl; distinct = (m_not_xs, p.distinct.1) },
        )
