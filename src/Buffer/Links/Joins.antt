-- ===== src/Buffer/Links/Joins.antt =====
-- The operations on two rings: splice_back and the move constructor.
use replica_wbcache.Prelude.{
  ℕ, ◌≡◌, ◌≢◌, refl, sym, ◌∙◌, List, [], ◌∷◌, ◌++◌, ◌==◌, inl, inr, Bool-cases, ==_iff, append-nil,
  true, false,
}
use mathlib.Core.Path.{subst}
use replica_wbcache.Buffer.Links.{Memory, Buffers, store_next, is_empty, splice_back, move_buffers}
use replica_wbcache.Buffer.Links.Chain.{
  last, IsPath, NotIn, IsRing, last-append, NotIn-last, Apart, Apart-one, Apart-cons, IsPath-turn,
  IsPath-join, store_next-at, store_next-off,
}
use replica_wbcache.Buffer.Links.Ops.{ne→false}
use replica_wbcache.Buffer.Links.Roots.{
  first, first_link, last_tail, NotIn-Apart, Apart-tail, Apart-sym, Apart-last, Distinct-append,
  rerooted, first-last,
}

-- `other` has the nodes `y ∷ ys`, `l` has `xs`, and they have no address in common.
module _ (h : Memory) (l other : Buffers) (xs ys : List ℕ) (y : ℕ) (p : IsRing h l xs)
    (q : IsRing h other (y ∷ ys)) (apart : Apart (other.root ∷ y ∷ ys) (l.root ∷ xs)) where
  abbrev joined : Memory
  joined =
      store_next (store_next (store_next h (last y ys) l.root) (last l.root xs) y) other.root
        other.root

  l_end : NotIn (last l.root xs) (other.root ∷ y ∷ ys)
  l_end = Apart-last (other.root ∷ y ∷ ys) l.root xs apart

  Apart-ys : Apart (l.root ∷ xs) (y ∷ ys)
  Apart-ys = Apart-sym (y ∷ ys) (l.root ∷ xs) (Apart-tail other.root (y ∷ ys) (l.root ∷ xs) apart)

  o_end : other.root ≢ last y ys
  o_end = NotIn-last other.root y ys q.distinct.0

  ends_apart : last l.root xs ≢ last y ys
  ends_apart = NotIn-last (last l.root xs) y ys l_end.1

  joined_l : joined (last l.root xs) ≡ y
  joined_l =
      rw
        (
          ne→false (last l.root xs) other.root l_end.0,
          (==_iff (last l.root xs) (last l.root xs)).1 refl,
        )
        refl

  joined_y : joined (last y ys) ≡ l.root
  joined_y =
      rw
        (
          ne→false (last y ys) other.root (λ e. o_end (sym e)),
          ne→false (last y ys) (last l.root xs) (λ e. ends_apart (sym e)),
          (==_iff (last y ys) (last y ys)).1 refl,
        )
        refl

  joined_off : (z : ℕ) → z ≢ last y ys → z ≢ last l.root xs → z ≢ other.root → joined z ≡ h z
  joined_off z a b c =
      rw (ne→false z other.root c, ne→false z (last l.root xs) b, ne→false z (last y ys) a) refl

  joined_path : IsPath joined l.root (xs ++ y ∷ ys) l.root
  joined_path =
      IsPath-join joined l.root xs (y ∷ ys) y l.root
        (IsPath-turn h joined (last y ys ∷ other.root ∷ []) l.root xs l.root y
          (λ z off n. joined_off z n.0 off n.1.0) joined_l
          (Apart-cons (last y ys) (other.root ∷ []) (l.root ∷ xs)
            (Apart-last (l.root ∷ xs) y ys Apart-ys)
            (Apart-one other.root (l.root ∷ xs)
              (NotIn-Apart other.root (y ∷ ys) (l.root ∷ xs) apart)))
          p.distinct p.path)
        (
          joined_l,
          IsPath-turn h joined (last l.root xs ∷ other.root ∷ []) y ys other.root l.root
              (λ z off n. joined_off z off n.0 n.1.0) joined_y
              (Apart-cons (last l.root xs) (other.root ∷ []) (y ∷ ys) l_end.1
                (Apart-one other.root (y ∷ ys) q.distinct.0))
              q.distinct.1 q.path.1,
        )

  not_empty : is_empty other ≡ false
  unfolding is_empty
  not_empty = ne→false other.tail other.root (λ e. o_end (sym e ∙ q.ends))

  first_of_other : store_next h (last y ys) l.root other.root ≡ y
  first_of_other = store_next-off h (last y ys) l.root other.root o_end ∙ q.path.0

  splice_back-joined :
      splice_back l other h
      ≡ (record l { tail = last y ys }, record other { tail = other.root }, joined)
  unfolding splice_back
  splice_back-joined = rw (not_empty, q.ends, p.ends, first_of_other) refl

splice_back-nothing :
    (h : Memory) (l other : Buffers)
    → (other.tail == other.root) ≡ true
    → splice_back l other h ≡ (l, other, h)
unfolding splice_back is_empty
splice_back-nothing h l other e = rw e refl

-- For well-formed rings with no address in common, splice_back leaves a well-formed ring of this
-- ring's nodes and then the other's, and the other ring well formed and empty.
pub splice_back-IsRing :
    (h : Memory) (l other : Buffers) (xs ys : List ℕ)
    → IsRing h l xs
    → IsRing h other ys
    → Apart (other.root ∷ ys) (l.root ∷ xs)
    → IsRing (splice_back l other h).2 (splice_back l other h).0 (xs ++ ys)
      × IsRing (splice_back l other h).2 (splice_back l other h).1 []
splice_back-IsRing h l other xs [] p q apart =
    rw (splice_back-nothing h l other ((==_iff other.tail other.root).1 q.ends))
      (subst (IsRing h l) (sym (append-nil xs)) p, q)
splice_back-IsRing h l other xs (y ∷ ys) p q apart =
    rw (splice_back-joined h l other xs ys y p q apart) (
      record {
        path = joined_path h l other xs ys y p q apart;
        ends = sym (last-append l.root xs (y ∷ ys));
        distinct =
            Distinct-append (l.root ∷ xs) (y ∷ ys) p.distinct q.distinct.1
              (Apart-tail other.root (y ∷ ys) (l.root ∷ xs) apart);
      },
      record {
        path =
            store_next-at (store_next (store_next h (last y ys) l.root) (last l.root xs) y)
              other.root other.root;
        ends = refl;
        distinct = (tt, tt);
      },
    )

-- A ring is moved to another root, and its old one is left empty.
module _ (h : Memory) (root : ℕ) (other : Buffers) (ys : List ℕ) (q : IsRing h other ys)
    (fresh : NotIn root (other.root ∷ ys)) where
  abbrev moved : Memory
  moved =
      store_next (store_next (store_next h root (first root ys)) other.root other.root)
        (last root ys) root

  o_tail : other.root ≢ last root ys
  o_tail = NotIn-last other.root root ys ((λ e. fresh.0 (sym e)), q.distinct.0)

  moved_root : moved root ≡ first root ys
  moved_root = elim (Bool-cases (root == last root ys)) [
    | inl alone ↦ rw alone (sym (first-last root ys fresh.1 ((==_iff root (last root ys)).0 alone)))
    | inr off ↦ rw (off, ne→false root other.root fresh.0, (==_iff root root).1 refl) refl
  ]

  moved_off : (z : ℕ) → z ≢ last root ys → NotIn z (root ∷ other.root ∷ []) → moved z ≡ h z
  moved_off z off n =
      rw (ne→false z (last root ys) off, ne→false z other.root n.1.0, ne→false z root n.0) refl

  moved_other : moved other.root ≡ other.root
  moved_other =
      rw (ne→false other.root (last root ys) o_tail, (==_iff other.root other.root).1 refl) refl

  pub move_buffers-IsRing :
      IsRing (move_buffers root other h).2 (move_buffers root other h).0 ys
      × IsRing (move_buffers root other h).2 (move_buffers root other h).1 []
  unfolding move_buffers
  move_buffers-IsRing =
      rw
        (
          first_link h other.root root ys q.path q.distinct.0,
          last_tail other.tail other.root root ys q.ends q.distinct.0,
        )
        (
          record {
            path =
                rerooted h moved (root ∷ other.root ∷ []) other.root root ys q.path q.distinct
                  moved_root
                  (store_next-at
                    (store_next (store_next h root (first root ys)) other.root other.root)
                    (last root ys) root)
                  moved_off
                  (Apart-cons root (other.root ∷ []) ys fresh.1
                    (Apart-one other.root ys q.distinct.0));
            ends = refl;
            distinct = (fresh.1, q.distinct.1);
          },
          record { path = moved_other; ends = refl; distinct = (tt, tt) },
        )
