-- ===== src/Buffer/Links/Ops.antt =====
-- The operations on one ring against those on the sequence of its nodes.
use mathlib.Core.Path.{subst, fun_ext}
use replica_wbcache.Prelude.{
  ℕ, zero, suc, ◌≤◌, ◌≡◌, ◌≢◌, refl, sym, ap, ◌∙◌, List, [], ◌∷◌, ◌++◌, ◌==◌, false, inl, inr, some,
  arith, if◌then◌else◌, append-nil, Bool-cases, ==_iff, length,
}
use replica_wbcache.Buffer.Links.{
  Memory, Buffers, store_next, init_buffers, push_back_item, push_front_item, insert_after,
  erase_after, nodes_from, clear_and_dispose,
}
use replica_wbcache.Buffer.Links.Chain.{
  last, IsPath, NotIn, Distinct, IsRing, last-append, NotIn-append, NotIn-left, NotIn-right,
  Distinct-left, Distinct-right, Distinct-insert, Distinct-erase, NotIn-erase, NotIn-last,
  last-NotIn, Apart-none, Apart-one, Apart-cons, IsPath-move, IsPath-turn, IsPath-join,
  IsPath-front, IsPath-behind, store_next-at, store_next-off,
}

-- A store of what is there already.
store_same : (h : Memory) (p v : ℕ) → v ≡ h p → store_next h p v ≡ h
store_same h p v e = fun_ext (λ y. elim (Bool-cases (y == p)) [
  | inl here ↦ rw here (e ∙ ap h (sym ((==_iff y p).0 here)))
  | inr off ↦ rw off refl
])

ends_behind :
    (t p x : ℕ) (ys : List ℕ) → t ≡ last p ys → NotIn p ys → (if t == p then x else t) ≡ last x ys
ends_behind t p x [] e n = ground arith
ends_behind t p x (y ∷ ys) e n =
    let off : t ≢ p = λ same. NotIn-last p y ys n (sym same ∙ e) in
    elim (Bool-cases (t == p)) [
      | inl here ↦ absurd (off ((==_iff t p).0 here))
      | inr there ↦ rw there e
    ]

-- A ring that gets `x` behind its node (or root) `last root xs`.
module _ (h : Memory) (l : Buffers) (xs ys : List ℕ) (x : ℕ) (ring : IsRing h l (xs ++ ys))
    (fresh : NotIn x (l.root ∷ xs ++ ys)) where
  abbrev at : ℕ
  at = last l.root xs

  abbrev linked : Memory
  linked = store_next (store_next h x (h at)) at x

  x-ne-at : x ≢ at
  x-ne-at = NotIn-last x l.root xs (fresh.0, NotIn-left x xs ys fresh.1)

  linked-off : (y : ℕ) → y ≢ at → NotIn y (x ∷ []) → linked y ≡ h y
  linked-off y off not_x =
      store_next-off (store_next h x (h at)) at x y off ∙ store_next-off h x (h at) y not_x.0

  linked-x : linked x ≡ h at
  linked-x = store_next-off (store_next h x (h at)) at x x x-ne-at ∙ store_next-at h x (h at)

  front : IsPath linked l.root xs x
  front =
      IsPath-turn h linked (x ∷ []) l.root xs (h at) x linked-off
        (store_next-at (store_next h x (h at)) at x)
        (Apart-one x (l.root ∷ xs) (fresh.0, NotIn-left x xs ys fresh.1))
        (Distinct-left (l.root ∷ xs) ys ring.distinct)
        (IsPath-front h l.root xs ys l.root ring.path)

  behind : IsPath linked x ys l.root
  behind =
      IsPath-move h linked (at ∷ x ∷ []) (λ y n. linked-off y n.0 n.1) at x ys l.root linked-x
        (Apart-cons at (x ∷ []) ys (last-NotIn l.root xs ys ring.distinct)
          (Apart-one x ys (NotIn-right x xs ys fresh.1)))
        (IsPath-behind h l.root xs ys l.root ring.path)

  linked-path : IsPath linked l.root (xs ++ x ∷ ys) l.root
  linked-path =
      IsPath-join linked l.root xs (x ∷ ys) x l.root front
        (store_next-at (store_next h x (h at)) at x, behind)

  grown-Distinct : Distinct (l.root ∷ xs ++ x ∷ ys)
  grown-Distinct = Distinct-insert x (l.root ∷ xs) ys ring.distinct fresh

  grown-ends : (if l.tail == at then x else l.tail) ≡ last l.root (xs ++ x ∷ ys)
  grown-ends =
      ends_behind l.tail at x ys (ring.ends ∙ last-append l.root xs ys)
        (last-NotIn l.root xs ys ring.distinct)
      ∙ sym (last-append l.root xs (x ∷ ys))

  grown : IsRing linked (record l { tail = if l.tail == at then x else l.tail }) (xs ++ x ∷ ys)
  grown = record { path = linked-path; ends = grown-ends; distinct = grown-Distinct }

  root_same : (if at == l.root then x else linked l.root) ≡ linked l.root
  root_same = elim (Bool-cases (at == l.root)) [
    | inl first ↦ rw first (
        sym (
          ap linked (sym ((==_iff at l.root).0 first))
          ∙ store_next-at (store_next h x (h at)) at x))
    | inr later ↦ rw later refl
  ]

  pub insert_after-IsRing :
      IsRing
        (insert_after l (last l.root xs) x h).1
        (insert_after l (last l.root xs) x h).0
        (xs ++ x ∷ ys)
  unfolding insert_after
  insert_after-IsRing =
      subst (λ m. IsRing m (record l { tail = if l.tail == at then x else l.tail }) (xs ++ x ∷ ys))
        (sym (store_same linked l.root (if at == l.root then x else linked l.root) root_same)) grown

pub push_back_item-IsRing :
    (h : Memory) (l : Buffers) (xs : List ℕ) (x : ℕ)
    → IsRing h l xs
    → NotIn x (l.root ∷ xs)
    → IsRing (push_back_item l x h).1 (push_back_item l x h).0 (xs ++ x ∷ [])
unfolding push_back_item
push_back_item-IsRing h l xs x ring fresh =
    let ring' = subst (λ zs. IsRing h l zs) (sym (append-nil xs)) ring in
    let fresh' = subst (λ zs. NotIn x (l.root ∷ zs)) (sym (append-nil xs)) fresh in
    let g = grown h l xs [] x ring' fresh' in
    let out : h (last l.root xs) ≡ l.root = IsPath-behind h l.root xs [] l.root ring'.path in
    record {
      path =
          subst
            (λ (t : ℕ).
              IsPath (store_next (store_next h x l.root) t x) l.root (xs ++ x ∷ []) l.root)
            (sym ring.ends)
            (subst
              (λ (v : ℕ).
                IsPath (store_next (store_next h x v) (last l.root xs) x) l.root (xs ++ x ∷ [])
                  l.root)
              out g.path);
      ends = sym (last-append l.root xs (x ∷ []));
      distinct = g.distinct;
    }

pub push_front_item-IsRing :
    (h : Memory) (l : Buffers) (xs : List ℕ) (x : ℕ)
    → IsRing h l xs
    → NotIn x (l.root ∷ xs)
    → IsRing (push_front_item l x h).1 (push_front_item l x h).0 (x ∷ xs)
unfolding push_front_item
push_front_item-IsRing h l xs x ring fresh = grown h l [] xs x ring fresh

first-ne :
    (h : Memory) (a : ℕ) (zs : List ℕ) (e x : ℕ) → IsPath h a zs e → NotIn x (e ∷ zs) → h a ≢ x
first-ne h a [] e x p n same = n.0 (sym same ∙ p)
first-ne h a (z ∷ zs) e x p n same = n.1.0 (sym same ∙ p.0)

-- A ring that loses the node `x` behind its node (or root) `last root xs`.
module _ (h : Memory) (l : Buffers) (xs ys : List ℕ) (x : ℕ)
    (ring : IsRing h l (xs ++ x ∷ ys)) where
  abbrev from : ℕ
  from = last l.root xs

  abbrev cut : Memory
  cut = store_next h from (h x)

  behind_from : IsPath h from (x ∷ ys) l.root
  behind_from = IsPath-behind h l.root xs (x ∷ ys) l.root ring.path

  from-NotIn : NotIn from (x ∷ ys)
  from-NotIn = last-NotIn l.root xs (x ∷ ys) ring.distinct

  cut-Distinct : Distinct (l.root ∷ xs ++ ys)
  cut-Distinct = Distinct-erase x (l.root ∷ xs) ys ring.distinct

  cut-path : IsPath cut l.root (xs ++ ys) l.root
  cut-path =
      IsPath-join cut l.root xs ys (h x) l.root
        (IsPath-turn h cut [] l.root xs (h from) (h x)
          (λ y off n. store_next-off h from (h x) y off) (store_next-at h from (h x))
          (Apart-none (l.root ∷ xs)) (Distinct-left (l.root ∷ xs) (x ∷ ys) ring.distinct)
          (IsPath-front h l.root xs (x ∷ ys) l.root ring.path))
        (IsPath-move h cut (from ∷ []) (λ y n. store_next-off h from (h x) y n.0) x from ys l.root
          (store_next-at h from (h x)) (Apart-one from ys from-NotIn.1) behind_from.1)

  cut-ends : (if l.tail == x then from else l.tail) ≡ last l.root (xs ++ ys)
  cut-ends =
      ends_behind l.tail x from ys (ring.ends ∙ last-append l.root xs (x ∷ ys))
        (Distinct-right (l.root ∷ xs) (x ∷ ys) ring.distinct).0
      ∙ sym (last-append l.root xs ys)

  -- The root's link is no longer one to the erased node.
  cut_root-ne : cut l.root ≢ x
  cut_root-ne = first-ne cut l.root (xs ++ ys) l.root x cut-path (
    fresh.0,
    NotIn-append x xs ys fresh.1 (Distinct-right (l.root ∷ xs) (x ∷ ys) ring.distinct).0,
  )
    where
      fresh : NotIn x (l.root ∷ xs)
      fresh = NotIn-erase x (l.root ∷ xs) ys ring.distinct

  abbrev erased : ℕ → Buffers × Memory
  erased v =
      let h' = store_next h from (h v) in
      (
        record l { tail = if l.tail == v then from else l.tail },
        store_next h' l.root (if h' l.root == v then h' v else h' l.root),
      )

  root_kept : (if cut l.root == x then cut x else cut l.root) ≡ cut l.root
  root_kept = elim (Bool-cases (cut l.root == x)) [
    | inl same ↦ absurd (cut_root-ne ((==_iff (cut l.root) x).0 same))
    | inr other ↦ rw other refl
  ]

  erased-IsRing : IsRing (erased x).1 (erased x).0 (xs ++ ys)
  erased-IsRing =
      subst (λ m. IsRing m (erased x).0 (xs ++ ys))
        (sym (store_same cut l.root (if cut l.root == x then cut x else cut l.root) root_kept))
        (record { path = cut-path; ends = cut-ends; distinct = cut-Distinct })

  pub erase_after-IsRing :
      IsRing (erase_after l (last l.root xs) h).1 (erase_after l (last l.root xs) h).0 (xs ++ ys)
  unfolding erase_after
  erase_after-IsRing =
      subst (λ v. IsRing (erased v).1 (erased v).0 (xs ++ ys)) (sym behind_from.0) erased-IsRing

pub ne→false : (a b : ℕ) → a ≢ b → (a == b) ≡ false
ne→false a b n = elim (Bool-cases (a == b)) [
  | inl same ↦ absurd (n ((==_iff a b).0 same))
  | inr other ↦ other
]

-- A range loop meets the nodes in order, and a turn for each is enough.
nodes_from-path :
    (fuel root it : ℕ) (h : Memory) (a : ℕ) (xs : List ℕ)
    → h a ≡ it
    → IsPath h a xs root
    → NotIn root xs
    → length xs ≤ fuel
    → nodes_from fuel root it h ≡ some xs
unfolding nodes_from
nodes_from-path zero root it h a [] e p n enough = rw ((==_iff it root).1 (sym e ∙ p)) refl
nodes_from-path (suc fuel) root it h a [] e p n enough = rw ((==_iff it root).1 (sym e ∙ p)) refl
nodes_from-path zero root it h a (x ∷ xs) e p n enough = absurd (omega arith)
nodes_from-path (suc fuel) root it h a (x ∷ xs) e p n enough =
    let at_x : it ≡ x = sym e ∙ p.0 in
    let rest = nodes_from-path fuel root (h it) h x xs (ap h (sym at_x)) p.1 n.1 (omega arith) in
    rw (ne→false it root (λ same. n.0 (sym same ∙ at_x)), rest) (ap (λ (y : ℕ). some (y ∷ xs)) at_x)

pub nodes_from-IsRing :
    (fuel : ℕ) (h : Memory) (l : Buffers) (xs : List ℕ)
    → IsRing h l xs
    → length xs ≤ fuel
    → nodes_from fuel l.root (h l.root) h ≡ some xs
nodes_from-IsRing fuel h l xs ring enough =
    nodes_from-path fuel l.root (h l.root) h l.root xs refl ring.path ring.distinct.0 enough

pub init_buffers-IsRing :
    (root : ℕ) (h : Memory) → IsRing (init_buffers root h).1 (init_buffers root h).0 []
unfolding init_buffers
init_buffers-IsRing root h = record {
  path = store_next-at h root root;
  ends = refl;
  distinct = (tt, tt);
}

-- Clearing disposes of every node once, in order.
pub clear_and_dispose-IsRing :
    (fuel : ℕ) (h : Memory) (l : Buffers) (xs : List ℕ)
    → IsRing h l xs
    → length xs ≤ fuel
    → (l' : Buffers) × (h' : Memory) × (clear_and_dispose fuel l h ≡ some (xs, l', h'))
      × IsRing h' l' []
      × (l'.root ≡ l.root)
unfolding clear_and_dispose
clear_and_dispose-IsRing fuel h l xs ring enough = (
  record l { tail = l.root },
  store_next h l.root l.root,
  rw (nodes_from-IsRing fuel h l xs ring enough) refl,
  record { path = store_next-at h l.root l.root; ends = refl; distinct = (tt, tt) },
  refl,
)
