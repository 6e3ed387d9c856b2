-- ===== src/Buffer/Links.antt =====
-- include/buffer/buffer_list.h: `buffers_t`, the singly linked ring of hooks under buffer::list.
-- Memory is the `next` of every address; a list is its `_root`'s address and its `_tail`.
pub mod Chain
pub mod Ops
pub mod Steps
pub mod Roots
pub mod Pairs
pub mod Joins
use replica_wbcache.Prelude.{
  ℕ, zero, suc, Bool, Option, none, some, List, [], ◌∷◌, ◌==◌, if◌then◌else◌,
}

abbrev pub Memory : Type 0
Memory = ℕ → ℕ

-- `p->next = v`
abbrev pub store_next : Memory → ℕ → ℕ → Memory
store_next h p v a = if a == p then v else h a

pub record Buffers : Type 0 where
  pub root : ℕ
  pub tail : ℕ

-- buffers_t(), whose `_root` stands at `root`
unfoldable pub init_buffers : ℕ → Memory → Buffers × Memory
init_buffers root h = (record { root = root; tail = root }, store_next h root root)

unfoldable pub is_empty : Buffers → Bool
is_empty l = l.tail == l.root

unfoldable pub push_back_item : Buffers → ℕ → Memory → Buffers × Memory
push_back_item l item h =
    (record l { tail = item }, store_next (store_next h item l.root) l.tail item)

unfoldable pub push_front_item : Buffers → ℕ → Memory → Buffers × Memory
push_front_item l item h = (
  record l { tail = if l.tail == l.root then item else l.tail },
  store_next (store_next h item (h l.root)) l.root item,
)

unfoldable pub insert_after : Buffers → (it item : ℕ) → Memory → Buffers × Memory
insert_after l it item h =
    let h' = store_next (store_next h item (h it)) it item in
    (
      record l { tail = if l.tail == it then item else l.tail },
      store_next h' l.root (if it == l.root then item else h' l.root),
    )

-- The iterator that is returned is the third part.
unfoldable pub erase_after : Buffers → (it : ℕ) → Memory → Buffers × Memory × ℕ
erase_after l it h =
    let to_erase = h it in
    let h' = store_next h it (h to_erase) in
    let h'' = store_next h' l.root (if h' l.root == to_erase then h' to_erase else h' l.root) in
    (record l { tail = if l.tail == to_erase then it else l.tail }, h'', h'' it)

unfoldable pub splice_back : (l other : Buffers) → Memory → Buffers × Buffers × Memory
unfolding is_empty
splice_back l other h =
    if is_empty other
    then (l, other, h)
    else (let h₁ = store_next h other.tail l.root in
        let h₂ = store_next h₁ l.tail (h₁ other.root) in
        (
          record l { tail = other.tail },
          record other { tail = other.root },
          store_next h₂ other.root other.root,
        ))

unfoldable pub swap_buffers : (l other : Buffers) → Memory → Buffers × Buffers × Memory
swap_buffers l other h =
    let h₁ = store_next h l.root (if h other.root == other.root then l.root else h other.root) in
    let h₂ = store_next h₁ other.root (if h l.root == l.root then other.root else h l.root) in
    let tail = if other.tail == other.root then l.root else other.tail in
    let other_tail = if l.tail == l.root then other.root else l.tail in
    (
      record l { tail = tail },
      record other { tail = other_tail },
      store_next (store_next h₂ tail l.root) other_tail other.root,
    )

-- buffers_t(buffers_t&&), whose `_root` stands at `root`
unfoldable pub move_buffers : ℕ → Buffers → Memory → Buffers × Buffers × Memory
move_buffers root other h =
    let h₁ = store_next h root (if h other.root == other.root then root else h other.root) in
    let tail = if other.tail == other.root then root else other.tail in
    let h₂ = store_next h₁ other.root other.root in
    (
      record { root = root; tail = tail },
      record other { tail = other.root },
      store_next h₂ tail root,
    )

abbrev before : ℕ → Option (List ℕ) → Option (List ℕ)
before it none = none
before it (some ns) = some (it ∷ ns)

-- The nodes from `it` up to `end()`, as a range loop meets them; `none` if there are more than
-- the fuel.
unfoldable pub nodes_from : ℕ → (root it : ℕ) → Memory → Option (List ℕ)
nodes_from zero root it h = if it == root then some [] else none
nodes_from (suc fuel) root it h =
    let rest = before it (nodes_from fuel root (h it) h) in if it == root then some [] else rest

abbrev emptied : Buffers → Memory → Option (List ℕ) → Option (List ℕ × Buffers × Memory)
emptied l h none = none
emptied l h (some disposed) =
    some (disposed, record l { tail = l.root }, store_next h l.root l.root)

-- The first part is the nodes that the disposer gets, in order.
unfoldable pub clear_and_dispose : ℕ → Buffers → Memory → Option (List ℕ × Buffers × Memory)
unfolding nodes_from
clear_and_dispose fuel l h = emptied l h (nodes_from fuel l.root (h l.root) h)

-- `clone` is the address of the node that the cloner makes of a node.
unfoldable pub clone_loop :
    ℕ → (clone : ℕ → ℕ) → (other_root it : ℕ) → Buffers → Memory → Option (Buffers × Memory)
unfolding push_back_item
clone_loop zero clone other_root it l h = if it == other_root then some (l, h) else none
clone_loop (suc fuel) clone other_root it l h =
    let (l', h') = push_back_item l (clone it) h in
    let rest = clone_loop fuel clone other_root (h' it) l' h' in
    if it == other_root then some (l, h) else rest

abbrev after_clear :
    Option (List ℕ × Buffers × Memory)
    → (Buffers → Memory → Option (Buffers × Memory))
    → Option (Buffers × Memory)
after_clear none next = none
after_clear (some (disposed, l, h)) next = next l h

unfoldable pub clone_from :
    ℕ → (clone : ℕ → ℕ) → (l other : Buffers) → Memory → Option (Buffers × Memory)
unfolding clear_and_dispose clone_loop
clone_from fuel clone l other h =
    after_clear (clear_and_dispose fuel l h)
      (λ l' h'. clone_loop fuel clone other.root (h' other.root) l' h')
