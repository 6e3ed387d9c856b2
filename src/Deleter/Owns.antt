-- ===== src/Deleter/Owns.antt =====
-- What a deleter owns: the impls that it leads to, none of them shared, and what their destructors
-- run, in order.
use replica_wbcache.Prelude.{ℕ, ◌≡◌, ◌∙◌, Option, some, List, [], ◌∷◌, ◌++◌}
use replica_wbcache.Buffer.Links.Chain.{NotIn, Apart}
use replica_wbcache.Deleter.{
  Handle, null, raw_object, at, Event, freed, Payload, Impl, actions_of, member,
}

pub data Owns (cells : ℕ → Option Impl) : Handle → List ℕ → List Event → Type 0 where
  owns_null : Owns cells null [] []
  owns_raw : (obj : ℕ) → Owns cells (raw_object obj) [] (freed obj ∷ [])
  owns_impl :
      (a : ℕ) (next : Handle) (payload : Payload) (xs ys : List ℕ) (es fs : List Event)
      → cells a ≡ some (record { refs = 1; next = next; payload = payload })
      → NotIn a (xs ++ ys)
      → Apart xs ys
      → Owns cells (member payload) xs es
      → Owns cells next ys fs
      → Owns cells (at a) (a ∷ xs ++ ys) (actions_of payload ++ es ++ fs)

-- The first and the second part of what is apart
pub Apart-left : (cs xs ys : List ℕ) → Apart cs (xs ++ ys) → Apart cs xs
Apart-left cs [] ys h = tt
Apart-left cs (x ∷ xs) ys h = (h.0, Apart-left cs xs ys h.1)

pub Apart-right : (cs xs ys : List ℕ) → Apart cs (xs ++ ys) → Apart cs ys
Apart-right cs [] ys h = h
Apart-right cs (x ∷ xs) ys h = Apart-right cs xs ys h.1

-- Nothing that is not at `xs` changes.
abbrev pub Keeps : (xs : List ℕ) (cells cells' : ℕ → Option Impl) → Type 0
Keeps xs cells cells' = (a : ℕ) → NotIn a xs → cells' a ≡ cells a

-- What is owned apart from the changes is owned still.
pub Owns-Keeps :
    {cells cells' : ℕ → Option Impl} (cs : List ℕ) (d : Handle) (xs : List ℕ) (es : List Event)
    → Keeps cs cells cells'
    → Apart cs xs
    → Owns cells d xs es
    → Owns cells' d xs es
Owns-Keeps cs d xs es keep apart owns_null = owns_null
Owns-Keeps cs d xs es keep apart (owns_raw obj) = owns_raw obj
Owns-Keeps cs d xs es keep apart
      (owns_impl a next payload xs' ys fs gs found fresh split inner outer) =
    owns_impl a next payload xs' ys fs gs (keep a apart.0 ∙ found) fresh split
      (Owns-Keeps cs (member payload) xs' fs keep (Apart-left cs xs' ys apart.1) inner)
      (Owns-Keeps cs next ys gs keep (Apart-right cs xs' ys apart.1) outer)
