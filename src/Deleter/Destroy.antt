-- ===== src/Deleter/Destroy.antt =====
-- include/deleter.h: the destructor of a deleter that nobody shares runs what the deleter owns,
-- once and in order, and frees every impl.
use replica_wbcache.Prelude.{
  ℕ, suc, zero, ◌<◌, ◌≡◌, refl, sym, ap, ◌∙◌, inl, inr, Option, some, none, List, [], ◌∷◌, ◌++◌,
  append-nil, append_assoc, ◌==◌, Bool-cases, ==_iff, length, length-append, arith,
}
use replica_wbcache.Buffer.Links.Chain.{Apart, NotIn-left, NotIn-right, Apart-one}
use replica_wbcache.Buffer.Links.Roots.{Apart-sym}
use replica_wbcache.Deleter.{
  Handle, Event, Impl, Heap, update, store_impl, actions_of, member, destroy,
}
use replica_wbcache.Deleter.Owns.{Owns, owns_null, owns_raw, owns_impl, Keeps, Owns-Keeps}

abbrev pub Gone : (ℕ → Option Impl) → List ℕ → Type 0
Gone cells [] = Unit {0}
Gone cells (x ∷ xs) = (cells x ≡ none) × Gone cells xs

pub update_self : (cells : ℕ → Option Impl) (a : ℕ) (v : Option Impl) → update cells a v a ≡ v
update_self cells a v = ground arith

pub update-Keeps :
    (cells : ℕ → Option Impl) (a : ℕ) (v : Option Impl) → Keeps (a ∷ []) cells (update cells a v)
update-Keeps cells a v b n = elim (Bool-cases (b == a)) [
  | inl eq ↦ absurd (n.0 ((==_iff b a).0 eq))
  | inr ne ↦ rw ne refl
]

Gone-Keeps :
    (cells cells' : ℕ → Option Impl) (cs xs : List ℕ)
    → Keeps cs cells cells'
    → Apart cs xs
    → Gone cells xs
    → Gone cells' xs
Gone-Keeps cells cells' cs [] keep apart gone = tt
Gone-Keeps cells cells' cs (x ∷ xs) keep apart gone =
    (keep x apart.0 ∙ gone.0, Gone-Keeps cells cells' cs xs keep apart.1 gone.1)

Gone-append :
    (cells : ℕ → Option Impl) (xs ys : List ℕ)
    → Gone cells xs
    → Gone cells ys
    → Gone cells (xs ++ ys)
Gone-append cells [] ys p q = q
Gone-append cells (x ∷ xs) ys p q = (p.0, Gone-append cells xs ys p.1 q)

Gone-update :
    (cells : ℕ → Option Impl) (a : ℕ) (xs : List ℕ) → Gone cells xs → Gone (update cells a none) xs
Gone-update cells a [] gone = tt
Gone-update cells a (x ∷ xs) gone =
    let here : update cells a none x ≡ none = elim (Bool-cases (x == a)) [
      | inl eq ↦ rw eq refl
      | inr ne ↦ rw ne gone.0
    ] in
    (here, Gone-update cells a xs gone.1)

-- If a deleter owns what it leads to, and the fuel exceeds the number of its impls, its destructor
-- ends, runs what it owns once and in order, frees each of its impls, and changes no other.
pub destroy-runs :
    (n : ℕ) (d : Handle) (h : Heap) (trace : List Event) (xs : List ℕ) (es : List Event)
    → Owns h.cells d xs es
    → length xs < n
    → (h' : Heap) × (destroy n d h trace ≡ some (h', trace ++ es))
      × Keeps xs h.cells h'.cells
      × Gone h'.cells xs
unfolding destroy
destroy-runs zero d h trace xs es owns enough = absurd (omega arith)
destroy-runs (suc n) d h trace xs es owns_null enough =
    (h, ap (λ (t : List Event). some (h, t)) (sym (append-nil trace)), λ a out. refl, tt)
destroy-runs (suc n) d h trace xs es (owns_raw obj) enough = (h, refl, λ a out. refl, tt)
destroy-runs (suc n) d h trace xs es
      (owns_impl a next payload xs' ys fs gs found fresh split inner outer) enough =
    let h' : Heap = store_impl h a (some (record { refs = 0; next = next; payload = payload })) in
    let kept : Keeps (a ∷ []) h.cells h'.cells =
      update-Keeps h.cells a (some (record { refs = 0; next = next; payload = payload })) in
    let inside =
      Owns-Keeps (a ∷ []) (member payload) xs' fs kept (Apart-one a xs' (NotIn-left a xs' ys fresh))
        inner in
    let (h₁, run₁, keep₁, gone₁) =
      destroy-runs n (member payload) h' (trace ++ actions_of payload) xs' fs inside
        (omega (arith, length-append xs' ys)) in
    let outside =
      Owns-Keeps (a ∷ []) next ys gs kept (Apart-one a ys (NotIn-right a xs' ys fresh)) outer in
    let (h₂, run₂, keep₂, gone₂) =
      destroy-runs n next h₁ (trace ++ actions_of payload ++ fs) ys gs
        (Owns-Keeps xs' next ys gs keep₁ split outside) (omega (arith, length-append xs' ys)) in
    let h₃ : Heap = store_impl h₂ a none in
    (
      h₃,
      rw (found, run₁, run₂)
          (ap (λ (t : List Event). some (h₃, t))
            (ap (λ (t : List Event). t ++ gs) (append_assoc trace (actions_of payload) fs)
              ∙ append_assoc trace (actions_of payload ++ fs) gs)),
      λ b out.
          update-Keeps h₂.cells a none b (out.0, tt)
          ∙ keep₂ b (NotIn-right b xs' ys out.1)
          ∙ keep₁ b (NotIn-left b xs' ys out.1)
          ∙ kept b (out.0, tt),
      (
        update_self h₂.cells a none,
        Gone-update h₂.cells a (xs' ++ ys) (
            Gone-append h₂.cells xs' ys
              (Gone-Keeps h₁.cells h₂.cells ys xs' keep₂ (Apart-sym xs' ys split) gone₁) gone₂),
      ),
    )
