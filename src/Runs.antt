-- ===== src/Runs.antt =====
-- Maps from pages to entries, as the extent maps of the program are read: entry i covers the pages
-- from its own start up to the start of entry i + 1, and the last entry covers all pages from its
-- start on unless it is a terminator. This is the description that the lookup loops are held to.
use advfs_fuse.Base.{
  ℕ, ◌≤◌, ◌<◌, ◌≡◌, ◌⊎◌, inl, inr, Bool, false, List, [], ◌∷◌, Option, none, some, arith, ltb,
  if◌then◌else◌,
}
use mathlib.Core.Path.{subst}

module _ {A : Type 0} (start : A → ℕ) (stops : A → Bool) where
  pub data Covers : List A → ℕ → A → Type 0 where
    here : {e f : A} {rest : List A} {p : ℕ} → start e ≤ p → p < start f → Covers (e ∷ f ∷ rest) p e
    last : {e : A} {p : ℕ} → start e ≤ p → stops e ≡ false → Covers (e ∷ []) p e
    later : {e f x : A} {rest : List A} {p : ℕ} → Covers (f ∷ rest) p x → Covers (e ∷ f ∷ rest) p x

  abbrev pub IsSorted : List A → Type 0
  IsSorted [] = Unit
  IsSorted (e ∷ []) = Unit
  IsSorted (e ∷ f ∷ rest) = (start e ≤ start f) × IsSorted (f ∷ rest)

  -- The first entry that covers a page.
  unfoldable pub find_covering : List A → ℕ → Option A
  find_covering [] p = none
  find_covering (e ∷ []) p = if ltb p (start e) then none else if stops e then none else some e
  find_covering (e ∷ f ∷ rest) p =
      let after = find_covering (f ∷ rest) p in
      if ltb p (start e) then after else if ltb p (start f) then some e else after

  step-find_covering :
      (e f x : A) (rest : List A) (p : ℕ)
      → find_covering (e ∷ f ∷ rest) p ≡ some x
      → ((start e ≤ p) × (p < start f) × (e ≡ x)) ⊎ (find_covering (f ∷ rest) p ≡ some x)
  unfolding find_covering
  step-find_covering e f x rest p h = ground arith

  nil-find_covering : (x : A) (p : ℕ) → find_covering [] p ≡ some x → ⊥
  unfolding find_covering
  nil-find_covering x p h = cc

  one-find_covering :
      (e x : A) (p : ℕ)
      → find_covering (e ∷ []) p ≡ some x
      → (start e ≤ p) × (stops e ≡ false) × (e ≡ x)
  unfolding find_covering
  one-find_covering e x p h = ground arith

  -- What the lookup finds covers the page.
  pub find_covering-Covers :
      (m : List A) (p : ℕ) {x : A} → find_covering m p ≡ some x → Covers m p x
  find_covering-Covers [] p {x} h = absurd (nil-find_covering x p h)
  find_covering-Covers (e ∷ []) p {x} h =
      let (a, b, same) = one-find_covering e x p h in
      subst (λ y. Covers (e ∷ []) p y) same (last a b)
  find_covering-Covers (e ∷ f ∷ rest) p {x} h = elim (step-find_covering e f x rest p h) [
    | inl (a, b, same) ↦ subst (λ y. Covers (e ∷ f ∷ rest) p y) same (here a b)
    | inr after ↦ later (find_covering-Covers (f ∷ rest) p after)
  ]

  head-le :
      {e : A} {rest : List A} {p : ℕ} {x : A}
      → IsSorted (e ∷ rest)
      → Covers (e ∷ rest) p x
      → start e ≤ p
  head-le s (here a b) = a
  head-le s (last a b) = a
  head-le s (later c) = omega (arith, head-le s.1 c)

  -- On a sorted map the lookup finds whatever covers the page.
  pub Covers-find_covering :
      {m : List A} {p : ℕ} {x : A} → IsSorted m → Covers m p x → find_covering m p ≡ some x
  unfolding find_covering
  Covers-find_covering s (here a b) = ground arith
  Covers-find_covering s (last a b) = ground arith
  Covers-find_covering s (later {e} {f} c) =
      ground (arith, Covers-find_covering s.1 c, head-le s.1 c)
