-- ===== src/Domain/Lookup.antt =====
-- domain_find_vd finds volumes by their index in the domain and not by their slot.
use advfs_fuse.Base.{ℕ, ◌≡◌, refl, ◌≢◌, ◌⊎◌, inl, inr, List, [], ◌∷◌, none, some, arith, All}
use native.Mathlib.Decide.{ℕ_discrete}
use advfs_fuse.Domain.{DomainVd, find_vd_in, find_vd}

-- `d` is the first entry of the table with its index.
pub data FirstWith (i : ℕ) (d : DomainVd) : List DomainVd → Type 0 where
  here : {x : DomainVd} {rest : List DomainVd} → x ≡ d → x.vd_index ≡ i → FirstWith i d (x ∷ rest)
  there :
      {x : DomainVd} {rest : List DomainVd}
      → x.vd_index ≢ i
      → FirstWith i d rest
      → FirstWith i d (x ∷ rest)

find_vd_here :
    (x : DomainVd) (rest : List DomainVd) (i : ℕ)
    → x.vd_index ≡ i
    → find_vd_in (x ∷ rest) i ≡ some x
unfolding find_vd_in
find_vd_here x rest i e = ground arith

find_vd_there :
    (x : DomainVd) (rest : List DomainVd) (i : ℕ)
    → x.vd_index ≢ i
    → find_vd_in (x ∷ rest) i ≡ find_vd_in rest i
unfolding find_vd_in
find_vd_there x rest i n = ground arith

find_vd_in-FirstWith :
    (vds : List DomainVd) (i : ℕ)
    → ((d : DomainVd) × (find_vd_in vds i ≡ some d) × FirstWith i d vds)
      ⊎ ((find_vd_in vds i ≡ none) × All (λ d. d.vd_index ≢ i) vds)
find_vd_in-FirstWith [] i = inr (unfold find_vd_in in refl, tt)
find_vd_in-FirstWith (x ∷ rest) i = elim (ℕ_discrete x.vd_index i) [
  | yes e ↦ inl (x, find_vd_here x rest i e, here refl e)
  | no n ↦ elim (find_vd_in-FirstWith rest i) [
    | inl (d, found, first) ↦ inl (d, rw (find_vd_there x rest i n) found, there n first)
    | inr (absent, all) ↦ inr (rw (find_vd_there x rest i n) absent, (n, all))
  ]
]

find_vd_skip_alias :
    (x : DomainVd) (rest : List DomainVd) (i : ℕ)
    → i ≢ 0
    → find_vd (x ∷ rest) i ≡ find_vd_in (x ∷ rest) i
unfolding find_vd
find_vd_skip_alias x rest i n = ground arith

-- For an index other than 0, domain_find_vd returns the first attached volume with that index in
-- whatever slot it stands, and NULL exactly when no attached volume has it.
pub find_vd-FirstWith :
    (vds : List DomainVd) (i : ℕ)
    → i ≢ 0
    → ((d : DomainVd) × (find_vd vds i ≡ some d) × FirstWith i d vds)
      ⊎ ((find_vd vds i ≡ none) × All (λ d. d.vd_index ≢ i) vds)
find_vd-FirstWith [] i n = inr (unfold find_vd in refl, tt)
find_vd-FirstWith (x ∷ rest) i n =
    rw (find_vd_skip_alias x rest i n) (find_vd_in-FirstWith (x ∷ rest) i)
