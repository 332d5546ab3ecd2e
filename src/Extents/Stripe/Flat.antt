-- ===== src/Extents/Stripe/Flat.antt =====
-- Extent maps that are still being built: lookups with the end of the map given, and how they
-- change when an entry is appended or the end moves.
use advfs_fuse.Base.{
  ℕ, ◌≤◌, ◌<◌, ◌≡◌, List, [], ◌∷◌, ◌++◌, Option, none, some, arith, ltb, if◌then◌else◌, All,
  get_last?,
}
use advfs_fuse.Ods.{xtnt_term}
use advfs_fuse.Extents.{Extent, extent}
use advfs_fuse.Extents.Lookup.{find_extent}

-- The entry that covers a page if the last entry ends at `end`.
unfoldable pub find_upto : List Extent → ℕ → ℕ → Option Extent
find_upto [] end p = none
find_upto (e ∷ []) end p = if ltb p e.bs_page then none else if ltb p end then some e else none
find_upto (e ∷ f ∷ rest) end p =
    let later = find_upto (f ∷ rest) end p in
    if ltb p e.bs_page then later else if ltb p f.bs_page then some e else later

abbrev pub Before : ℕ → List Extent → Type 0
Before n = All (λ e. e.bs_page ≤ n)

-- The final terminator is the end of the map for the reader.
pub find_extent-concat :
    (out : List Extent) (end vd p : ℕ)
    → find_extent (out ++ extent end xtnt_term vd ∷ []) p ≡ find_upto out end p
unfolding find_extent find_upto
find_extent-concat [] end vd p = ground arith
find_extent-concat (e ∷ []) end vd p = ground arith
find_extent-concat (e ∷ f ∷ rest) end vd p = ground (arith, find_extent-concat (f ∷ rest) end vd p)

pub find_upto-concat :
    (out : List Extent) (x : Extent) (end p : ℕ)
    → Before x.bs_page out
    → find_upto (out ++ x ∷ []) end p
      ≡ (if ltb p x.bs_page then find_upto out x.bs_page p else if ltb p end then some x else none)
unfolding find_upto
find_upto-concat [] x end p b = ground arith
find_upto-concat (e ∷ []) x end p b = ground arith
find_upto-concat (e ∷ f ∷ rest) x end p b = ground (arith, find_upto-concat (f ∷ rest) x end p b.1)

-- Moving the end further keeps what was found.
pub find_upto_extend :
    (out : List Extent) (end end' p : ℕ) (x : Extent)
    → end ≤ end'
    → find_upto out end p ≡ some x
    → find_upto out end' p ≡ some x
unfolding find_upto
find_upto_extend [] end end' p x le h = ground arith
find_upto_extend (e ∷ []) end end' p x le h = ground arith
find_upto_extend (e ∷ f ∷ rest) end end' p x le h =
    ground (arith, find_upto_extend (f ∷ rest) end end' p x le)

-- Past all starts, the last entry covers up to the end.
pub find_upto-get_last? :
    (out : List Extent) (end p : ℕ) {e : Extent}
    → get_last? out ≡ some e
    → Before p out
    → p < end
    → find_upto out end p ≡ some e
unfolding find_upto
find_upto-get_last? [] end p h b lt = ground arith
find_upto-get_last? (e ∷ []) end p h b lt = ground arith
find_upto-get_last? (e ∷ f ∷ rest) end p h b lt =
    ground (arith, find_upto-get_last? (f ∷ rest) end p h b.1 lt)
