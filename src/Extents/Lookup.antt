-- ===== src/Extents/Lookup.antt =====
-- The loop of read_data_core that finds the extent of a page, and what an extent says of a page.
use advfs_fuse.Base.{
  ℕ, ◌+◌, ◌-◌, ◌*◌, ◌≡◌, refl, ◌↔◌, Bool, List, [], ◌∷◌, Option, none, some, arith, ltb,
  if◌then◌else◌,
}
use advfs_fuse.Runs.{Covers, IsSorted, find_covering, find_covering-Covers, Covers-find_covering}
use advfs_fuse.Ods.{is_hole}
use advfs_fuse.Extents.{Extent}

-- The `for` loop over the extents; `none` is `found < 0`.
unfoldable pub find_extent : List Extent → ℕ → Option Extent
find_extent [] page = none
find_extent (e ∷ []) page =
    if ltb page e.bs_page then none else if is_hole e.vd_blk then none else some e
find_extent (e ∷ f ∷ rest) page =
    let later = find_extent (f ∷ rest) page in
    if ltb page e.bs_page then later else if ltb page f.bs_page then some e else later

abbrev pub extent_start : Extent → ℕ
extent_start e = e.bs_page

abbrev pub extent_stops : Extent → Bool
extent_stops e = is_hole e.vd_blk

find_extent-covering :
    (m : List Extent) (page : ℕ)
    → find_extent m page ≡ find_covering extent_start extent_stops m page
unfolding find_extent find_covering
find_extent-covering [] page = refl
find_extent-covering (e ∷ []) page = refl
find_extent-covering (e ∷ f ∷ rest) page = ground (arith, find_extent-covering (f ∷ rest) page)

-- On an extent map sorted by start page, the lookup loop of read_data_core finds an extent exactly
-- when the extent covers the page: from its start up to the start of the next one, or without end
-- if it is the last and neither TERM nor PERM_HOLE.
pub find_extent-iff-Covers :
    (m : List Extent) (page : ℕ) (e : Extent)
    → IsSorted extent_start extent_stops m
    → (find_extent m page ≡ some e) ↔ Covers extent_start extent_stops m page e
find_extent-iff-Covers m page e s = rw (find_extent-covering m page) (
    (
      find_covering-Covers extent_start extent_stops m page,
      Covers-find_covering extent_start extent_stops s,
    ))

-- Where a page lies: in a hole, with its marker, or at a disk block of a volume.
pub data Place : Type 0 where
  hole : ℕ → Place
  block : ℕ → ℕ → Place

-- The place that an extent gives a page, with the block in exact arithmetic.
abbrev pub entry_place : Extent → ℕ → Place
entry_place e page =
    if is_hole e.vd_blk
    then hole e.vd_blk
    else block (e.vd_blk + (page - e.bs_page) * 16) e.vd_index

-- `j` pages further on.
abbrev pub shift_place : ℕ → Place → Place
shift_place j (hole m) = hole m
shift_place j (block b vd) = block (b + j * 16) vd
