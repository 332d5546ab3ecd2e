-- ===== src/Extents.antt =====
-- src/extents.c: extent descriptors, their collection from on-disk arrays, and the page count.
pub mod Chain
pub mod Count
pub mod Lookup
pub mod ReadData
pub mod Stripe
use advfs_fuse.Base.{
  ℕ, zero, suc, ◌+◌, ◌%◌, ◌||◌, List, [], ◌∷◌, ◌++◌, Option, none, some, ltb, leb, ◌==◌,
  if◌then◌else◌, length, Result, ok, err, ◌>>=◌, eoverflow,
}
use advfs_fuse.Ods.{Bytes, u32_mod, is_hole, Xtnt, read_xtnt}

-- `advfs_extent_t`.
pub record Extent : Type 0 where
  pub bs_page : ℕ
  pub vd_blk : ℕ
  pub vd_index : ℕ

abbrev pub extent : ℕ → ℕ → ℕ → Extent
extent bs_page vd_blk vd_index = record { bs_page = bs_page; vd_blk = vd_blk; vd_index = vd_index }

-- ADVFS_MAX_EXTENTS
abbrev pub max_extents : ℕ
max_extents = 32768

-- append_extent: the output array is a list, and `*count` is its length.
unfoldable pub append_extent : List Extent → ℕ → ℕ → ℕ → ℕ → Result (List Extent)
append_extent out max bs_page vd_blk vd =
    if leb max (length out) then err eoverflow else ok (out ++ extent bs_page vd_blk vd ∷ [])

-- The loop of collect_array from index `i`, with `left` descriptors to go.
unfoldable pub collect_from : Bytes → ℕ → ℕ → List Extent → ℕ → ℕ → Result (List Extent)
unfolding append_extent
collect_from xtnts i zero out max vd = ok out
collect_from xtnts i (suc left) out max vd =
    let x = read_xtnt xtnts i in
    append_extent out max x.bs_page x.vd_blk vd >>= λ out'.
    collect_from xtnts (i + 1) left out' max vd

-- collect_array
unfoldable pub collect_array : Bytes → ℕ → ℕ → List Extent → ℕ → ℕ → Result (List Extent)
unfolding collect_from
collect_array xtnts x_cnt x_max out max vd =
    collect_from xtnts 0 (if ltb x_max x_cnt then x_max else x_cnt) out max vd

-- The candidate page count of one entry: `uint32_t cand`.
unfoldable pub page_cand : Extent → ℕ
page_cand e = if is_hole e.vd_blk then e.bs_page else (e.bs_page + 1) % u32_mod

-- The loop of advfs_extents_page_count, on `max_page`.
unfoldable pub page_count_from : ℕ → List Extent → ℕ
unfolding page_cand
page_count_from max_page [] = max_page
page_count_from max_page (e ∷ rest) =
    page_count_from (if ltb max_page (page_cand e) then page_cand e else max_page) rest

-- advfs_extents_page_count; the array is `none` if the pointer is NULL.
unfoldable pub page_count : Option (List Extent) → ℕ
unfolding page_count_from
page_count none = 0
page_count (some extents) = page_count_from 0 extents
