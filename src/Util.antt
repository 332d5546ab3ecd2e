-- ===== src/Util.antt =====
-- src/util.h and src/util.c: page and block conversions, and the resolution of BMT page numbers.
pub mod Resolve
use advfs_fuse.Base.{
  ℕ, ◌+◌, ◌-◌, ◌*◌, ◌/◌, ◌%◌, Bool, true, false, ◌||◌, List, [], ◌∷◌, Option, none, some, ltb, leb,
  ◌==◌, if◌then◌else◌, length, Result, ok, err, Errno, enoent, einval, erange,
}
use advfs_fuse.Ods.{
  u32_mod, u64_mod, uint32_max, pgsz, blksz, blks_per_pg, reserved_blks, xtnt_term, perm_hole, Xtnt,
}

unfoldable pub page_to_offset : ℕ → ℕ
page_to_offset page = page * pgsz % u64_mod

unfoldable pub block_to_offset : ℕ → ℕ
block_to_offset block = block * blksz % u64_mod

unfoldable pub block_to_page : ℕ → ℕ
block_to_page block = block / blks_per_pg

unfoldable pub page_to_block : ℕ → ℕ
page_to_block page = page * blks_per_pg % u32_mod

-- The loop of advfs_bmt_resolve_page: the entry that covers the page, if one does.
unfoldable pub find_bmt_entry : List Xtnt → ℕ → Option Xtnt
find_bmt_entry [] page = none
find_bmt_entry (e ∷ []) page =
    if ltb page e.bs_page then none else if e.vd_blk == xtnt_term then none else some e
find_bmt_entry (e ∷ f ∷ rest) page =
    let later = find_bmt_entry (f ∷ rest) page in
    if ltb page e.bs_page then later else if ltb page f.bs_page then some e else later

-- The code behind the loop.
unfoldable pub bmt_entry_page : Option Xtnt → ℕ → Result ℕ
bmt_entry_page none page = err enoent
bmt_entry_page (some e) page =
    if e.vd_blk == xtnt_term || e.vd_blk == perm_hole
    then err enoent
    else let page_offset = (page + u32_mod - e.bs_page) % u32_mod in
      let disk_block = (e.vd_blk + page_offset * blks_per_pg) % u64_mod in
      if ltb uint32_max disk_block then err erange else ok (disk_block / blks_per_pg)

-- advfs_bmt_resolve_page. The flag says whether `vol_page_out` is not NULL; the map is `none` for
-- a NULL `bmt_map`, and its length is `bmt_map_count`.
unfoldable pub bmt_resolve_page : Bool → Option (List Xtnt) → ℕ → Result ℕ
unfolding find_bmt_entry bmt_entry_page
bmt_resolve_page false map page = err einval
bmt_resolve_page true none page = if page == 0 then ok (reserved_blks / blks_per_pg) else err enoent
bmt_resolve_page true (some []) page =
    if page == 0 then ok (reserved_blks / blks_per_pg) else err enoent
bmt_resolve_page true (some (e ∷ rest)) page = bmt_entry_page (find_bmt_entry (e ∷ rest) page) page
