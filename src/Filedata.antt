-- ===== src/Filedata.antt =====
-- src/filedata.c: from a file's tag to its mcell, its records and its extent map.
pub mod Records
pub mod Copy
pub mod Scan
pub mod Read
use advfs_fuse.Base.{
  ℕ, zero, suc, Bool, true, false, not, ◌&&◌, ◌||◌, ◌+◌, ◌/◌, ◌%◌, List, [], ◌∷◌, Option, none,
  some, ltb, leb, ◌==◌, if◌then◌else◌, Result, stuck, ok, err, ◌>>=◌, enoent, enodata, einval,
  Errno,
}
use advfs_fuse.Ods.{
  Bytes, BfTag, Xtnt, Mcell, BmtPage, xtnt_term, bspg_cells, u32_mod, rec_data_sz, rec_hdr_sz,
  bsr_xtnts, mcid_page, mcid_cell, TagDirPage, tags_per_pg, tmap_seq_no, tmap_vd_index, tmap_mcid,
  tmap_in_use, advance,
}
use advfs_fuse.Volume.{fresh}
use advfs_fuse.Bmt.{Rec, get_mcell, find_rec}
use advfs_fuse.Domain.{DomainVd, Domain, read_bmt_page_vd}
use advfs_fuse.Extents.{Extent, max_extents}
use advfs_fuse.Extents.ReadData.{PageRead, read_data_dom}
use advfs_fuse.Extents.Chain.{extents_read_dom}

abbrev pub max_bmt_scan_pages : ℕ
max_bmt_scan_pages = 4096

-- The page count that one BMT extent stands for: a terminator is exact, the last entry gets 64
-- pages, and others one.
unfoldable pub scan_cand : Xtnt → List Xtnt → ℕ
scan_cand x rest =
    if x.vd_blk == xtnt_term
    then x.bs_page
    else (x.bs_page + elim rest [ [] ↦ 64 | y ∷ r ↦ 1 ]) % u32_mod

-- The loop of bmt_scan_pages.
unfoldable pub scan_max : List Xtnt → ℕ → ℕ
unfolding scan_cand
scan_max [] max_pages = max_pages
scan_max (x ∷ rest) max_pages =
    scan_max rest (if ltb max_pages (scan_cand x rest) then scan_cand x rest else max_pages)

-- bmt_scan_pages
unfoldable pub bmt_scan_pages : List Xtnt → ℕ
unfolding scan_max
bmt_scan_pages map =
    let max_pages = scan_max map 0 in
    let capped = if ltb max_bmt_scan_pages max_pages then max_bmt_scan_pages else max_pages in
    if capped == 0 then 16 else capped

-- Where a mcell stands: volume, BMT page and cell.
pub record McellAt : Type 0 where
  pub vd : ℕ
  pub page : ℕ
  pub cell : ℕ

-- The test on one cell of a scanned page.
unfoldable pub is_tag_mcell : BfTag → ℕ → Option Mcell → Bool
is_tag_mcell fs_tag target none = false
is_tag_mcell fs_tag target (some mc) =
    not (mc.tag.num == 0) && (mc.tag.num == target && mc.bf_set_tag.num == fs_tag.num)

-- The cell loop, from cell `c` on, with `left` cells to go.
unfoldable pub scan_cells : BfTag → ℕ → BmtPage → ℕ → ℕ → Option ℕ
unfolding is_tag_mcell get_mcell
scan_cells fs_tag target pg c zero = none
scan_cells fs_tag target pg c (suc left) =
    let later = scan_cells fs_tag target pg (c + 1) left in
    if is_tag_mcell fs_tag target (get_mcell pg c) then some c else later

-- What one page of the scan gives: an unreadable page is skipped.
unfoldable pub scan_page : BfTag → ℕ → Result BmtPage → Result (Option ℕ)
unfolding scan_cells
scan_page fs_tag target stuck = stuck
scan_page fs_tag target (err e) = ok none
scan_page fs_tag target (ok pg) = ok (scan_cells fs_tag target pg 0 bspg_cells)

-- The page loop, from page `pg` on, with `left` pages to go.
unfoldable pub scan_pages : Domain → BfTag → ℕ → ℕ → ℕ → ℕ → Result (Option McellAt)
unfolding scan_page read_bmt_page_vd
scan_pages domain fs_tag target vd pg zero = ok none
scan_pages domain fs_tag target vd pg (suc left) =
    scan_page fs_tag target (read_bmt_page_vd domain vd pg) >>= λ found. elim found [
      | some c ↦ ok (some (record { vd = vd; page = pg; cell = c }))
      | none ↦ scan_pages domain fs_tag target vd (pg + 1) left
    ]

-- The volume loop.
unfoldable pub scan_volumes : Domain → BfTag → ℕ → List DomainVd → Result McellAt
unfolding bmt_scan_pages scan_pages
scan_volumes domain fs_tag target [] = err enoent
scan_volumes domain fs_tag target (d ∷ rest) =
    scan_pages domain fs_tag target d.vd_index 0 (bmt_scan_pages d.bmt_map) >>= λ found.
    elim found [ some at ↦ ok at | none ↦ scan_volumes domain fs_tag target rest ]

-- find_tag_by_bmt_scan; a context without a volume table scans the primary volume only.
unfoldable pub find_tag_by_bmt_scan : Domain → BfTag → ℕ → Result McellAt
unfolding scan_volumes
find_tag_by_bmt_scan domain fs_tag target = elim domain.vds [
  | [] ↦
      scan_volumes domain fs_tag target
        (record { vol = domain.vol; vd_index = 0; bmt_map = domain.bmt_map } ∷ [])
  | d ∷ rest ↦ scan_volumes domain fs_tag target (d ∷ rest)
]

-- The BMT scan with its error: whatever fails, the tag is not found.
unfoldable pub or_not_found : Result McellAt → Result McellAt
or_not_found stuck = stuck
or_not_found (err e) = err enoent
or_not_found (ok at) = ok at

-- The slot of the tag directory page, or the scan where the page or the slot is of no use.
unfoldable pub from_tag_page : Domain → BfTag → BfTag → Result PageRead → Result McellAt
unfolding find_tag_by_bmt_scan or_not_found tmap_in_use tmap_seq_no tmap_vd_index tmap_mcid
from_tag_page domain fs_tag file_tag stuck = stuck
from_tag_page domain fs_tag file_tag (err e) =
    or_not_found (find_tag_by_bmt_scan domain fs_tag file_tag.num)
from_tag_page domain fs_tag file_tag (ok tag_pg) =
    let i = file_tag.num % tags_per_pg in
    let mcid = tmap_mcid tag_pg.bytes i in
    let at : McellAt = record {
      vd = tmap_vd_index tag_pg.bytes i;
      page = mcid_page mcid;
      cell = mcid_cell mcid;
    } in
    let scanned = or_not_found (find_tag_by_bmt_scan domain fs_tag file_tag.num) in
    if tmap_in_use tag_pg.bytes i && not (tmap_seq_no tag_pg.bytes i == 0xffff)
    then ok at
    else scanned

-- resolve_tag_mcell
unfoldable pub resolve_tag_mcell : Domain → List Extent → BfTag → BfTag → Result McellAt
unfolding from_tag_page read_data_dom
resolve_tag_mcell domain fs_tag_extents fs_tag file_tag =
    from_tag_page domain fs_tag file_tag
      (read_data_dom (some domain) fs_tag_extents (file_tag.num / tags_per_pg) fresh)
