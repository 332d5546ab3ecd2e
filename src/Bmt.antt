-- ===== src/Bmt.antt =====
-- src/bmt.c: BMT pages, their mcells, and the records of an mcell.
pub mod Records
use advfs_fuse.Base.{
  ℕ, zero, suc, ◌+◌, ◌-◌, Bool, true, false, ◌||◌, Option, none, some, ltb, leb, ◌==◌,
  if◌then◌else◌, Result, ok, err, ◌>>=◌, einval, eilseq,
}
use advfs_fuse.Ods.{
  Bytes, read_u32, bsr_nil, rec_hdr_sz, bsc_r_sz, bspg_cells, rec_bcnt, rec_type, rec_next_off,
  Mcell, BmtPage, bmt_pg_mcell, bmt_pg_version, first_valid_version, last_valid_version,
}
use advfs_fuse.Volume.{Volume, read_page, fresh}

-- The version check of advfs_bmt_read_page.
unfoldable pub check_page : BmtPage → Result BmtPage
unfolding bmt_pg_version
check_page pg =
    let version = bmt_pg_version pg in
    if ltb version first_valid_version || ltb last_valid_version version then err eilseq else ok pg

-- advfs_bmt_read_page; `none` is a NULL volume.
unfoldable pub bmt_read_page : Option Volume → ℕ → Result BmtPage
unfolding read_page check_page
bmt_read_page none page_num = err einval
bmt_read_page (some vol) page_num = read_page (some vol) page_num fresh >>= check_page

-- advfs_bmt_get_mcell; `none` is NULL.
unfoldable pub get_mcell : BmtPage → ℕ → Option Mcell
unfolding bmt_pg_mcell
get_mcell pg cell_idx = if leb bspg_cells cell_idx then none else some (bmt_pg_mcell pg cell_idx)

-- A record that was found: the offset of its header in the record area, and the raw header.
pub record Rec : Type 0 where
  pub offset : ℕ
  pub hdr : ℕ

-- How the loop of advfs_bmt_find_rec ends; `unfinished` says that the rounds ran out.
pub data Scan : Type 0 where
  found : Rec → Scan
  absent : Scan
  unfinished : Scan

-- The loop of advfs_bmt_find_rec, with `ptr` the offset from `base`.
unfoldable pub scan_records : ℕ → Bytes → ℕ → ℕ → Scan
unfolding rec_bcnt rec_type rec_next_off
scan_records zero b type ptr = unfinished
scan_records (suc rounds) b type ptr =
    let hdr = read_u32 b ptr in
    let bcnt = rec_bcnt hdr in
    let later = scan_records rounds b type (ptr + rec_next_off bcnt) in
    if ltb bsc_r_sz (ptr + rec_hdr_sz)
    then absent
    else if rec_type hdr == bsr_nil
    then absent
    else if ltb bcnt rec_hdr_sz || ltb bsc_r_sz (ptr + bcnt)
    then absent
    else if rec_type hdr == type
    then found (record { offset = ptr; hdr = hdr })
    else later

-- Each round moves on by 4 bytes or more, so 68 rounds pass the end of the 268 bytes.
abbrev pub scan_rounds : ℕ
scan_rounds = 68

unfoldable pub scan_result : Scan → Option Rec
scan_result (found r) = some r
scan_result absent = none
scan_result unfinished = none

-- advfs_bmt_find_rec on the record area of an mcell.
unfoldable pub find_rec : Bytes → ℕ → Option Rec
unfolding scan_records scan_result
find_rec b type = scan_result (scan_records scan_rounds b type 0)

-- advfs_bmt_next_rec; the current record is given by its offset from `base`.
unfoldable pub next_rec : Bytes → ℕ → Option ℕ
unfolding rec_bcnt rec_type rec_next_off
next_rec b ptr =
    let hdr = read_u32 b ptr in
    let next = ptr + rec_next_off (rec_bcnt hdr) in
    if ltb bsc_r_sz (ptr + rec_hdr_sz)
    then none
    else if rec_type hdr == bsr_nil
    then none
    else if ltb (rec_bcnt hdr) rec_hdr_sz
    then none
    else if ltb bsc_r_sz (next + rec_hdr_sz)
    then none
    else if rec_type (read_u32 b next) == bsr_nil
    then none
    else some next
