-- ===== src/Extents/Stripe.antt =====
-- advfs_extents_stripe_interleave and its column lookup.
pub mod Pages
pub mod Columns
pub mod Placed
pub mod Flat
pub mod Loop
pub mod Interleave
pub mod Correct
use advfs_fuse.Base.{
  ℕ, zero, suc, ◌+◌, ◌-◌, ◌*◌, ◌/◌, ◌%◌, Bool, true, false, not, ◌&&◌, ◌||◌, List, [], ◌∷◌, Option,
  none, some, ltb, leb, ◌==◌, if◌then◌else◌, length, get_or, get_last?, take, drop, Result, ok, err,
  stuck, ◌>>=◌, einval, erange,
}
use advfs_fuse.Ods.{u32_mod, u64_mod, uint32_max, blks_per_pg, xtnt_term, is_hole}
use advfs_fuse.Extents.{Extent, append_extent, page_count}

abbrev pub max_stripe_cols : ℕ
max_stripe_cols = 16

-- What col_lookup writes through its three out parameters.
pub record ColumnRun : Type 0 where
  pub blk : ℕ
  pub vd : ℕ
  pub run : ℕ

abbrev pub column_run : ℕ → ℕ → ℕ → ColumnRun
column_run blk vd run = record { blk = blk; vd = vd; run = run }

-- The body of col_lookup at an entry that covers `xm`, whose range ends at `end`.
unfoldable pub entry_run : Extent → ℕ → ℕ → ColumnRun
entry_run e end xm =
    let blk64 = (e.vd_blk + (xm + u32_mod - e.bs_page) % u32_mod * blks_per_pg) % u64_mod in
    if is_hole e.vd_blk
    then column_run e.vd_blk e.vd_index (end - xm)
    else column_run (if ltb uint32_max blk64 then xtnt_term else blk64) e.vd_index (end - xm)

-- col_lookup
unfoldable pub col_lookup : List Extent → ℕ → ColumnRun
unfolding entry_run
col_lookup [] xm = column_run xtnt_term 0 uint32_max
col_lookup (e ∷ []) xm =
    if ltb xm e.bs_page || leb uint32_max xm
    then column_run xtnt_term 0 uint32_max
    else entry_run e uint32_max xm
col_lookup (e ∷ f ∷ rest) xm =
    let later = col_lookup (f ∷ rest) xm in
    if ltb xm e.bs_page || leb f.bs_page xm then later else entry_run e f.bs_page xm

-- Column `c`: raw + col_start[c], with col_start[c + 1] - col_start[c] entries.
unfoldable pub column : List Extent → List ℕ → ℕ → List Extent
column raw col_start c =
    take (get_or col_start (c + 1) 0 - get_or col_start c 0) (drop (get_or col_start c 0) raw)

-- The sum of the page counts of columns c, c + 1, ..., `left` of them.
unfoldable pub total_from : List Extent → List ℕ → ℕ → ℕ → ℕ → ℕ
unfolding column
total_from raw col_start c zero total = total
total_from raw col_start c (suc left) total =
    total_from raw col_start (c + 1) left
      ((total + page_count (some (column raw col_start c))) % u64_mod)

-- The column of a file page, and the page within it (Tru64 BFPAGE_TO_XMPAGE).
unfoldable pub page_col : ℕ → ℕ → ℕ → ℕ
page_col ncols segment_size fpage = fpage / segment_size % ncols

unfoldable pub page_xm : ℕ → ℕ → ℕ → ℕ
page_xm ncols segment_size fpage =
    (fpage / segment_size / ncols * segment_size + fpage % segment_size) % u32_mod

-- The pages that one round maps: the rest of the segment, of the run and of the file, at least 1.
unfoldable pub round_pages : ℕ → ℕ → ℕ → ℕ → ℕ
round_pages segment_size total fpage run =
    let in_segment = segment_size - fpage % segment_size in
    let in_run = if ltb run in_segment then run else in_segment in
    let in_file = if ltb (total - fpage) in_run then total - fpage else in_run in
    if in_file == 0 then 1 else in_file

-- Does the run at `fpage` continue the entry emitted last?
unfoldable pub merges : Option Extent → ℕ → ColumnRun → Bool
merges none fpage r = false
merges (some prev) fpage r =
    if is_hole prev.vd_blk && is_hole r.blk && prev.vd_blk == r.blk
    then true
    else not (is_hole prev.vd_blk)
      && not (is_hole r.blk)
      && prev.vd_index == r.vd
      && (prev.vd_blk + (fpage + u32_mod - prev.bs_page) % u32_mod * blks_per_pg) % u64_mod == r.blk

-- The while loop over file pages, on fuel.
unfoldable pub interleave_loop :
    ℕ → List Extent → List ℕ → ℕ → ℕ → ℕ → ℕ → ℕ → List Extent → Result (List Extent)
unfolding column col_lookup page_col page_xm round_pages merges append_extent
interleave_loop zero raw col_start ncols segment_size total max fpage out = stuck
interleave_loop (suc fuel) raw col_start ncols segment_size total max fpage out =
    let r =
      col_lookup (column raw col_start (page_col ncols segment_size fpage))
        (page_xm ncols segment_size fpage) in
    let fpage' = (fpage + round_pages segment_size total fpage r.run) % u32_mod in
    let go = λ (out' : List Extent).
      interleave_loop fuel raw col_start ncols segment_size total max fpage' out' in
    let merged = go out in
    let appended = append_extent out max fpage r.blk r.vd >>= go in
    if ltb fpage total
    then (if merges (get_last? out) fpage r then merged else appended)
    else append_extent out max total xtnt_term 0

-- advfs_extents_stripe_interleave. The flag says that no pointer argument is NULL. A round maps a
-- page or more, so `total + 1` rounds are enough.
unfoldable pub stripe_interleave : Bool → List Extent → List ℕ → ℕ → ℕ → ℕ → Result (List Extent)
stripe_interleave pointers raw col_start ncols segment_size max =
    let total = total_from raw col_start 0 ncols 0 in
    if not pointers || ltb ncols 1 || ltb max_stripe_cols ncols || segment_size == 0 || max == 0
    then err einval
    else if ltb uint32_max total
    then err erange
    else interleave_loop (suc total) raw col_start ncols segment_size total max 0 []
