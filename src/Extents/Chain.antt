-- ===== src/Extents/Chain.antt =====
-- extents_read_core of src/extents.c: the extent map of a bitfile from its chain of mcells.
pub mod Links
pub mod Walked
pub mod Hops
pub mod Map
pub mod Read
use advfs_fuse.Base.{
  ℕ, zero, suc, Bool, true, false, not, ◌&&◌, ◌+◌, List, [], ◌∷◌, ◌++◌, Option, none, some, ltb,
  leb, ◌==◌, if◌then◌else◌, length, Result, ok, err, ◌>>=◌, enodata, einval, eilseq, Errno,
}
use advfs_fuse.Ods.{
  Bytes, advance, Xtnt, Mcell, BmtPage, bsr_xtnts, bsr_xtra_xtnts, bsr_shadow_xtnts, rec_hdr_sz,
  rec_data_sz, bsxmt_stripe, bmt_xtnts, bmt_xtra_xtnts, bmt_shadow_xtnts, xtnt_rec_sz, mcid_page,
  mcid_cell, XtntRec, xtnt_type, chain_vd_index, chain_mcid, segment_size, prim_x_cnt, prim_xtnts,
  xtra_x_cnt, xtra_xtnts, shadow_x_cnt, shadow_xtnts,
}
use advfs_fuse.Util.{bmt_resolve_page}
use advfs_fuse.Volume.{Volume}
use advfs_fuse.Bmt.{Rec, bmt_read_page, get_mcell, find_rec}
use advfs_fuse.Domain.{DomainVd, Domain, read_bmt_page_vd}
use advfs_fuse.Extents.{Extent, max_extents, append_extent, collect_array}
use advfs_fuse.Extents.Stripe.{max_stripe_cols, stripe_interleave}

-- `xtnt_src_t`: a domain, or a single volume with its BMT map.
pub data XtntSrc : Type 0 where
  in_domain : Domain → XtntSrc
  legacy : Option Volume → Option (List Xtnt) → XtntSrc

-- src_read_bmt_page
unfoldable pub src_read_bmt_page : XtntSrc → ℕ → ℕ → Result BmtPage
unfolding read_bmt_page_vd bmt_resolve_page bmt_read_page
src_read_bmt_page (in_domain domain) vd page_num = read_bmt_page_vd domain vd page_num
src_read_bmt_page (legacy vol map) vd page_num =
    bmt_resolve_page true map page_num >>= λ vol_page. bmt_read_page vol vol_page

abbrev pub is_domain : XtntSrc → Bool
is_domain (in_domain domain) = true
is_domain (legacy vol map) = false

-- `src->domain && index != 0 ? index : vd`
unfoldable pub next_vd : XtntSrc → ℕ → ℕ → ℕ
next_vd src index vd = if is_domain src && not (index == 0) then index else vd

-- The variables that the chain loop changes: `raw` with `raw_cnt`, `col_start` with `ncols`, and
-- `found_shadow`.
pub record Walk : Type 0 where
  pub raw : List Extent
  pub col_start : List ℕ
  pub found_shadow : Bool

-- The data of a record, behind its header.
abbrev pub rec_bytes : Mcell → Rec → Bytes
rec_bytes mc r = advance mc.records (r.offset + rec_hdr_sz)

unfoldable pub put_raw : Walk → Result (List Extent) → Result Walk
put_raw w collected = collected >>= λ raw. ok (record w { raw = raw })

-- A BSR_XTRA_XTNTS record continues the map.
unfoldable pub take_xtra : Walk → Mcell → Rec → ℕ → Result Walk
unfolding put_raw
take_xtra w mc r vd =
    let xtra = rec_bytes mc r in
    if ltb (rec_data_sz r.hdr) 4
    then err eilseq
    else put_raw w
        (collect_array (xtra_xtnts xtra) (xtra_x_cnt xtra) bmt_xtra_xtnts w.raw max_extents vd)

-- The first shadow record discards the stubs of the primary record.
unfoldable pub discard_stubs : Walk → Walk
discard_stubs w = if w.found_shadow then w else record w { raw = []; found_shadow = true }

-- Each shadow record starts a stripe column; at most 16 are recorded.
unfoldable pub start_column : Bool → Walk → Result Walk
start_column is_stripe w =
    if leb max_stripe_cols (length w.col_start)
    then (if is_stripe then err eilseq else ok w)
    else ok (record w { col_start = w.col_start ++ length w.raw ∷ [] })

unfoldable pub take_shadow : Bool → Walk → Mcell → Rec → ℕ → Result Walk
unfolding put_raw discard_stubs start_column
take_shadow is_stripe w mc r vd =
    let shadow = rec_bytes mc r in
    if ltb (rec_data_sz r.hdr) 8
    then err eilseq
    else start_column is_stripe (discard_stubs w) >>= λ w'. put_raw w' (
        collect_array (shadow_xtnts shadow) (shadow_x_cnt shadow) bmt_shadow_xtnts w'.raw
          max_extents vd)

-- One round of the chain loop ends it (`break`) or goes on to the mcell's successor.
pub data Hop : Type 0 where
  stop : Walk → Hop
  follow : Walk → Hop

-- The records of a chain mcell: BSR_XTRA_XTNTS first, then BSR_SHADOW_XTNTS.
unfoldable pub hop_records : Bool → Walk → Mcell → ℕ → Option Rec → Option Rec → Result Hop
unfolding take_xtra take_shadow
hop_records is_stripe w mc vd (some r) shadow = take_xtra w mc r vd >>= λ w'. ok (follow w')
hop_records is_stripe w mc vd none (some r) =
    take_shadow is_stripe w mc r vd >>= λ w'. ok (follow w')
hop_records is_stripe w mc vd none none = ok (stop w)

unfoldable pub hop_mcell : Bool → Walk → Mcell → ℕ → Result Hop
unfolding hop_records find_rec
hop_mcell is_stripe w mc vd =
    hop_records is_stripe w mc vd (find_rec mc.records bsr_xtra_xtnts)
      (find_rec mc.records bsr_shadow_xtnts)

-- advfs_bmt_get_mcell, with the error that a NULL gives.
unfoldable pub cell_or : Errno → BmtPage → ℕ → Result Mcell
unfolding get_mcell
cell_or e pg cell_idx = elim (get_mcell pg cell_idx) [ none ↦ err e | some mc ↦ ok mc ]

-- The chain loop, with the hops that are left.
unfoldable pub walk_chain : ℕ → XtntSrc → Bool → ℕ → ℕ → Walk → Result Walk
unfolding src_read_bmt_page hop_mcell cell_or next_vd
walk_chain zero src is_stripe vd mcid w = ok w
walk_chain (suc hops) src is_stripe vd mcid w =
    let round = src_read_bmt_page src vd (mcid_page mcid) >>= λ pg.
    cell_or eilseq pg (mcid_cell mcid) >>= λ mc. hop_mcell is_stripe w mc vd >>= λ h. elim h [
      | stop w' ↦ ok w'
      | follow w' ↦ walk_chain hops src is_stripe (next_vd src mc.next_vd_index vd) mc.next_mcid w'
    ] in
    if mcid == 0 then ok w else round

abbrev pub max_chain_hops : ℕ
max_chain_hops = 512

-- The loop that copies the collected extents out.
unfoldable pub copy_out : List Extent → List Extent → ℕ → Result (List Extent)
unfolding append_extent
copy_out [] out max = ok out
copy_out (e ∷ rest) out max =
    append_extent out max e.bs_page e.vd_blk e.vd_index >>= λ out'. copy_out rest out' max

-- The code behind the chain loop.
unfoldable pub finish_map : Bool → ℕ → ℕ → Walk → Result (List Extent)
unfolding copy_out
finish_map is_stripe seg_sz max w =
    if is_stripe && leb 2 (length w.col_start)
    then (if seg_sz == 0
        then err eilseq
        else stripe_interleave true w.raw (w.col_start ++ length w.raw ∷ []) (length w.col_start)
            seg_sz max)
    else copy_out w.raw [] max

-- extents_read_core from the BSR_XTNTS record on.
unfoldable pub read_from : XtntSrc → ℕ → ℕ → XtntRec → Result (List Extent)
unfolding walk_chain finish_map
read_from src prim_vd max xr =
    let is_stripe = xtnt_type xr == bsxmt_stripe && is_domain src in
    collect_array (prim_xtnts xr) (prim_x_cnt xr) bmt_xtnts [] max_extents prim_vd >>= λ raw.
    walk_chain max_chain_hops src is_stripe (next_vd src (chain_vd_index xr) prim_vd)
      (chain_mcid xr) (record { raw = raw; col_start = []; found_shadow = false })
    >>= λ w. finish_map is_stripe (segment_size xr) max w

unfoldable pub read_primary : XtntSrc → ℕ → ℕ → Mcell → Option Rec → Result (List Extent)
unfolding read_from
read_primary src prim_vd max mc none = err enodata
read_primary src prim_vd max mc (some r) =
    if ltb (rec_data_sz r.hdr) xtnt_rec_sz
    then err eilseq
    else read_from src prim_vd max (rec_bytes mc r)

-- extents_read_core
unfoldable pub extents_read_core : XtntSrc → ℕ → BmtPage → ℕ → ℕ → Result (List Extent)
unfolding cell_or read_primary find_rec
extents_read_core src prim_vd prim_pg cell_idx max = cell_or einval prim_pg cell_idx >>= λ mc.
    read_primary src prim_vd max mc (find_rec mc.records bsr_xtnts)

-- advfs_extents_read
unfoldable pub extents_read : Option Volume → Option (List Xtnt) → ℕ → ℕ → ℕ → Result (List Extent)
unfolding bmt_read_page extents_read_core
extents_read none map vol_page cell_idx max = err einval
extents_read (some vol) map vol_page cell_idx max =
    if max == 0
    then err einval
    else bmt_read_page (some vol) vol_page >>= λ pg.
        extents_read_core (legacy (some vol) map) 0 pg cell_idx max

-- The `default volume` alias 0 is the first volume of the table.
unfoldable pub concrete_vd : List DomainVd → ℕ → ℕ
concrete_vd [] vd_index = vd_index
concrete_vd (d ∷ rest) vd_index = if vd_index == 0 then d.vd_index else vd_index

-- advfs_extents_read_dom
unfoldable pub extents_read_dom : Option Domain → ℕ → ℕ → ℕ → ℕ → Result (List Extent)
unfolding read_bmt_page_vd concrete_vd extents_read_core
extents_read_dom none vd_index page_num cell_idx max = err einval
extents_read_dom (some domain) vd_index page_num cell_idx max =
    if max == 0
    then err einval
    else read_bmt_page_vd domain vd_index page_num >>= λ pg.
        extents_read_core (in_domain domain) (concrete_vd domain.vds vd_index) pg cell_idx max
