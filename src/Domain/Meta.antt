-- ===== src/Domain/Meta.antt =====
-- build_meta_extent_map and find_rec_in_page of src/domain.c.
pub mod Joined
pub mod Links
pub mod Errors
use advfs_fuse.Base.{
  ℕ, zero, suc, true, ◌+◌, List, [], ◌∷◌, ◌++◌, Option, none, some, ltb, ◌==◌, if◌then◌else◌,
  length, Result, stuck, ok, err, ◌>>=◌, einval, eilseq,
}
use advfs_fuse.Ods.{
  Bytes, Xtnt, Mcell, BmtPage, read_xtnt, bspg_cells, bsr_xtnts, bsr_xtra_xtnts, bsr_shadow_xtnts,
  bmt_xtnts, bmt_xtra_xtnts, bmt_shadow_xtnts, xtnt_rec_sz, rec_data_sz, mcid_page, mcid_cell,
  chain_mcid, prim_x_cnt, prim_xtnts, xtra_x_cnt, xtra_xtnts, shadow_x_cnt, shadow_xtnts,
}
use advfs_fuse.Util.{bmt_resolve_page}
use advfs_fuse.Volume.{Volume}
use advfs_fuse.Bmt.{Rec, bmt_read_page, get_mcell, find_rec}
use advfs_fuse.Extents.Chain.{cell_or, rec_bytes}

-- A record found on a page: its data, and its header as `hdr_out` gets it.
pub record PageRec : Type 0 where
  pub bytes : Bytes
  pub hdr : ℕ

-- What one cell gives.
unfoldable pub cell_rec : Option Mcell → ℕ → Option PageRec
unfolding find_rec
cell_rec none rec_type = none
cell_rec (some mc) rec_type = elim (find_rec mc.records rec_type) [
  | none ↦ none
  | some r ↦ some (record { bytes = rec_bytes mc r; hdr = r.hdr })
]

-- The cell loop, from cell `i` on, with `left` cells to go.
unfoldable pub rec_in_cells : BmtPage → ℕ → ℕ → ℕ → Option PageRec
unfolding cell_rec get_mcell
rec_in_cells pg rec_type i zero = none
rec_in_cells pg rec_type i (suc left) = elim (cell_rec (get_mcell pg i) rec_type) [
  | some r ↦ some r
  | none ↦ rec_in_cells pg rec_type (i + 1) left
]

-- find_rec_in_page
unfoldable pub find_rec_in_page : BmtPage → ℕ → Option PageRec
unfolding rec_in_cells
find_rec_in_page pg rec_type = rec_in_cells pg rec_type 0 bspg_cells

abbrev pub max_bmt_extents : ℕ
max_bmt_extents = 4096

-- The loops that collect descriptors: those past the array's end are dropped.
unfoldable pub keep_xtnts : Bytes → ℕ → ℕ → List Xtnt → List Xtnt
keep_xtnts xtnts i zero map = map
keep_xtnts xtnts i (suc left) map =
    keep_xtnts xtnts (i + 1) left
      (if ltb (length map) max_bmt_extents then map ++ read_xtnt xtnts i ∷ [] else map)

unfoldable pub clamp : ℕ → ℕ → ℕ
clamp cnt most = if ltb most cnt then most else cnt

-- The map that chain pages are resolved through: the caller's, or the one being built.
unfoldable pub resolving : Option (List Xtnt) → List Xtnt → List Xtnt
resolving none map = map
resolving (some resolve_map) map = resolve_map

-- The chain mcell of one round.
unfoldable pub meta_mcell : Option Volume → Option (List Xtnt) → List Xtnt → ℕ → Result Mcell
unfolding resolving bmt_resolve_page bmt_read_page cell_or
meta_mcell vol resolve map mcid =
    bmt_resolve_page true (some (resolving resolve map)) (mcid_page mcid) >>= λ vol_page.
    bmt_read_page vol vol_page >>= λ pg. cell_or einval pg (mcid_cell mcid)

-- The map with the descriptors of a chain mcell, BSR_XTRA_XTNTS first; `none` is a `break`.
unfoldable pub meta_extend : Mcell → List Xtnt → Option Rec → Option Rec → Option (List Xtnt)
unfolding keep_xtnts clamp
meta_extend mc map (some r) shadow =
    let xtra = rec_bytes mc r in
    some (keep_xtnts (xtra_xtnts xtra) 0 (clamp (xtra_x_cnt xtra) bmt_xtra_xtnts) map)
meta_extend mc map none (some r) =
    let shadow = rec_bytes mc r in
    some (keep_xtnts (shadow_xtnts shadow) 0 (clamp (shadow_x_cnt shadow) bmt_shadow_xtnts) map)
meta_extend mc map none none = none

-- The end of a round: `go` goes on from the next mcell with the map so far.
unfoldable pub meta_next :
    Mcell
    → List Xtnt
    → Option (List Xtnt)
    → (ℕ → List Xtnt → Result (List Xtnt))
    → Result (List Xtnt)
meta_next mc map none go = ok map
meta_next mc map (some map') go = go mc.next_mcid map'

-- A round on the chain mcell; one that cannot be had ends the loop.
unfoldable pub meta_round :
    Result Mcell → List Xtnt → (ℕ → List Xtnt → Result (List Xtnt)) → Result (List Xtnt)
unfolding meta_extend find_rec meta_next
meta_round stuck map go = stuck
meta_round (err e) map go = ok map
meta_round (ok mc) map go =
    meta_next mc map
      (meta_extend mc map (find_rec mc.records bsr_xtra_xtnts)
        (find_rec mc.records bsr_shadow_xtnts))
      go

-- The chain loop, with the hops that are left.
unfoldable pub meta_loop :
    ℕ → Option Volume → Option (List Xtnt) → ℕ → List Xtnt → Result (List Xtnt)
unfolding meta_mcell meta_round
meta_loop zero vol resolve mcid map = ok map
meta_loop (suc hops) vol resolve mcid map =
    if mcid == 0
    then ok map
    else meta_round (meta_mcell vol resolve map mcid) map
        (λ next map'. meta_loop hops vol resolve next map')

abbrev pub max_meta_hops : ℕ
max_meta_hops = 64

-- build_meta_extent_map on the BSR_XTNTS record; `resolve` is resolve_map.
unfoldable pub meta_from :
    Option Volume → Option (List Xtnt) → Mcell → Option Rec → Result (List Xtnt)
unfolding keep_xtnts clamp meta_loop
meta_from vol resolve mc none = err eilseq
meta_from vol resolve mc (some r) =
    let xr = rec_bytes mc r in
    if ltb (rec_data_sz r.hdr) xtnt_rec_sz
    then err eilseq
    else meta_loop max_meta_hops vol resolve (chain_mcid xr)
        (keep_xtnts (prim_xtnts xr) 0 (clamp (prim_x_cnt xr) bmt_xtnts) [])

-- build_meta_extent_map
unfoldable pub build_meta_extent_map :
    Option Volume → BmtPage → ℕ → Option (List Xtnt) → Result (List Xtnt)
unfolding cell_or find_rec meta_from
build_meta_extent_map vol pg0 cell_idx resolve =
    cell_or eilseq pg0 cell_idx >>= λ mc. meta_from vol resolve mc (find_rec mc.records bsr_xtnts)
