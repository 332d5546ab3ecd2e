-- ===== src/Dir/Mcells.antt =====
-- find_xtnts_mcell and advfs_dir_has_undelete of src/dir.c: the searches of a directory's mcell chain.
pub mod Found
pub mod Undelete
use advfs_fuse.Base.{
  ℕ, zero, suc, Bool, true, false, Option, none, some, ◌==◌, if◌then◌else◌, Result, stuck, ok, err,
  ◌>>=◌, enodata, einval,
}
use advfs_fuse.Ods.{Mcell, bsr_xtnts, mcid_page, mcid_cell}
use advfs_fuse.Volume.{Volume}
use advfs_fuse.Bmt.{find_rec, get_mcell}
use advfs_fuse.Domain.{Domain, read_bmt_page_vd}
use advfs_fuse.Filedata.{McellAt}
use advfs_fuse.Filedata.Records.{mcell_at, next_at}

abbrev pub max_xtnts_hops : ℕ
max_xtnts_hops = 16

-- The loop of find_xtnts_mcell behind the mcell `mc` at `at`, with the hops that are left.
unfoldable pub xtnts_loop : ℕ → Domain → McellAt → Mcell → Result McellAt
unfolding mcell_at next_at find_rec
xtnts_loop zero domain at mc = err enodata
xtnts_loop (suc hops) domain at mc =
    let round = mcell_at domain (next_at at mc) >>= λ next_mc.
    elim (find_rec next_mc.records bsr_xtnts) [
      | some r ↦ ok (next_at at mc)
      | none ↦ xtnts_loop hops domain (next_at at mc) next_mc
    ] in
    if mc.next_mcid == 0 then err enodata else round

-- find_xtnts_mcell: the place of the mcell with BSR_XTNTS.
unfoldable pub find_xtnts_mcell : Domain → McellAt → Result McellAt
unfolding mcell_at find_rec xtnts_loop
find_xtnts_mcell domain at = mcell_at domain at >>= λ mc. elim (find_rec mc.records bsr_xtnts) [
  | some r ↦ ok at
  | none ↦ xtnts_loop max_xtnts_hops domain at mc
]

abbrev pub bmtr_fs_undel_dir : ℕ
bmtr_fs_undel_dir = 252

-- Whether a mcell holds a BMTR_FS_UNDEL_DIR record.
unfoldable pub has_undelete_rec : Mcell → Bool
unfolding find_rec
has_undelete_rec mc = elim (find_rec mc.records bmtr_fs_undel_dir) [ some r ↦ true | none ↦ false ]

-- What the next round sees: no mcell where the page or the cell cannot be had.
unfoldable pub or_no_mcell : Result Mcell → Result (Option Mcell)
or_no_mcell stuck = stuck
or_no_mcell (err e) = ok none
or_no_mcell (ok mc) = ok (some mc)

-- The loop of advfs_dir_has_undelete, with the hops that are left.
unfoldable pub undelete_loop : ℕ → Domain → McellAt → Option Mcell → Result Bool
unfolding mcell_at next_at has_undelete_rec or_no_mcell
undelete_loop hops domain at none = ok false
undelete_loop zero domain at (some mc) = ok (has_undelete_rec mc)
undelete_loop (suc hops) domain at (some mc) =
    let later = or_no_mcell (mcell_at domain (next_at at mc)) >>= λ found.
    undelete_loop hops domain (next_at at mc) found in
    if has_undelete_rec mc then ok true else if mc.next_mcid == 0 then ok false else later

-- advfs_dir_has_undelete
unfoldable pub dir_has_undelete : Option Volume → Option Domain → McellAt → Result Bool
unfolding mcell_at undelete_loop
dir_has_undelete none domain at = err einval
dir_has_undelete (some vol) none at = err einval
dir_has_undelete (some vol) (some domain) at =
    mcell_at domain at >>= λ mc. undelete_loop max_xtnts_hops domain at (some mc)
