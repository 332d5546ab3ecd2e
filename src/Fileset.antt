-- ===== src/Fileset.antt =====
-- src/fileset.c: the extent map of a fileset's tag directory.
pub mod Enumerate
pub mod Listed
use advfs_fuse.Base.{
  ℕ, zero, suc, true, false, ◌/◌, ◌%◌, List, some, leb, ◌==◌, if◌then◌else◌, Result, stuck, ok, err,
  ◌>>=◌, enoent, enodata, einval,
}
use advfs_fuse.Ods.{BfTag, tags_per_pg, tmap_vd_index, tmap_mcid, tmap_in_use, mcid_page, mcid_cell}
use advfs_fuse.Volume.{Volume, fresh}
use advfs_fuse.Domain.{Domain}
use advfs_fuse.Domain.Open.{first_rbmt_version}
use advfs_fuse.Extents.{Extent, max_extents}
use advfs_fuse.Extents.ReadData.{read_data}
use advfs_fuse.Extents.Chain.{extents_read, extents_read_dom}
use advfs_fuse.Filedata.{McellAt}
use advfs_fuse.Filedata.Records.{mcell_at, next_at, max_hops}

-- What read_extents_via_chain does with the outcome at one mcell; `go` follows the chain.
unfoldable pub tried : Result (List Extent) → Result (List Extent) → Result (List Extent)
tried (ok out) go = ok out
tried stuck go = stuck
tried (err e) go = elim e [ enodata ↦ go | other ↦ err other ]

-- The loop of read_extents_via_chain, with the hops that are left.
unfoldable pub via_chain : ℕ → Domain → McellAt → ℕ → Result (List Extent)
unfolding tried mcell_at next_at extents_read_dom
via_chain zero domain at max =
    tried (extents_read_dom (some domain) at.vd at.page at.cell max)
      (mcell_at domain at >>= λ mc. err enodata)
via_chain (suc hops) domain at max =
    tried (extents_read_dom (some domain) at.vd at.page at.cell max) (
      mcell_at domain at >>= λ mc. elim (mc.next_mcid == 0) [
        | true ↦ err enodata
        | false ↦ via_chain hops domain (next_at at mc) max
      ])

-- read_extents_via_chain
unfoldable pub read_extents_via_chain : Domain → McellAt → ℕ → Result (List Extent)
unfolding via_chain
read_extents_via_chain domain at max = via_chain max_hops domain at max

-- ADVFS_BFM_BFSDIR and ADVFS_BFM_BFSDIR_V3
abbrev pub bfm_bfsdir : ℕ
bfm_bfsdir = 2

abbrev pub bfm_bfsdir_v3 : ℕ
bfm_bfsdir_v3 = 2

-- The BFSDIR's own extent map, from its reserved mcell: on V4 its chain goes through the RBMT.
unfoldable pub bfsdir_extents : Volume → Domain → Result (List Extent)
unfolding extents_read
bfsdir_extents vol domain =
    let is_v4 = leb first_rbmt_version domain.ods_version in
    extents_read (some vol) (some (if is_v4 then domain.rbmt_map else domain.bmt_map))
      domain.bmt_page (if is_v4 then bfm_bfsdir else bfm_bfsdir_v3) max_extents

-- advfs_fileset_tag_extents behind its NULL tests.
unfoldable pub fileset_tag_extents : Volume → Domain → BfTag → ℕ → Result (List Extent)
unfolding bfsdir_extents read_data tmap_in_use tmap_vd_index tmap_mcid read_extents_via_chain
fileset_tag_extents vol domain fs_dir_tag max =
    let i = fs_dir_tag.num % tags_per_pg in
    if max == 0
    then err einval
    else if fs_dir_tag.num == 0
    then err einval
    else bfsdir_extents vol domain >>= λ extents.
        read_data (some vol) extents (fs_dir_tag.num / tags_per_pg) fresh >>= λ page.
        (if tmap_in_use page.bytes i
          then read_extents_via_chain domain
              (record {
                vd = tmap_vd_index page.bytes i;
                page = mcid_page (tmap_mcid page.bytes i);
                cell = mcid_cell (tmap_mcid page.bytes i);
              })
              max
          else err enoent)
