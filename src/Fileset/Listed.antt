-- ===== src/Fileset/Listed.antt =====
-- advfs_domain_list_filesets of src/domain.c: the filesets whose attributes stand on BMT page 0, or behind
-- the BFSDIR's mcell.
pub mod Cells
pub mod Links
pub mod Report
use advfs_fuse.Base.{
  ℕ, zero, suc, Bool, true, false, ◌||◌, ◌+◌, not, Option, none, some, leb, ◌==◌, if◌then◌else◌,
  Result, stuck, ok, err, ◌>>=◌, einval,
}
use advfs_fuse.Ods.{BmtPage, Mcell, bspg_cells, mcid_page, mcid_cell}
use advfs_fuse.Volume.{Volume}
use advfs_fuse.Util.{bmt_resolve_page}
use advfs_fuse.Bmt.{bmt_read_page, get_mcell}
use advfs_fuse.Domain.{Domain, domain_read_bmt_page}
use advfs_fuse.Domain.Open.{first_rbmt_version}
use advfs_fuse.Fileset.{bfm_bfsdir, bfm_bfsdir_v3}
use advfs_fuse.Fileset.Enumerate.{FilesetInfo, FilesetCb, try_fileset}

-- The page 0 that is scanned: of the BMT proper, also on V4.
unfoldable pub bmt_page_0 : Domain → Result BmtPage
unfolding domain_read_bmt_page bmt_read_page
bmt_page_0 domain =
    if leb first_rbmt_version domain.ods_version
    then domain_read_bmt_page domain 0
    else bmt_read_page domain.vol domain.bmt_page

-- The search in a mcell, as try_fileset_from_mcell has it too.
unfoldable pub try_cell : Option Mcell → Option FilesetInfo
unfolding try_fileset
try_cell none = none
try_cell (some mc) = try_fileset mc

-- A mcell of a page, if the page can be read.
unfoldable pub cell_of : Result BmtPage → ℕ → Result (Option Mcell)
unfolding get_mcell
cell_of stuck cell = stuck
cell_of (err e) cell = ok none
cell_of (ok pg) cell = ok (get_mcell pg cell)

-- The mcell of a link of the chain; on V4 the chain goes through the RBMT.
unfoldable pub chain_mcell : Domain → ℕ → Result (Option Mcell)
unfolding cell_of mcid_page mcid_cell bmt_resolve_page bmt_read_page domain_read_bmt_page
chain_mcell domain chain =
    cell_of
      (if leb first_rbmt_version domain.ods_version
        then (bmt_resolve_page true (some domain.rbmt_map) (mcid_page chain) >>= λ cvp.
            bmt_read_page domain.vol cvp)
        else domain_read_bmt_page domain (mcid_page chain))
      (mcid_cell chain)

-- The mcell of the BFSDIR: on V4 it stands on the RBMT page, otherwise on the page scanned.
unfoldable pub bfsdir_mcell : Domain → BmtPage → Result (Option Mcell)
unfolding cell_of bmt_read_page
bfsdir_mcell domain bmt_pg =
    if leb first_rbmt_version domain.ods_version
    then cell_of (bmt_read_page domain.vol domain.bmt_page) bfm_bfsdir
    else cell_of (ok bmt_pg) bfm_bfsdir_v3

-- Links of the chain that are followed.
abbrev pub max_bfsdir_hops : ℕ
max_bfsdir_hops = 16

-- The answer of the last callback, `found`, and the user data.
pub record Listed (U : Type 0) : Type 0 where
  pub stop : Bool
  pub found : ℕ
  pub user : U

module _ {U : Type 0} (cb : FilesetCb U) where
  -- The callback for a find.
  unfoldable pub list_one : Option FilesetInfo → Listed U → Listed U
  list_one none st = st
  list_one (some info) st = record {
    stop = (cb info st.user).stop;
    found = st.found + 1;
    user = (cb info st.user).user;
  }

  -- The loop over the mcells of page 0, from `i` on, with `left` to go.
  unfoldable pub list_cells : ℕ → BmtPage → ℕ → Listed U → Listed U
  unfolding list_one try_cell get_mcell
  list_cells zero pg i st = st
  list_cells (suc left) pg i st =
      let st' = list_one (try_cell (get_mcell pg i)) st in
      let rest = list_cells left pg (i + 1) st' in if st'.stop then st' else rest

  -- What is done with the mcell of a link; `go` follows the chain.
  unfoldable pub list_link :
      (ℕ → Listed U → Result (Listed U)) → Option Mcell → Listed U → Result (Listed U)
  unfolding list_one try_fileset
  list_link go none st = ok st
  list_link go (some mc) st =
      let st' = list_one (try_fileset mc) st in
      let rest = go mc.next_mcid st' in if st'.stop then ok st' else rest

  -- The loop along the chain, with the hops that are left.
  unfoldable pub list_chain : ℕ → Domain → ℕ → Listed U → Result (Listed U)
  unfolding chain_mcell list_link
  list_chain zero domain chain st = ok st
  list_chain (suc hops) domain chain st =
      let later = chain_mcell domain chain >>= λ found.
      list_link (λ c st'. list_chain hops domain c st') found st in
      if chain == 0 then ok st else later

  -- The chain behind the BFSDIR's mcell, if that is had.
  unfoldable pub list_behind : Domain → Option Mcell → Listed U → Result (Listed U)
  unfolding list_chain
  list_behind domain none st = ok st
  list_behind domain (some mc) st = list_chain max_bfsdir_hops domain mc.next_mcid st

  -- advfs_domain_list_filesets once page 0 is read.
  unfoldable pub list_after : Domain → BmtPage → Listed U → Result (Listed U)
  unfolding bfsdir_mcell list_behind
  list_after domain pg st =
      let behind = bfsdir_mcell domain pg >>= λ mc. list_behind domain mc st in
      if st.stop || not (st.found == 0) then ok st else behind

  -- advfs_domain_list_filesets behind its NULL tests, on the page 0 read.
  unfoldable pub list_scanned : Domain → U → BmtPage → Result U
  unfolding list_cells list_after
  list_scanned domain user pg =
      list_after domain pg
        (list_cells bspg_cells pg 0 (record { stop = false; found = 0; user = user }))
      >>= λ st. ok st.user

  -- The test of `domain->vol`.
  unfoldable pub list_volume : Option Volume → Domain → U → Result U
  unfolding bmt_page_0 list_scanned
  list_volume none domain user = err einval
  list_volume (some vol) domain user = bmt_page_0 domain >>= list_scanned domain user

  -- advfs_domain_list_filesets; it returns 0, with the user data.
  unfoldable pub list_filesets : Domain → U → Result U
  unfolding list_volume
  list_filesets domain user = list_volume domain.vol domain user
