-- ===== src/Fileset/Listed/Report.antt =====
-- The filesets that advfs_domain_list_filesets of src/domain.c reports.
use advfs_fuse.Base.{
  ◌<◌, ◌≡◌, ◌≢◌, refl, ap, ◌∙◌, Bool, true, false, not, ◌||◌, if_true, if_false, pos-==-zero,
  Option, none, some, List, [], ◌==◌, ok, ◌>>=◌,
}
use advfs_fuse.Ods.{BmtPage, Mcell, bspg_cells}
use advfs_fuse.Domain.{Domain}
use advfs_fuse.Volume.{Volume}
use advfs_fuse.Fileset.Enumerate.{FilesetInfo, FilesetCb}
use advfs_fuse.Fileset.Enumerate.Report.{report_sets}
use advfs_fuse.Fileset.Listed.{
  bmt_page_0, bfsdir_mcell, max_bfsdir_hops, Listed, list_cells, list_behind, list_after,
  list_scanned, list_volume, list_filesets,
}
use advfs_fuse.Fileset.Listed.Cells.{
  page_sets, list_cells-report, list_cells_found, list_cells_none,
}
use advfs_fuse.Fileset.Listed.Links.{ChainSets, list_chain-Ends}

or_true : (b : Bool) → (b || true) ≡ true
or_true true = refl
or_true false = refl

-- The filesets of a domain as this function sees them: those of page 0, or only where it has none
-- those behind the BFSDIR.
pub data DomainSets (domain : Domain) : List FilesetInfo → Type 0 where
  on_page_0 :
      (pg : BmtPage)
      → bmt_page_0 domain ≡ ok pg
      → page_sets bspg_cells pg 0 ≢ []
      → DomainSets domain (page_sets bspg_cells pg 0)
  behind_bfsdir :
      {sets : List FilesetInfo} (pg : BmtPage) (mc : Mcell)
      → bmt_page_0 domain ≡ ok pg
      → page_sets bspg_cells pg 0 ≡ []
      → bfsdir_mcell domain pg ≡ ok (some mc)
      → ChainSets domain max_bfsdir_hops mc.next_mcid sets
      → DomainSets domain sets
  no_bfsdir :
      (pg : BmtPage)
      → bmt_page_0 domain ≡ ok pg
      → page_sets bspg_cells pg 0 ≡ []
      → bfsdir_mcell domain pg ≡ ok none
      → DomainSets domain []

module _ {U : Type 0} (cb : FilesetCb U) (domain : Domain) where
  -- Where page 0 has no fileset.
  not_on_page :
      (pg : BmtPage) (mc : Option Mcell) (st : Listed U)
      → st.stop ≡ false
      → (st.found == 0) ≡ true
      → bfsdir_mcell domain pg ≡ ok mc
      → list_after cb domain pg st ≡ list_behind cb domain mc st
  unfolding list_after
  not_on_page pg mc st e z b =
      if_false (st.stop || not (st.found == 0)) (ok st) _
        (ap (λ s. s || not (st.found == 0)) e ∙ ap not z)
      ∙ ap (λ r. r >>= λ m. list_behind cb domain m st) b

  on_page : (pg : BmtPage) (st : Listed U) → 0 < st.found → list_after cb domain pg st ≡ ok st
  unfolding list_after
  on_page pg st more =
      if_true (st.stop || not (st.found == 0)) (ok st) _
        (ap (λ z. st.stop || not z) (pos-==-zero st.found more) ∙ or_true st.stop)

  abbrev start : U → Listed U
  start user = record { stop = false; found = 0; user = user }

  after_page_0 :
      (vol : Volume) (pg : BmtPage) (user : U) (end : Listed U)
      → domain.vol ≡ some vol
      → bmt_page_0 domain ≡ ok pg
      → list_after cb domain pg (list_cells cb bspg_cells pg 0 (start user)) ≡ ok end
      → list_filesets cb domain user ≡ ok end.user
  unfolding list_filesets list_volume list_scanned
  after_page_0 vol pg user end v p l =
      ap (λ o. list_volume cb o domain user) v
      ∙ ap (λ r. r >>= list_scanned cb domain user) p
      ∙ ap (λ r. r >>= λ st. ok st.user) l

  -- advfs_domain_list_filesets, where page 0 of the BMT is read: it succeeds and reports, up to the
  -- first answer that says stop, the filesets of the mcells of page 0 in the order of the cells,
  -- and only where there is none, those of the mcells that the BFSDIR's mcell leads to, in the
  -- order of at most 16 links, on V4 through the RBMT.
  pub list_filesets-report :
      (vol : Volume) (sets : List FilesetInfo) (user : U)
      → domain.vol ≡ some vol
      → DomainSets domain sets
      → list_filesets cb domain user ≡ ok (report_sets cb sets user).user
  unfolding list_behind
  list_filesets-report vol all user v (on_page_0 pg p ne) =
      let st = list_cells cb bspg_cells pg 0 (start user) in
      after_page_0 vol pg user st v p
        (on_page pg st (list_cells_found cb bspg_cells pg 0 (start user) refl ne))
      ∙ ap (λ u. ok u) (list_cells-report cb bspg_cells pg 0 (start user) refl)
  list_filesets-report vol sets user v (behind_bfsdir pg mc p n b chain) =
      let (end, g, r) =
        list_chain-Ends cb domain max_bfsdir_hops mc.next_mcid sets (start user) refl chain in
      after_page_0 vol pg user end v p (
        ap (list_after cb domain pg) (list_cells_none cb bspg_cells pg 0 (start user) refl n)
        ∙ not_on_page pg (some mc) (start user) refl refl b
        ∙ g)
      ∙ ap (λ u. ok u) r
  list_filesets-report vol all user v (no_bfsdir pg p n b) =
      after_page_0 vol pg user (start user) v p (
        ap (list_after cb domain pg) (list_cells_none cb bspg_cells pg 0 (start user) refl n)
        ∙ not_on_page pg none (start user) refl refl b)
