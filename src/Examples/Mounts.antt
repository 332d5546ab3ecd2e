-- ===== src/Examples/Mounts.antt =====
-- The fileset of the domain of Examples/Filesets.antt, as main() of src/main.c picks it and as
-- advfs_domain_list_filesets of src/domain.c reports it.
use advfs_fuse.Base.{◌≡◌, ◌≢◌, refl, sym, ap, ◌∙◌, [], ◌∷◌, none, some, ok}
use advfs_fuse.Ods.{BmtPage, bspg_cells, rec_data_sz}
use advfs_fuse.Bmt.{find_rec, get_mcell}
use advfs_fuse.Fileset.Enumerate.{FilesetInfo}
use advfs_fuse.Fileset.Enumerate.Report.{cons_found, report_sets}
use advfs_fuse.Fileset.Listed.{bmt_page_0, try_cell, list_filesets}
use advfs_fuse.Fileset.Listed.Cells.{page_sets}
use advfs_fuse.Fileset.Listed.Report.{on_page_0, list_filesets-report}
use advfs_fuse.Main.{pick_fileset}
use advfs_fuse.Main.Choice.{choice, pick_fileset-choice}
use advfs_fuse.Examples.Filesets.{vol, domain, bfsdir, collect, bfsdir_read, first_set, pages}

pick_fileset-choice_example :
    pick_fileset vol domain (some (100 ∷ [])) ≡ ok (choice (some (100 ∷ [])) (first_set.0 ∷ []))
pick_fileset-choice_example =
    pick_fileset-choice vol domain (some (100 ∷ [])) bfsdir (first_set.0 ∷ []) bfsdir_read pages

page_0 : (pg : BmtPage) × (bmt_page_0 domain ≡ ok pg)
unfolding bmt_page_0
page_0 = (_, refl)

in_cell_1 : (info : FilesetInfo) × (try_cell (get_mcell page_0.0 1) ≡ some info)
unfolding page_0 try_cell find_rec rec_data_sz get_mcell
in_cell_1 = (_, refl)

in_cell_0 : try_cell (get_mcell page_0.0 0) ≡ none
unfolding page_0 try_cell find_rec rec_data_sz get_mcell
in_cell_0 = refl

some_set : page_sets bspg_cells page_0.0 0 ≢ []
some_set e =
    let rest = page_sets 26 page_0.0 2 in
    let from_1 : cons_found (try_cell (get_mcell page_0.0 1)) rest ≡ [] =
      sym (ap (λ o. cons_found o (cons_found (try_cell (get_mcell page_0.0 1)) rest)) in_cell_0)
      ∙ e in
    let full : in_cell_1.0 ∷ rest ≡ [] = sym (ap (λ o. cons_found o rest) in_cell_1.1) ∙ from_1 in
    cc

list_filesets-report_example :
    list_filesets collect domain []
    ≡ ok (report_sets collect (page_sets bspg_cells page_0.0 0) []).user
list_filesets-report_example =
    list_filesets-report collect domain vol (page_sets bspg_cells page_0.0 0) [] refl
      (on_page_0 page_0.0 page_0.1 some_set)
