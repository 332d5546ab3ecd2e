-- ===== src/Filedata/Scan.antt =====
-- The scan of the BMT for a tag.
use advfs_fuse.Base.{
  ℕ, zero, suc, ◌+◌, ◌≤◌, ◌<◌, ◌≡◌, refl, sym, ap, ◌∙◌, ◌≢◌, Bool, true, false, not, ◌&&◌, List, [],
  ◌∷◌, Option, none, some, arith, ltb, ◌==◌, if◌then◌else◌, if_true, if_false, ==→eq, Bool-cases,
  inl, inr, Result, stuck, ok, err, >>=-eq-ok,
}
use advfs_fuse.Ods.{BfTag, Xtnt, Mcell, BmtPage, bspg_cells}
use advfs_fuse.Bmt.{get_mcell}
use advfs_fuse.Domain.{DomainVd, Domain, read_bmt_page_vd}
use advfs_fuse.Filedata.{
  bmt_scan_pages, scan_max, McellAt, is_tag_mcell, scan_cells, scan_page, scan_pages, scan_volumes,
  find_tag_by_bmt_scan,
}

-- bmt_scan_pages gives at least one page and at most 4096, whatever the map is.
pub bmt_scan_pages_bounds :
    (map : List Xtnt) → (0 < bmt_scan_pages map) × (bmt_scan_pages map ≤ 4096)
unfolding bmt_scan_pages
bmt_scan_pages_bounds map = bounds (scan_max map 0)
  where
    bounds :
        (m : ℕ)
        → (0 < (
            if (if ltb 4096 m then 4096 else m) == 0 then 16 else if ltb 4096 m then 4096 else m))
          × ((if (if ltb 4096 m then 4096 else m) == 0 then 16 else if ltb 4096 m then 4096 else m)
              ≤ 4096)
    bounds m = ground arith

-- A mcell of the file with tag `target` in the fileset `fs_tag`.
pub record IsOf (fs_tag : BfTag) (target : ℕ) (mc : Mcell) : Type 0 where
  pub some_tag : mc.tag.num ≢ 0
  pub tag_is : mc.tag.num ≡ target
  pub set_is : mc.bf_set_tag.num ≡ fs_tag.num

-- The mcell at a place, as the domain reads it.
pub record Stands (domain : Domain) (at : McellAt) (mc : Mcell) : Type 0 where
  pub pg : BmtPage
  pub read : read_bmt_page_vd domain at.vd at.page ≡ ok pg
  pub cell : get_mcell pg at.cell ≡ some mc

both : (a b : Bool) → a && b ≡ true → (a ≡ true) × (b ≡ true)
both true b e = (refl, e)
both false b e = cc

not-==-zero : (n : ℕ) → not (n == 0) ≡ true → n ≢ 0
not-==-zero n h e = ground arith

is_tag_mcell-IsOf :
    (fs_tag : BfTag) (target : ℕ) (found : Option Mcell)
    → is_tag_mcell fs_tag target found ≡ true
    → (mc : Mcell) × (found ≡ some mc) × IsOf fs_tag target mc
unfolding is_tag_mcell
is_tag_mcell-IsOf fs_tag target none h = cc
is_tag_mcell-IsOf fs_tag target (some mc) h =
    let (used, same) = both (not (mc.tag.num == 0)) _ h in
    let (tag, set) = both (mc.tag.num == target) (mc.bf_set_tag.num == fs_tag.num) same in
    (
      mc,
      refl,
      record {
        some_tag = not-==-zero mc.tag.num used;
        tag_is = ==→eq mc.tag.num target tag;
        set_is = ==→eq mc.bf_set_tag.num fs_tag.num set;
      },
    )

scan_cells-IsOf :
    (fs_tag : BfTag) (target : ℕ) (pg : BmtPage) (c left found : ℕ)
    → scan_cells fs_tag target pg c left ≡ some found
    → (mc : Mcell) × (get_mcell pg found ≡ some mc) × IsOf fs_tag target mc
unfolding scan_cells
scan_cells-IsOf fs_tag target pg c zero found h = cc
scan_cells-IsOf fs_tag target pg c (suc left) found h =
    elim (Bool-cases (is_tag_mcell fs_tag target (get_mcell pg c))) [
      | inl hit ↦
          let here : some c ≡ some found =
            sym (if_true (is_tag_mcell fs_tag target (get_mcell pg c)) _ _ hit) ∙ h in
          let at : c ≡ found = cc in
          rw (← at) (is_tag_mcell-IsOf fs_tag target (get_mcell pg c) hit)
      | inr miss ↦
          scan_cells-IsOf fs_tag target pg (c + 1) left found
            (sym (if_false (is_tag_mcell fs_tag target (get_mcell pg c)) _ _ miss) ∙ h)
    ]

scan_page-IsOf :
    (fs_tag : BfTag) (target : ℕ) (read : Result BmtPage) (c : ℕ)
    → scan_page fs_tag target read ≡ ok (some c)
    → (pg : BmtPage) × (read ≡ ok pg)
      × ((mc : Mcell) × (get_mcell pg c ≡ some mc) × IsOf fs_tag target mc)
unfolding scan_page
scan_page-IsOf fs_tag target stuck c h = cc
scan_page-IsOf fs_tag target (err e) c h = cc
scan_page-IsOf fs_tag target (ok pg) c h =
    (pg, refl, scan_cells-IsOf fs_tag target pg 0 bspg_cells c cc)

scan_pages-IsOf :
    (domain : Domain) (fs_tag : BfTag) (target vd pg left : ℕ) (at : McellAt)
    → scan_pages domain fs_tag target vd pg left ≡ ok (some at)
    → (mc : Mcell) × Stands domain at mc × IsOf fs_tag target mc
unfolding scan_pages
scan_pages-IsOf domain fs_tag target vd pg zero at h = cc
scan_pages-IsOf domain fs_tag target vd pg (suc left) at h =
    let (found, later, scanned) =
      >>=-eq-ok _ (scan_page fs_tag target (read_bmt_page_vd domain vd pg)) h in
    on_page found scanned (λ r. scan_pages-IsOf domain fs_tag target vd (pg + 1) left at r) later
  where
    on_page :
        (found : Option ℕ)
        → scan_page fs_tag target (read_bmt_page_vd domain vd pg) ≡ ok found
        → (scan_pages domain fs_tag target vd (pg + 1) left ≡ ok (some at)
            → (mc : Mcell) × Stands domain at mc × IsOf fs_tag target mc)
        → (elim found [
          | some c ↦ ok (some (record { vd = vd; page = pg; cell = c }))
          | none ↦ scan_pages domain fs_tag target vd (pg + 1) left
        ])
          ≡ ok (some at)
        → (mc : Mcell) × Stands domain at mc × IsOf fs_tag target mc
    on_page none s go r = go r
    on_page (some c) s go r =
        let (page, read, held) = scan_page-IsOf fs_tag target (read_bmt_page_vd domain vd pg) c s in
        let (mc, cell, is_of) = held in
        let place : McellAt = record { vd = vd; page = pg; cell = c } in
        let same : place ≡ at = cc in
        let stands : Stands domain place mc = record { pg = page; read = read; cell = cell } in
        (mc, rw (← same) stands, is_of)

scan_volumes-IsOf :
    (domain : Domain) (fs_tag : BfTag) (target : ℕ) (vds : List DomainVd) (at : McellAt)
    → scan_volumes domain fs_tag target vds ≡ ok at
    → (mc : Mcell) × Stands domain at mc × IsOf fs_tag target mc
unfolding scan_volumes
scan_volumes-IsOf domain fs_tag target [] at h = cc
scan_volumes-IsOf domain fs_tag target (d ∷ rest) at h =
    let (found, later, scanned) =
      >>=-eq-ok _ (scan_pages domain fs_tag target d.vd_index 0 (bmt_scan_pages d.bmt_map)) h in
    on_volume found scanned (λ r. scan_volumes-IsOf domain fs_tag target rest at r) later
  where
    on_volume :
        (found : Option McellAt)
        → scan_pages domain fs_tag target d.vd_index 0 (bmt_scan_pages d.bmt_map) ≡ ok found
        → (scan_volumes domain fs_tag target rest ≡ ok at
            → (mc : Mcell) × Stands domain at mc × IsOf fs_tag target mc)
        → (elim found [ some a ↦ ok a | none ↦ scan_volumes domain fs_tag target rest ]) ≡ ok at
        → (mc : Mcell) × Stands domain at mc × IsOf fs_tag target mc
    on_volume none s go r = go r
    on_volume (some a) s go r =
        let same : a ≡ at = cc in
        scan_pages-IsOf domain fs_tag target d.vd_index 0 (bmt_scan_pages d.bmt_map) at
          (s ∙ ap (λ x. ok (some x)) same)

-- find_tag_by_bmt_scan gives no wrong file: the place that it returns holds a mcell, read through
-- the BMT of an attached volume, that carries the tag asked for, which is not 0, and the tag of the
-- fileset.
pub find_tag_by_bmt_scan-IsOf :
    (domain : Domain) (fs_tag : BfTag) (target : ℕ) (at : McellAt)
    → find_tag_by_bmt_scan domain fs_tag target ≡ ok at
    → (mc : Mcell) × Stands domain at mc × IsOf fs_tag target mc
unfolding find_tag_by_bmt_scan
find_tag_by_bmt_scan-IsOf domain fs_tag target at h = by_vds domain.vds h
  where
    by_vds :
        (vds : List DomainVd)
        → (elim vds [
          | [] ↦
              scan_volumes domain fs_tag target
                (record { vol = domain.vol; vd_index = 0; bmt_map = domain.bmt_map } ∷ [])
          | d ∷ rest ↦ scan_volumes domain fs_tag target (d ∷ rest)
        ])
          ≡ ok at
        → (mc : Mcell) × Stands domain at mc × IsOf fs_tag target mc
    by_vds [] r =
        scan_volumes-IsOf domain fs_tag target
          (record { vol = domain.vol; vd_index = 0; bmt_map = domain.bmt_map } ∷ []) at r
    by_vds (d ∷ rest) r = scan_volumes-IsOf domain fs_tag target (d ∷ rest) at r
