-- ===== src/Domain/Opened.antt =====
-- The volume table that advfs_domain_open_multi of src/domain.c builds.
use advfs_fuse.Base.{
  ℕ, ◌/◌, if_false, ne→==, ◌≡◌, refl, ◌≢◌, List, [], ◌∷◌, Option, none, some, ltb, ◌==◌, length,
  arith, ok, >>=-eq-ok, guard-eq-false, einval,
}
use advfs_fuse.Ods.{BmtPage, reserved_blks, blks_per_pg}
use advfs_fuse.Volume.{Volume, detect_version}
use advfs_fuse.Bmt.{bmt_read_page}
use advfs_fuse.Domain.{VdAttr, Domain}
use advfs_fuse.Domain.Open.{
  max_dom_vds, DmnAttr, dmn_attr_of, set_dir_tag, mattr_of, vd_attr_of, build_maps, discover,
  domain_open_primary, attach_all, primary_index, register_primary, domain_open_multi,
}
use advfs_fuse.Domain.Attach.{nil, cons, OpenOn, attach_all-OpenOn}

-- The primary volume alone.
primary_index_pos : (a : Option VdAttr) → primary_index a ≢ 0
unfolding primary_index
primary_index_pos none = λ e. cc
primary_index_pos (some a) = λ e. ground arith

primary_index_own :
    (a : VdAttr) (found : Option VdAttr)
    → found ≡ some a
    → a.vd_index ≢ 0
    → primary_index found ≡ a.vd_index
unfolding primary_index
primary_index_own a none e n = cc
primary_index_own a (some b) e n =
    let q : b ≡ a = cc in rw q (if_false (a.vd_index == 0) 1 a.vd_index (ne→== a.vd_index 0 n))

discover-OpenOn :
    (vol : Option Volume) (version : ℕ) (pg : BmtPage) (found : Option DmnAttr) (domain : Domain)
    → detect_version vol ≡ ok version
    → bmt_read_page vol (reserved_blks / blks_per_pg) ≡ ok pg
    → dmn_attr_of pg ≡ found
    → discover vol version pg found ≡ ok domain
    → OpenOn (vol ∷ []) (register_primary vol domain)
unfolding discover register_primary
discover-OpenOn vol version pg none domain v rd has e = cc
discover-OpenOn vol version pg (some attr) domain v rd has e =
    let (maps, e', built) = >>=-eq-ok _ (build_maps vol pg version) e in
    let fresh : Domain = record {
      vol = vol;
      ods_version = version;
      bmt_page = reserved_blks / blks_per_pg;
      rbmt_map = maps.rbmt;
      bmt_map = maps.bmt;
      domain_id = attr.bf_domain_id;
      max_vds = attr.max_vds;
      bf_set_dir_tag = set_dir_tag attr (mattr_of pg);
      mattr = mattr_of pg;
      vd_attr = vd_attr_of pg;
      vds = [];
    } in
    let p : fresh ≡ domain = cc in
    let opened : OpenOn (vol ∷ []) (register_primary vol fresh) = record {
      attached =
          cons
            (record {
              vol_is = refl;
              index = primary_index_pos (vd_attr_of pg);
              has_version = v;
              pg = pg;
              read = rd;
              attr = attr;
              has_attr = has;
              sec = refl;
              usec = refl;
              maps = maps;
              built = built;
              map_is = refl;
              own = λ a q n. primary_index_own a (vd_attr_of pg) q n;
            })
            nil;
      distinct = (tt, tt);
      few = omega arith;
    } in
    rw (← p) opened

-- A domain that advfs_domain_open_multi opens has one entry for each volume, in the order of the
-- arguments, and at most 8. Every entry has an index other than 0, no two have the same, and an
-- entry takes the index of its volume's BSR_VD_ATTR record where that has one. All volumes have the
-- version of the domain and carry its id, and each entry has the BMT map that is built from the
-- volume's own page 0.
pub domain_open_multi-OpenOn :
    (vols : List (Option Volume)) (domain : Domain)
    → domain_open_multi vols ≡ ok domain
    → OpenOn vols domain
unfolding domain_open_multi domain_open_primary
domain_open_multi-OpenOn [] domain e = cc
domain_open_multi-OpenOn (vol ∷ rest) domain e =
    let (few, e1) = guard-eq-false einval (ltb max_dom_vds (length (vol ∷ rest))) _ e in
    let (first, e2, opened) =
      >>=-eq-ok (λ d. attach_all (register_primary vol d) rest) (domain_open_primary vol) e1 in
    let (version, e3, v) = >>=-eq-ok _ (detect_version vol) opened in
    let (pg, e4, rd) = >>=-eq-ok _ (bmt_read_page vol (reserved_blks / blks_per_pg)) e3 in
    attach_all-OpenOn rest (register_primary vol first) domain (vol ∷ [])
      (discover-OpenOn vol version pg (dmn_attr_of pg) first v rd refl e4) e2
