-- ===== src/Domain/Attach.antt =====
-- attach_secondary_volume of src/domain.c keeps the volume table in order.
use advfs_fuse.Base.{
  ℕ, ◌≤◌, ◌<◌, ◌≡◌, refl, sym, ap, ◌∙◌, ◌≢◌, inl, inr, true, false, not, ◌||◌, List, [], ◌∷◌, ◌++◌,
  Option, none, some, leb, ◌==◌, ==→eq, leb→lt, append_nil, append_assoc, length, length-append,
  All, All-concat, arith, ok, >>=-eq-ok, guard-eq-false, require-eq-true, not-eq-false, or-eq-false,
  einval, eexist, e2big,
}
use advfs_fuse.Ods.{BmtPage}
use advfs_fuse.Volume.{Volume, detect_version}
use advfs_fuse.Bmt.{bmt_read_page}
use advfs_fuse.Domain.{AdvId, VdAttr, DomainVd, Domain}
use advfs_fuse.Domain.Lookup.{find_vd-FirstWith}
use advfs_fuse.Domain.Open.{
  max_dom_vds, DmnAttr, dmn_attr_of, vd_attr_of, Maps, build_maps, secondary_index, is_attached,
  add_vd, attach_as, attach_page, attach_secondary_volume, attach_all,
}

-- `vd` is the entry of a volume of the domain with this version, page 0 and id: it has the version
-- and carries the id, its index is its BSR_VD_ATTR's where that is one, and its map is the one
-- built from its own page 0.
pub record VdOf (version page : ℕ) (id : AdvId) (vol : Option Volume) (vd : DomainVd) : Type 0 where
  pub vol_is : vd.vol ≡ vol
  pub index : vd.vd_index ≢ 0
  pub has_version : detect_version vol ≡ ok version
  pub pg : BmtPage
  pub read : bmt_read_page vol page ≡ ok pg
  pub attr : DmnAttr
  pub has_attr : dmn_attr_of pg ≡ some attr
  pub sec : attr.bf_domain_id.id_sec ≡ id.id_sec
  pub usec : attr.bf_domain_id.id_usec ≡ id.id_usec
  pub maps : Maps
  pub built : build_maps vol pg version ≡ ok maps
  pub map_is : vd.bmt_map ≡ maps.bmt
  pub own : (a : VdAttr) → vd_attr_of pg ≡ some a → a.vd_index ≢ 0 → vd.vd_index ≡ a.vd_index

-- Each volume has its entry, in the order of the arguments.
pub data Attached (version page : ℕ) (id : AdvId)
    : List (Option Volume) → List DomainVd → Type 0 where
  nil : Attached version page id [] []
  cons :
      {vol : Option Volume} {vd : DomainVd} {vols : List (Option Volume)} {vds : List DomainVd}
      → VdOf version page id vol vd
      → Attached version page id vols vds
      → Attached version page id (vol ∷ vols) (vd ∷ vds)

-- No two entries have the same index.
abbrev pub AllDistinct : List DomainVd → Type 0
AllDistinct [] = Unit
AllDistinct (d ∷ rest) = All (λ x. d.vd_index ≢ x.vd_index) rest × AllDistinct rest

-- A domain that is open on these volumes.
pub record OpenOn (vols : List (Option Volume)) (domain : Domain) : Type 0 where
  pub attached : Attached domain.ods_version domain.bmt_page domain.domain_id vols domain.vds
  pub distinct : AllDistinct domain.vds
  pub few : length domain.vds ≤ max_dom_vds

module _ {version page : ℕ} {id : AdvId} {vol : Option Volume} {vd : DomainVd} where
  Attached-concat :
      {vols : List (Option Volume)} {vds : List DomainVd}
      → Attached version page id vols vds
      → VdOf version page id vol vd
      → Attached version page id (vols ++ vol ∷ []) (vds ++ vd ∷ [])
  Attached-concat nil v = cons v nil
  Attached-concat (cons w rest) v = cons w (Attached-concat rest v)

AllDistinct-concat :
    (vds : List DomainVd) (vd : DomainVd)
    → AllDistinct vds
    → All (λ x. x.vd_index ≢ vd.vd_index) vds
    → AllDistinct (vds ++ vd ∷ [])
AllDistinct-concat [] vd d new = (tt, tt)
AllDistinct-concat (x ∷ vds) vd d new = (
  All-concat (λ y. x.vd_index ≢ y.vd_index) vds vd d.0 new.0,
  AllDistinct-concat vds vd d.1 new.1,
)

-- The index of a volume that is taken is new.
index_free :
    (vds : List DomainVd) (i : ℕ)
    → i ≢ 0
    → is_attached vds i ≡ false
    → All (λ x. x.vd_index ≢ i) vds
unfolding is_attached
index_free vds i n e = elim (find_vd-FirstWith vds i n) [
  | inl (d, found, first) ↦
      let q : true ≡ false = sym (ap (λ o. elim o [ none ↦ false | some x ↦ true ]) found) ∙ e in cc
  | inr (absent, all) ↦ all
]

add_vd-OpenOn :
    (domain : Domain) (vol : Option Volume) (vd : DomainVd) (vols : List (Option Volume))
    → OpenOn vols domain
    → length domain.vds < max_dom_vds
    → VdOf domain.ods_version domain.bmt_page domain.domain_id vol vd
    → All (λ x. x.vd_index ≢ vd.vd_index) domain.vds
    → OpenOn (vols ++ vol ∷ []) (add_vd domain vd)
unfolding add_vd
add_vd-OpenOn domain vol vd vols o room v new = record {
  attached = Attached-concat o.attached v;
  distinct = AllDistinct-concat domain.vds vd o.distinct new;
  few = omega (arith, length-append domain.vds (vd ∷ []), room);
}

attach_as-OpenOn :
    (domain domain' : Domain) (vol : Option Volume) (pg0 : BmtPage) (attr : DmnAttr)
    (vols : List (Option Volume))
    → OpenOn vols domain
    → length domain.vds < max_dom_vds
    → detect_version vol ≡ ok domain.ods_version
    → bmt_read_page vol domain.bmt_page ≡ ok pg0
    → dmn_attr_of pg0 ≡ some attr
    → attr.bf_domain_id.id_sec ≡ domain.domain_id.id_sec
    → attr.bf_domain_id.id_usec ≡ domain.domain_id.id_usec
    → attach_as domain vol pg0 (secondary_index (vd_attr_of pg0) (length domain.vds)) ≡ ok domain'
    → OpenOn (vols ++ vol ∷ []) domain'
unfolding attach_as secondary_index
attach_as-OpenOn domain domain' vol pg0 attr vols o room v rd has sec usec e =
    let i = secondary_index (vd_attr_of pg0) (length domain.vds) in
    let (free, e') = guard-eq-false eexist (i == 0 || is_attached domain.vds i) _ e in
    let (nz, new) = or-eq-false (i == 0) (is_attached domain.vds i) free in
    let (maps, e'', built) =
      >>=-eq-ok
        (λ maps. ok (add_vd domain (record { vol = vol; vd_index = i; bmt_map = maps.bmt })))
        (build_maps vol pg0 domain.ods_version) e' in
    let vd : DomainVd = record { vol = vol; vd_index = i; bmt_map = maps.bmt } in
    let n0 : i ≢ 0 = λ z. ground arith in
    let p : add_vd domain vd ≡ domain' = cc in
    let opened =
      add_vd-OpenOn domain vol vd vols o room
        (record {
          vol_is = refl;
          index = n0;
          has_version = v;
          pg = pg0;
          read = rd;
          attr = attr;
          has_attr = has;
          sec = sec;
          usec = usec;
          maps = maps;
          built = built;
          map_is = refl;
          own = λ a q n. ap (λ x. secondary_index x (length domain.vds)) q;
        })
        (index_free domain.vds i n0 new) in
    rw (← p) opened

attach_page-OpenOn :
    (domain domain' : Domain) (vol : Option Volume) (pg0 : BmtPage) (found : Option DmnAttr)
    (vols : List (Option Volume))
    → OpenOn vols domain
    → length domain.vds < max_dom_vds
    → detect_version vol ≡ ok domain.ods_version
    → bmt_read_page vol domain.bmt_page ≡ ok pg0
    → dmn_attr_of pg0 ≡ found
    → attach_page domain vol pg0 found ≡ ok domain'
    → OpenOn (vols ++ vol ∷ []) domain'
unfolding attach_page
attach_page-OpenOn domain domain' vol pg0 none vols o room v rd has e = cc
attach_page-OpenOn domain domain' vol pg0 (some attr) vols o room v rd has e =
    let (same, e') =
      guard-eq-false einval
        (not (attr.bf_domain_id.id_sec == domain.domain_id.id_sec)
          || not (attr.bf_domain_id.id_usec == domain.domain_id.id_usec))
        _ e in
    let (sec, usec) = or-eq-false _ _ same in
    attach_as-OpenOn domain domain' vol pg0 attr vols o room v rd has
      (==→eq _ _ (not-eq-false _ sec)) (==→eq _ _ (not-eq-false _ usec)) e'

-- A successful attach_secondary_volume keeps the table in order.
attach-OpenOn :
    (domain domain' : Domain) (vol : Option Volume) (vols : List (Option Volume))
    → OpenOn vols domain
    → attach_secondary_volume domain vol ≡ ok domain'
    → OpenOn (vols ++ vol ∷ []) domain'
unfolding attach_secondary_volume
attach-OpenOn domain domain' vol vols o e =
    let (full, e1) = guard-eq-false e2big (leb max_dom_vds (length domain.vds)) _ e in
    let (version, e2, v) = >>=-eq-ok _ (detect_version vol) e1 in
    let (same, e3) = require-eq-true einval (version == domain.ods_version) _ e2 in
    let (pg0, e4, rd) = >>=-eq-ok _ (bmt_read_page vol domain.bmt_page) e3 in
    let room : length domain.vds < max_dom_vds = leb→lt max_dom_vds (length domain.vds) full in
    attach_page-OpenOn domain domain' vol pg0 (dmn_attr_of pg0) vols o room
      (v ∙ ap (λ n. ok n) (==→eq version domain.ods_version same)) rd refl e4

pub attach_all-OpenOn :
    (rest : List (Option Volume)) (domain domain' : Domain) (vols : List (Option Volume))
    → OpenOn vols domain
    → attach_all domain rest ≡ ok domain'
    → OpenOn (vols ++ rest) domain'
unfolding attach_all
attach_all-OpenOn [] domain domain' vols o e =
    let p : domain ≡ domain' = cc in rw (append_nil vols, ← p) o
attach_all-OpenOn (vol ∷ rest) domain domain' vols o e =
    let (next, e', now) =
      >>=-eq-ok (λ d. attach_all d rest) (attach_secondary_volume domain vol) e in
    let opened =
      attach_all-OpenOn rest next domain' (vols ++ vol ∷ [])
        (attach-OpenOn domain next vol vols o now) e' in
    rw (← append_assoc vols (vol ∷ []) rest) opened
