-- ===== src/Domain/Refused.antt =====
-- Which volumes src/domain.c refuses as duplicates.
use advfs_fuse.Base.{
  ℕ, zero, suc, ◌/◌, ◌≤◌, ◌<◌, ◌≡◌, refl, sym, ap, ◌∙◌, ◌≢◌, ◌⊎◌, inl, inr, ◌↔◌, true, false, not,
  ◌||◌, List, [], ◌∷◌, Option, none, some, ltb, leb, ◌==◌, if◌then◌else◌, if_true, if_false,
  Bool-cases, eq→==, ne→==, lt→leb, le→ltb, length, All, arith, Result, ok, err, ◌>>=◌, >>=-eq-ok,
  guard-eq-false, >>=-eq-err, einval, eexist, eilseq, e2big, get_elem?, Errno,
}
use native.Mathlib.Decide.{ℕ_discrete}
use advfs_fuse.Ods.{BmtPage, reserved_blks, blks_per_pg, Xtnt}
use advfs_fuse.Volume.{Volume, detect_version}
use advfs_fuse.Bmt.{bmt_read_page}
use advfs_fuse.Domain.{VdAttr, DomainVd, Domain}
use advfs_fuse.Domain.Meta.{build_meta_extent_map}
use advfs_fuse.Domain.Meta.Errors.{build_meta_extent_map_errors}
use advfs_fuse.Domain.Lookup.{find_vd-FirstWith, FirstWith, here, there}
use advfs_fuse.Domain.Open.{
  max_dom_vds, DmnAttr, dmn_attr_of, vd_attr_of, Maps, with_maps, build_maps, discover,
  domain_open_primary, secondary_index, is_attached, add_vd, attach_as, attach_page,
  attach_secondary_volume, attach_all, primary_index, register_primary, domain_open_multi,
  first_rbmt_version, bfm_rbmt, bfm_bmt, bfm_bmt_v3,
}
use advfs_fuse.Domain.Attach.{OpenOn}
use advfs_fuse.Domain.Opened.{domain_open_multi-OpenOn}
use advfs_fuse.Domain.Attached.{slot_of}

-- A volume that has passed the tests of attach_secondary_volume up to that of its index.
pub record Candidate (domain : Domain) (vol : Option Volume) : Type 0 where
  pub has_version : detect_version vol ≡ ok domain.ods_version
  pub pg : BmtPage
  pub read : bmt_read_page vol domain.bmt_page ≡ ok pg
  pub attr : DmnAttr
  pub has_attr : dmn_attr_of pg ≡ some attr
  pub sec : attr.bf_domain_id.id_sec ≡ domain.domain_id.id_sec
  pub usec : attr.bf_domain_id.id_usec ≡ domain.domain_id.id_usec

attach_page_same :
    (domain : Domain) (vol : Option Volume) (pg : BmtPage) (attr : DmnAttr)
    → attr.bf_domain_id.id_sec ≡ domain.domain_id.id_sec
    → attr.bf_domain_id.id_usec ≡ domain.domain_id.id_usec
    → attach_page domain vol pg (some attr)
      ≡ attach_as domain vol pg (secondary_index (vd_attr_of pg) (length domain.vds))
unfolding attach_page
attach_page_same domain vol pg attr sec usec =
    if_false
      (not (attr.bf_domain_id.id_sec == domain.domain_id.id_sec)
        || not (attr.bf_domain_id.id_usec == domain.domain_id.id_usec))
      (err einval) (attach_as domain vol pg (secondary_index (vd_attr_of pg) (length domain.vds)))
      (rw (eq→== _ _ sec, eq→== _ _ usec) refl)

-- attach_secondary_volume comes to the test of the index.
attach-Candidate :
    (domain : Domain) (vol : Option Volume) (c : Candidate domain vol)
    → length domain.vds < max_dom_vds
    → attach_secondary_volume domain vol
      ≡ attach_as domain vol c.pg (secondary_index (vd_attr_of c.pg) (length domain.vds))
unfolding attach_secondary_volume
attach-Candidate domain vol c room =
    let on_page : BmtPage → Result Domain = λ pg0. attach_page domain vol pg0 (dmn_attr_of pg0) in
    let on_version : ℕ → Result Domain = λ version.
      if version == domain.ods_version
      then (bmt_read_page vol domain.bmt_page >>= on_page)
      else err einval in
    if_false (leb max_dom_vds (length domain.vds)) (err e2big) (detect_version vol >>= on_version)
      (lt→leb max_dom_vds (length domain.vds) room)
    ∙ ap (λ r. r >>= on_version) c.has_version
    ∙ if_true (domain.ods_version == domain.ods_version) _ (err einval)
        (eq→== domain.ods_version domain.ods_version refl)
    ∙ ap (λ r. r >>= on_page) c.read
    ∙ ap (attach_page domain vol c.pg) c.has_attr
    ∙ attach_page_same domain vol c.pg c.attr c.sec c.usec

never : {code : Errno} (rbmt bmt : List Xtnt) → with_maps rbmt bmt ≡ err code → code ≡ eilseq
unfolding with_maps
never rbmt bmt h = cc

-- build_maps has the errors of build_meta_extent_map.
build_maps_errors :
    (vol : Option Volume) (pg : BmtPage) (version : ℕ) (code : Errno)
    → build_maps vol pg version ≡ err code
    → code ≡ eilseq
unfolding build_maps
build_maps_errors vol pg version code e = elim (Bool-cases (leb first_rbmt_version version)) [
  | inl v4 ↦ both (sym (if_true (leb first_rbmt_version version) _ _ v4) ∙ e)
  | inr v3 ↦ mapped bfm_bmt_v3 none [] (sym (if_false (leb first_rbmt_version version) _ _ v3) ∙ e)
]
  where
    mapped :
        (cell : ℕ) (resolve : Option (List Xtnt)) (rbmt : List Xtnt)
        → build_meta_extent_map vol pg cell resolve >>= with_maps rbmt ≡ err code
        → code ≡ eilseq
    mapped cell resolve rbmt h =
        elim (>>=-eq-err (with_maps rbmt) (build_meta_extent_map vol pg cell resolve) h) [
          | inl fails ↦ build_meta_extent_map_errors vol resolve code pg cell fails
          | inr (bmt, built, h') ↦ never rbmt bmt h'
        ]

    both :
        build_meta_extent_map vol pg bfm_rbmt none
            >>= (λ rbmt. build_meta_extent_map vol pg bfm_bmt (some rbmt) >>= with_maps rbmt)
          ≡ err code
        → code ≡ eilseq
    both h = elim (>>=-eq-err _ (build_meta_extent_map vol pg bfm_rbmt none) h) [
      | inl fails ↦ build_meta_extent_map_errors vol none code pg bfm_rbmt fails
      | inr (rbmt, built, h') ↦ mapped bfm_bmt (some rbmt) rbmt h'
    ]

-- An attached volume has the index.
abbrev pub Taken : List DomainVd → ℕ → Type 0
Taken vds i = (j : ℕ) × (d : DomainVd) × (get_elem? vds j ≡ some d) × (d.vd_index ≡ i)

first_slot : {i : ℕ} {d : DomainVd} {vds : List DomainVd} → FirstWith i d vds → Taken vds i
first_slot (here e n) = (0, _, refl, n)
first_slot (there n first) = let (j, d, at, e) = first_slot first in (suc j, d, at, e)

free_slot : (vds : List DomainVd) (i : ℕ) → All (λ d. d.vd_index ≢ i) vds → ¬ Taken vds i
free_slot [] i all (j, d, at, e) = cc
free_slot (x ∷ vds) i all (zero, d, at, e) = all.0 cc
free_slot (x ∷ vds) i all (suc j, d, at, e) = free_slot vds i all.1 (j, d, at, e)

attached_iff : (vds : List DomainVd) (i : ℕ) → i ≢ 0 → (is_attached vds i ≡ true) ↔ Taken vds i
unfolding is_attached
attached_iff vds i n = elim (find_vd-FirstWith vds i n) [
  | inl (d, found, first) ↦
      ((λ e. first_slot first), (λ t. ap (λ o. elim o [ none ↦ false | some x ↦ true ]) found))
  | inr (absent, all) ↦ (
    (λ e.
        let q : false ≡ true = sym (ap (λ o. elim o [ none ↦ false | some x ↦ true ]) absent) ∙ e in
        cc),
    (λ t. absurd (free_slot vds i all t)),
  )
]

attach_as-iff-Taken :
    (domain : Domain) (vol : Option Volume) (pg : BmtPage) (i : ℕ)
    → (attach_as domain vol pg i ≡ err eexist) ↔ ((i ≡ 0) ⊎ Taken domain.vds i)
unfolding attach_as
attach_as-iff-Taken domain vol pg i = elim (ℕ_discrete i 0) [
  | yes z ↦ (
    (λ e. inl z),
    (λ h.
        if_true (i == 0 || is_attached domain.vds i) (err eexist) _
          (ap (λ b. b || is_attached domain.vds i) (eq→== i 0 z))),
  )
  | no n ↦ elim (Bool-cases (is_attached domain.vds i)) [
    | inl taken ↦ (
      (λ e. inr ((attached_iff domain.vds i n).0 taken)),
      (λ h.
          if_true (i == 0 || is_attached domain.vds i) (err eexist) _
            (rw (taken, ne→== i 0 n) refl)),
    )
    | inr free ↦ (
      (λ e.
          let next : Maps → Result Domain =
            λ maps. ok (add_vd domain (record { vol = vol; vd_index = i; bmt_map = maps.bmt })) in
          let e' : build_maps vol pg domain.ods_version >>= next ≡ err eexist =
            sym (
              if_false (i == 0 || is_attached domain.vds i) (err eexist) _
                (rw (free, ne→== i 0 n) refl))
            ∙ e in
          elim (>>=-eq-err next (build_maps vol pg domain.ods_version) e') [
            | inl fails ↦ let odd = build_maps_errors vol pg domain.ods_version eexist fails in cc
            | inr (maps, built, e'') ↦ cc
          ]),
      (λ h. elim h [
        | inl z ↦ absurd (n z)
        | inr t ↦ let taken = (attached_iff domain.vds i n).1 t in cc
      ]),
    )
  ]
]

-- A volume of the domain is refused with EEXIST exactly where its index is 0 or that of a volume
-- that is attached; this holds for a domain with fewer than 8 volumes, and a volume with the
-- domain's version whose page 0 can be read and carries the domain's id.
pub attach-eexist-iff-Taken :
    (domain : Domain) (vol : Option Volume) (c : Candidate domain vol)
    → length domain.vds < max_dom_vds
    → (attach_secondary_volume domain vol ≡ err eexist) ↔ (
        (secondary_index (vd_attr_of c.pg) (length domain.vds) ≡ 0)
        ⊎ Taken domain.vds (secondary_index (vd_attr_of c.pg) (length domain.vds)))
attach-eexist-iff-Taken domain vol c room =
    let i = secondary_index (vd_attr_of c.pg) (length domain.vds) in
    let (to, from) = attach_as-iff-Taken domain vol c.pg i in
    let p = attach-Candidate domain vol c room in ((λ e. to (sym p ∙ e)), (λ t. p ∙ from t))

discovered :
    (vol : Option Volume) (version : ℕ) (pg : BmtPage) (found : Option DmnAttr) (domain : Domain)
    → discover vol version pg found ≡ ok domain
    → (domain.bmt_page ≡ reserved_blks / blks_per_pg) × (domain.vd_attr ≡ vd_attr_of pg)
unfolding discover
discovered vol version pg none domain h = cc
discovered vol version pg (some attr) domain h =
    let (maps, h', built) = >>=-eq-ok _ (build_maps vol pg version) h in
    (sym (ok_field (λ d. d.bmt_page) h'), sym (ok_field (λ d. d.vd_attr) h'))
  where
    ok_field : {A : Type 0} {x y : Domain} (f : Domain → A) → ok x ≡ ok y → f x ≡ f y
    ok_field f p = ap f cc

-- What domain_open_primary has read.
primary_attr :
    (vol : Option Volume) (domain : Domain)
    → domain_open_primary vol ≡ ok domain
    → (pg : BmtPage) × (bmt_read_page vol domain.bmt_page ≡ ok pg)
      × (domain.vd_attr ≡ vd_attr_of pg)
unfolding domain_open_primary
primary_attr vol domain e =
    let (version, e1, v) = >>=-eq-ok _ (detect_version vol) e in
    let (pg, e2, rd) = >>=-eq-ok _ (bmt_read_page vol (reserved_blks / blks_per_pg)) e1 in
    let (page, attr) = discovered vol version pg (dmn_attr_of pg) domain e2 in
    (pg, ap (bmt_read_page vol) page ∙ rd, attr)

-- The index of a volume that is attached again.
own_index :
    (vol : Option Volume) (domain : Domain) (found : Option VdAttr) (a : VdAttr)
    → found ≡ some a
    → domain.vd_attr ≡ some a
    → let i = secondary_index found 1 in (i ≡ 0) ⊎ Taken (register_primary vol domain).vds i
unfolding register_primary primary_index secondary_index
own_index vol domain found a e has = elim (ℕ_discrete a.vd_index 0) [
  | yes z ↦ inl (ap (λ o. secondary_index o 1) e ∙ z)
  | no n ↦ inr (
    0,
    _,
    refl,
    ap primary_index has
        ∙ if_false (a.vd_index == 0) 1 a.vd_index (ne→== a.vd_index 0 n)
        ∙ sym (ap (λ o. secondary_index o 1) e),
  )
]

refused_again :
    (vol : Option Volume) (domain first : Domain) (a : VdAttr)
    → domain_open_multi (vol ∷ []) ≡ ok domain
    → register_primary vol first ≡ domain
    → domain.vd_attr ≡ some a
    → domain_open_primary vol ≡ ok first
    → attach_secondary_volume (register_primary vol first) vol ≡ err eexist
unfolding register_primary
refused_again vol domain first a e p has opened =
    let d1 = register_primary vol first in
    let alone : OpenOn (vol ∷ []) d1 =
      domain_open_multi-OpenOn (vol ∷ []) d1 (e ∙ ap (λ d. ok d) (sym p)) in
    let (d, slot, v) = slot_of (vol ∷ []) d1.vds 0 vol alone.attached refl in
    let (pg, rd, attr) = primary_attr vol first opened in
    let c : Candidate d1 vol = record {
      has_version = v.has_version;
      pg = v.pg;
      read = v.read;
      attr = v.attr;
      has_attr = v.has_attr;
      sec = v.sec;
      usec = v.usec;
    } in
    let same : v.pg ≡ pg = page_once (sym v.read ∙ rd) in
    let first_attr : first.vd_attr ≡ some a = ap (λ d. d.vd_attr) p ∙ has in
    let own : vd_attr_of v.pg ≡ some a = ap vd_attr_of same ∙ sym attr ∙ first_attr in
    (attach-eexist-iff-Taken d1 vol c (omega arith)).1
      (own_index vol first (vd_attr_of v.pg) a own first_attr)
  where
    page_once : {x y : BmtPage} → ok x ≡ ok y → x ≡ y
    page_once q = cc

-- advfs_domain_open_multi refuses a volume that is passed twice with EEXIST, if the volume alone
-- opens as a domain and has a BSR_VD_ATTR record.
pub open_twice :
    (vol : Option Volume) (rest : List (Option Volume)) (domain : Domain) (a : VdAttr)
    → domain_open_multi (vol ∷ []) ≡ ok domain
    → domain.vd_attr ≡ some a
    → length rest ≤ 6
    → domain_open_multi (vol ∷ vol ∷ rest) ≡ err eexist
unfolding domain_open_multi attach_all
open_twice vol rest domain a e has few =
    let next : Domain → Result Domain = λ d. attach_all (register_primary vol d) [] in
    let (ok1, e1) =
      guard-eq-false einval (ltb max_dom_vds 1) (domain_open_primary vol >>= next) e in
    let (first, e2, opened) = >>=-eq-ok next (domain_open_primary vol) e1 in
    let p : register_primary vol first ≡ domain = cc in
    let again : Domain → Result Domain = λ d. attach_all d rest in
    let follow : Domain → Result Domain = λ d. attach_all (register_primary vol d) (vol ∷ rest) in
    if_false (ltb max_dom_vds (length (vol ∷ vol ∷ rest))) (err einval)
      (domain_open_primary vol >>= follow) (le→ltb max_dom_vds _ (omega (arith, few)))
    ∙ ap (λ r. r >>= follow) opened
    ∙ ap (λ r. r >>= again) (refused_again vol domain first a e p has opened)
