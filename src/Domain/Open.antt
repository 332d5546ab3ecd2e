-- ===== src/Domain/Open.antt =====
-- The opening of a domain, src/domain.c: discovery on the primary volume, and the attachment of
-- others.
use advfs_fuse.Base.{
  ℕ, ◌+◌, ◌/◌, Bool, true, false, not, ◌||◌, List, [], ◌∷◌, ◌++◌, Option, none, some, ltb, leb,
  ◌==◌, if◌then◌else◌, length, Result, ok, err, ◌>>=◌, einval, eilseq, e2big, eexist,
}
use advfs_fuse.Ods.{
  Bytes, BfTag, Xtnt, BmtPage, read_u16, read_u32, read_tag, rec_data_sz, reserved_blks,
  blks_per_pg,
}
use advfs_fuse.Volume.{Volume, detect_version}
use advfs_fuse.Bmt.{bmt_read_page}
use advfs_fuse.Domain.{AdvId, DmnMattr, VdAttr, DomainVd, Domain, find_vd}
use advfs_fuse.Domain.Meta.{PageRec, find_rec_in_page, build_meta_extent_map}

abbrev pub max_dom_vds : ℕ
max_dom_vds = 8

abbrev pub bsr_vd_attr : ℕ
bsr_vd_attr = 3

abbrev pub bsr_dmn_attr : ℕ
bsr_dmn_attr = 4

abbrev pub bsr_dmn_mattr : ℕ
bsr_dmn_mattr = 15

-- The reserved cells ADVFS_BFM_RBMT, ADVFS_BFM_BMT and ADVFS_BFM_BMT_V3.
abbrev pub bfm_rbmt : ℕ
bfm_rbmt = 0

abbrev pub bfm_bmt : ℕ
bfm_bmt = 4

abbrev pub bfm_bmt_v3 : ℕ
bfm_bmt_v3 = 0

abbrev pub first_rbmt_version : ℕ
first_rbmt_version = 4

-- `adv_dmn_attr_t`
pub record DmnAttr : Type 0 where
  pub bf_domain_id : AdvId
  pub max_vds : ℕ
  pub bf_set_dir_tag : BfTag

unfoldable pub read_dmn_attr : Bytes → DmnAttr
read_dmn_attr b = record {
  bf_domain_id = record { id_sec = read_u32 b 0; id_usec = read_u32 b 4 };
  max_vds = read_u32 b 8;
  bf_set_dir_tag = read_tag b 12;
}

unfoldable pub read_dmn_mattr : Bytes → DmnMattr
read_dmn_mattr b = record { vd_cnt = read_u16 b 24; bf_set_dir_tag = read_tag b 28 }

unfoldable pub read_vd_attr : Bytes → VdAttr
read_vd_attr b = record { vd_index = read_u16 b 12 }

-- A record that is there and large enough for its struct.
unfoldable pub sized : ℕ → Option PageRec → Option Bytes
sized size none = none
sized size (some r) = if leb size (rec_data_sz r.hdr) then some r.bytes else none

unfoldable pub dmn_attr_of : BmtPage → Option DmnAttr
unfolding find_rec_in_page sized read_dmn_attr
dmn_attr_of pg = elim (sized 20 (find_rec_in_page pg bsr_dmn_attr)) [
  | none ↦ none
  | some b ↦ some (read_dmn_attr b)
]

unfoldable pub mattr_of : BmtPage → Option DmnMattr
unfolding find_rec_in_page sized read_dmn_mattr
mattr_of pg = elim (sized 48 (find_rec_in_page pg bsr_dmn_mattr)) [
  | none ↦ none
  | some b ↦ some (read_dmn_mattr b)
]

unfoldable pub vd_attr_of : BmtPage → Option VdAttr
unfolding find_rec_in_page sized read_vd_attr
vd_attr_of pg = elim (sized 36 (find_rec_in_page pg bsr_vd_attr)) [
  | none ↦ none
  | some b ↦ some (read_vd_attr b)
]

-- The maps of a volume: on V4 the RBMT's by itself and the BMT's through it, on V3 the BMT's by itself.
pub record Maps : Type 0 where
  pub rbmt : List Xtnt
  pub bmt : List Xtnt

unfoldable pub with_maps : List Xtnt → List Xtnt → Result Maps
with_maps rbmt bmt = ok (record { rbmt = rbmt; bmt = bmt })

unfoldable pub build_maps : Option Volume → BmtPage → ℕ → Result Maps
unfolding build_meta_extent_map with_maps
build_maps vol pg0 version =
    if leb first_rbmt_version version
    then (build_meta_extent_map vol pg0 bfm_rbmt none >>= λ rbmt.
        build_meta_extent_map vol pg0 bfm_bmt (some rbmt) >>= with_maps rbmt)
    else (build_meta_extent_map vol pg0 bfm_bmt_v3 none >>= with_maps [])

-- The mutable attributes' tag is preferred where it is a tag.
unfoldable pub set_dir_tag : DmnAttr → Option DmnMattr → BfTag
set_dir_tag attr none = attr.bf_set_dir_tag
set_dir_tag attr (some m) =
    if m.bf_set_dir_tag.num == 0 then attr.bf_set_dir_tag else m.bf_set_dir_tag

-- domain_open_primary behind the read of the page-0 metadata page.
unfoldable pub discover : Option Volume → ℕ → BmtPage → Option DmnAttr → Result Domain
unfolding mattr_of vd_attr_of build_maps set_dir_tag
discover vol version pg none = err eilseq
discover vol version pg (some attr) = build_maps vol pg version >>= λ maps. ok (record {
  vol = vol;
  ods_version = version;
  bmt_page = reserved_blks / blks_per_pg;
  rbmt_map = maps.rbmt;
  bmt_map = maps.bmt;
  domain_id = attr.bf_domain_id;
  max_vds = attr.max_vds;
  bf_set_dir_tag = set_dir_tag attr (mattr_of pg);
  mattr = mattr_of pg;
  vd_attr = vd_attr_of pg;
  vds = [];
})

-- domain_open_primary; detect_version refuses a NULL volume with the same EINVAL.
unfoldable pub domain_open_primary : Option Volume → Result Domain
unfolding detect_version bmt_read_page dmn_attr_of discover
domain_open_primary vol = detect_version vol >>= λ version.
    bmt_read_page vol (reserved_blks / blks_per_pg) >>= λ pg.
    discover vol version pg (dmn_attr_of pg)

-- The index of a secondary volume: its BSR_VD_ATTR's, or the next one in order.
unfoldable pub secondary_index : Option VdAttr → ℕ → ℕ
secondary_index none vd_count = vd_count + 1
secondary_index (some a) vd_count = a.vd_index

unfoldable pub is_attached : List DomainVd → ℕ → Bool
unfolding find_vd
is_attached vds vd_index = elim (find_vd vds vd_index) [ none ↦ false | some d ↦ true ]

-- The new entry at vds[vd_count].
unfoldable pub add_vd : Domain → DomainVd → Domain
add_vd domain d = record domain { vds = domain.vds ++ d ∷ [] }

-- attach_secondary_volume once the volume is known to belong to the domain.
unfoldable pub attach_as : Domain → Option Volume → BmtPage → ℕ → Result Domain
unfolding is_attached build_maps add_vd
attach_as domain vol pg0 vd_index =
    if vd_index == 0 || is_attached domain.vds vd_index
    then err eexist
    else build_maps vol pg0 domain.ods_version >>= λ maps. ok (record domain {
      vds = domain.vds ++ record { vol = vol; vd_index = vd_index; bmt_map = maps.bmt } ∷ [];
    })

-- The test of the domain id.
unfoldable pub attach_page : Domain → Option Volume → BmtPage → Option DmnAttr → Result Domain
unfolding vd_attr_of secondary_index attach_as
attach_page domain vol pg0 none = err eilseq
attach_page domain vol pg0 (some attr) =
    if not (attr.bf_domain_id.id_sec == domain.domain_id.id_sec)
      || not (attr.bf_domain_id.id_usec == domain.domain_id.id_usec)
    then err einval
    else attach_as domain vol pg0 (secondary_index (vd_attr_of pg0) (length domain.vds))

-- attach_secondary_volume
unfoldable pub attach_secondary_volume : Domain → Option Volume → Result Domain
unfolding detect_version bmt_read_page dmn_attr_of attach_page
attach_secondary_volume domain vol =
    if leb max_dom_vds (length domain.vds)
    then err e2big
    else detect_version vol >>= λ version.
        (if version == domain.ods_version
          then (bmt_read_page vol domain.bmt_page >>= λ pg0.
              attach_page domain vol pg0 (dmn_attr_of pg0))
          else err einval)

-- The loop of advfs_domain_open_multi.
unfoldable pub attach_all : Domain → List (Option Volume) → Result Domain
unfolding attach_secondary_volume
attach_all domain [] = ok domain
attach_all domain (vol ∷ rest) =
    attach_secondary_volume domain vol >>= λ domain'. attach_all domain' rest

-- The index of the primary volume.
unfoldable pub primary_index : Option VdAttr → ℕ
primary_index none = 1
primary_index (some a) = if a.vd_index == 0 then 1 else a.vd_index

-- The primary volume becomes vds[0].
unfoldable pub register_primary : Option Volume → Domain → Domain
unfolding primary_index
register_primary vol domain = record domain {
  vds =
      record { vol = vol; vd_index = primary_index domain.vd_attr; bmt_map = domain.bmt_map } ∷ [];
}

-- advfs_domain_open_multi
unfoldable pub domain_open_multi : List (Option Volume) → Result Domain
unfolding domain_open_primary register_primary attach_all
domain_open_multi [] = err einval
domain_open_multi (vol ∷ rest) =
    if ltb max_dom_vds (length (vol ∷ rest))
    then err einval
    else domain_open_primary vol >>= λ domain. attach_all (register_primary vol domain) rest

-- advfs_domain_open
unfoldable pub domain_open : Option Volume → Result Domain
unfolding domain_open_multi
domain_open vol = domain_open_multi (vol ∷ [])
