-- ===== src/Domain.antt =====
-- src/domain.c: the volumes of a domain, and the reading of BMT pages through the owning volume's
-- extent map.
pub mod Lookup
pub mod Meta
pub mod Open
pub mod Attach
pub mod Opened
pub mod Attached
pub mod Refused
use advfs_fuse.Base.{
  ℕ, Bool, true, false, List, [], ◌∷◌, Option, none, some, ◌==◌, if◌then◌else◌, Result, ok, err,
  ◌>>=◌, enoent, einval,
}
use advfs_fuse.Ods.{Xtnt, BmtPage, BfTag}
use advfs_fuse.Util.{bmt_resolve_page}
use advfs_fuse.Volume.{Volume}
use advfs_fuse.Bmt.{bmt_read_page}

-- `advfs_domain_vd_t`: an attached volume, its index in the domain and the map of its BMT.
pub record DomainVd : Type 0 where
  pub vol : Option Volume
  pub vd_index : ℕ
  pub bmt_map : List Xtnt

-- `adv_id_t`: the time stamp that identifies a domain.
pub record AdvId : Type 0 where
  pub id_sec : ℕ
  pub id_usec : ℕ

-- The fields of `adv_dmn_mattr_t` and `adv_vd_attr_t` that the program uses.
pub record DmnMattr : Type 0 where
  pub vd_cnt : ℕ
  pub bf_set_dir_tag : BfTag

pub record VdAttr : Type 0 where
  pub vd_index : ℕ

-- `advfs_domain_t`. `vds` has `vd_count` entries; `mattr` and `vd_attr` are there if `has_mattr` and
-- `has_vd_attr` are set.
pub record Domain : Type 0 where
  pub vol : Option Volume
  pub ods_version : ℕ
  pub bmt_page : ℕ
  pub rbmt_map : List Xtnt
  pub bmt_map : List Xtnt
  pub domain_id : AdvId
  pub max_vds : ℕ
  pub bf_set_dir_tag : BfTag
  pub mattr : Option DmnMattr
  pub vd_attr : Option VdAttr
  pub vds : List DomainVd

-- The loop of domain_find_vd.
unfoldable pub find_vd_in : List DomainVd → ℕ → Option DomainVd
find_vd_in [] vd_index = none
find_vd_in (d ∷ rest) vd_index = if d.vd_index == vd_index then some d else find_vd_in rest vd_index

-- domain_find_vd, on the volume table.
unfoldable pub find_vd : List DomainVd → ℕ → Option DomainVd
unfolding find_vd_in
find_vd [] vd_index = none
find_vd (d ∷ rest) vd_index = if vd_index == 0 then some d else find_vd_in (d ∷ rest) vd_index

-- The volume of the entry found, or the primary volume of a context without a volume table.
unfoldable pub vd_or_primary : Domain → Option DomainVd → ℕ → Option Volume
vd_or_primary domain (some d) vd_index = d.vol
vd_or_primary domain none vd_index = if vd_index == 0 then domain.vol else none

-- advfs_domain_vd_vol
unfoldable pub domain_vd_vol : Domain → ℕ → Option Volume
unfolding find_vd vd_or_primary
domain_vd_vol domain vd_index = vd_or_primary domain (find_vd domain.vds vd_index) vd_index

-- advfs_domain_read_bmt_page behind its NULL tests.
unfoldable pub read_through_map : Option Volume → List Xtnt → ℕ → Result BmtPage
unfolding bmt_resolve_page bmt_read_page
read_through_map vol bmt_map page_num =
    bmt_resolve_page true (some bmt_map) page_num >>= λ vol_page. bmt_read_page vol vol_page

-- advfs_domain_read_bmt_page
unfoldable pub domain_read_bmt_page : Domain → ℕ → Result BmtPage
unfolding read_through_map
domain_read_bmt_page domain page_num = elim domain.vol [
  | none ↦ err einval
  | some vol ↦ read_through_map (some vol) domain.bmt_map page_num
]

-- advfs_domain_read_bmt_page_vd on the entry found.
unfoldable pub read_bmt_page_of : Domain → Option DomainVd → ℕ → ℕ → Result BmtPage
unfolding domain_read_bmt_page read_through_map
read_bmt_page_of domain (some d) vd_index page_num = read_through_map d.vol d.bmt_map page_num
read_bmt_page_of domain none vd_index page_num =
    if vd_index == 0 then domain_read_bmt_page domain page_num else err enoent

-- advfs_domain_read_bmt_page_vd
unfoldable pub read_bmt_page_vd : Domain → ℕ → ℕ → Result BmtPage
unfolding find_vd read_bmt_page_of
read_bmt_page_vd domain vd_index page_num =
    read_bmt_page_of domain (find_vd domain.vds vd_index) vd_index page_num

-- advfs_domain_vd_map, on the entry found.
unfoldable pub vd_map_of : Domain → Option DomainVd → ℕ → Result (List Xtnt)
vd_map_of domain (some d) vd_index = ok d.bmt_map
vd_map_of domain none vd_index = if vd_index == 0 then ok domain.bmt_map else err enoent

-- advfs_domain_vd_map; `none` is a NULL domain.
unfoldable pub domain_vd_map : Option Domain → ℕ → Result (List Xtnt)
unfolding find_vd vd_map_of
domain_vd_map none vd_index = err enoent
domain_vd_map (some domain) vd_index = vd_map_of domain (find_vd domain.vds vd_index) vd_index
