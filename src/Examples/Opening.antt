-- ===== src/Examples/Opening.antt =====
-- A V3 domain of two volumes, with indices 1 and 3, whose BMTs are their page 0 alone.
use advfs_fuse.Base.{
  ℕ, ◌-◌, ◌<◌, ◌≡◌, ◌↔◌, ◌⊎◌, refl, List, [], ◌∷◌, Option, none, some, ok, err, eexist, get_elem?,
  length, arith,
}
use advfs_fuse.Ods.{
  Bytes, Xtnt, xtnt_term, prim_x_cnt, read_xtnt, prim_xtnts, xtra_x_cnt, xtra_xtnts, rec_data_sz,
  mcid_page, mcid_cell, chain_mcid,
}
use advfs_fuse.Examples.Pokes.{poked, poke}
use advfs_fuse.Volume.{got, Volume}
use advfs_fuse.Examples.Chains
use advfs_fuse.Domain.{Domain, DomainVd, domain_vd_vol}
use advfs_fuse.Domain.Meta.{build_meta_extent_map}
use advfs_fuse.Domain.Meta.Links.{MetaMap, build_meta_extent_map-MetaMap}
use advfs_fuse.Domain.Open.{domain_open_multi, attach_secondary_volume, secondary_index, vd_attr_of}
use advfs_fuse.Domain.Attach.{VdOf, OpenOn}
use advfs_fuse.Domain.Opened.{domain_open_multi-OpenOn}
use advfs_fuse.Domain.Attached.{domain_open_multi_finds}
use advfs_fuse.Domain.Refused.{Candidate, Taken, attach-eexist-iff-Taken}

abbrev page_0 : ℕ → Bytes
page_0 vd_index = poked (
    poke 15 24
    ∷ poke 40 80
    ∷ poke 42 1
    ∷ poke 102 2
    ∷ poke 108 32
    ∷ poke 112 1
    ∷ poke 116 255
    ∷ poke 117 255
    ∷ poke 118 255
    ∷ poke 119 255
    ∷ poke 120 24
    ∷ poke 122 4
    ∷ poke 124 7
    ∷ poke 128 9
    ∷ poke 144 40
    ∷ poke 146 3
    ∷ poke 160 vd_index
    ∷ [])

abbrev vol : ℕ → Option Volume
vol vd_index = some (record {
  content = λ n. page_0 vd_index (n - 16896);
  answers = λ len abs. got len ∷ [];
  part_offset = 512;
  size_bytes = 81920;
  page_count = 10;
})

abbrev vols : List (Option Volume)
vols = vol 1 ∷ vol 3 ∷ []

opened : (d : Domain) × (domain_open_multi vols ≡ ok d)
unfolding domain_open_multi rec_data_sz mcid_page mcid_cell chain_mcid
opened = (_, refl)

domain_open_multi-OpenOn_example : OpenOn vols opened.0
domain_open_multi-OpenOn_example = domain_open_multi-OpenOn vols opened.0 opened.1

domain_open_multi_finds_example :
    (d : DomainVd) × (get_elem? opened.0.vds 1 ≡ some d)
    × VdOf opened.0.ods_version opened.0.bmt_page opened.0.domain_id (vol 3) d
    × (domain_vd_vol opened.0 d.vd_index ≡ vol 3)
domain_open_multi_finds_example = domain_open_multi_finds vols opened.0 1 (vol 3) opened.1 refl

-- The map of the bitfile of Examples/Chains.antt, whose chain mcell is found through its own record.
abbrev chained_map : List Xtnt
chained_map =
    record { bs_page = 0; vd_blk = 32 }
    ∷ record { bs_page = 3; vd_blk = 64 }
    ∷ record { bs_page = 5; vd_blk = xtnt_term }
    ∷ []

meta_map : build_meta_extent_map (some Chains.vol) Chains.bmt_page 1 none ≡ ok chained_map
unfolding build_meta_extent_map rec_data_sz mcid_page mcid_cell chain_mcid prim_x_cnt read_xtnt
    prim_xtnts xtra_x_cnt xtra_xtnts
meta_map = refl

build_meta_extent_map-MetaMap_example : MetaMap (some Chains.vol) Chains.bmt_page 1 none chained_map
build_meta_extent_map-MetaMap_example =
    build_meta_extent_map-MetaMap (some Chains.vol) Chains.bmt_page 1 none chained_map meta_map

alone : (d : Domain) × (domain_open_multi (vol 1 ∷ []) ≡ ok d)
unfolding domain_open_multi rec_data_sz mcid_page mcid_cell chain_mcid
alone = (_, refl)

has_attr : alone.0.vd_attr ≡ some (record { vd_index = 1 })
unfolding alone
has_attr = refl

-- The second volume again, on the domain of the two.
candidate : Candidate opened.0 (vol 3)
unfolding domain_open_multi rec_data_sz mcid_page mcid_cell chain_mcid opened
candidate = record {
  has_version = refl;
  pg = _;
  read = refl;
  attr = _;
  has_attr = refl;
  sec = refl;
  usec = refl;
}

room : length opened.0.vds < 8
unfolding opened
room = omega arith

attach-eexist-iff-Taken_example : (attach_secondary_volume opened.0 (vol 3) ≡ err eexist) ↔ (
    (secondary_index (vd_attr_of candidate.pg) (length opened.0.vds) ≡ 0)
    ⊎ Taken opened.0.vds (secondary_index (vd_attr_of candidate.pg) (length opened.0.vds)))
attach-eexist-iff-Taken_example = attach-eexist-iff-Taken opened.0 (vol 3) candidate room
