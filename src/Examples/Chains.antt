-- ===== src/Examples/Chains.antt =====
-- A bitfile whose primary record and one XTRA record stand on page 0 of the BMT, and a striped one.
use advfs_fuse.Base.{ℕ, ◌-◌, ◌≤◌, ◌≡◌, refl, List, [], ◌∷◌, none, some, ok}
use advfs_fuse.Ods.{
  Bytes, Xtnt, Mcell, xtnt_term, xtnt_rec_sz, rec_data_sz, bsr_xtnts, prim_x_cnt, chain_mcid,
  mcid_page, mcid_cell, xtra_x_cnt, xtnt_type, read_xtnt, prim_xtnts, xtra_xtnts, shadow_x_cnt,
  shadow_xtnts, segment_size, chain_vd_index,
}
use advfs_fuse.Examples.Pokes.{poked, poke}
use advfs_fuse.Volume.{got, Volume}
use advfs_fuse.Bmt.{Rec, get_mcell, find_rec}
use advfs_fuse.Extents.{Extent, extent, collect_array, page_count}
use advfs_fuse.Extents.Stripe.{stripe_interleave, total_from, interleave_loop}
use advfs_fuse.Domain.{Domain}
use advfs_fuse.Extents.Chain.{XtntSrc, legacy, in_domain, extents_read_core, rec_bytes}
use advfs_fuse.Extents.Chain.Links.{Link, IsMap}
use advfs_fuse.Extents.Chain.Read.{LinksOf, extents_read_core-IsMap}

-- Version 4; cell 1: a BSR_XTNTS record whose chain is cell 2, with page 0 at block 32 and page 3
-- at block 64; cell 2: a BSR_XTRA_XTNTS record with the end at page 5.
abbrev pub bmt_page : Bytes
bmt_page = poked (
    poke 15 32
    ∷ poke 332 80
    ∷ poke 334 1
    ∷ poke 344 2
    ∷ poke 394 2
    ∷ poke 400 32
    ∷ poke 404 3
    ∷ poke 408 64
    ∷ poke 624 16
    ∷ poke 626 5
    ∷ poke 630 1
    ∷ poke 632 5
    ∷ poke 636 255
    ∷ poke 637 255
    ∷ poke 638 255
    ∷ poke 639 255
    ∷ [])

abbrev pub vol : Volume
vol = record {
  content = λ n. bmt_page (n - 16896);
  answers = λ len abs. got 8192 ∷ [];
  part_offset = 512;
  size_bytes = 81920;
  page_count = 10;
}

abbrev xtnt : ℕ → ℕ → Xtnt
xtnt bs_page vd_blk = record { bs_page = bs_page; vd_blk = vd_blk }

abbrev src : XtntSrc
src = legacy (some vol) (some (xtnt 0 32 ∷ xtnt 1 xtnt_term ∷ []))

abbrev two_mcells : List Extent
two_mcells = extent 0 32 0 ∷ extent 3 64 0 ∷ extent 5 xtnt_term 0 ∷ []

reads : extents_read_core src 0 bmt_page 1 10 ≡ ok two_mcells
unfolding extents_read_core rec_data_sz collect_array prim_x_cnt chain_mcid mcid_page mcid_cell
    xtra_x_cnt xtnt_type read_xtnt prim_xtnts xtra_xtnts
reads = refl

-- A striped bitfile: cell 1 holds its BSR_XTNTS record without descriptors, with segments of two pages,
-- and cells 2 and 3 a BSR_SHADOW_XTNTS record each, for two columns of four pages.
abbrev striped_page : Bytes
striped_page = poked (
    poke 15 32
    ∷ poke 332 80
    ∷ poke 334 1
    ∷ poke 336 2
    ∷ poke 344 2
    ∷ poke 360 2
    ∷ poke 600 3
    ∷ poke 624 28
    ∷ poke 626 6
    ∷ poke 634 2
    ∷ poke 640 160
    ∷ poke 644 4
    ∷ poke 648 255
    ∷ poke 649 255
    ∷ poke 650 255
    ∷ poke 651 255
    ∷ poke 916 28
    ∷ poke 918 6
    ∷ poke 926 2
    ∷ poke 932 64
    ∷ poke 933 1
    ∷ poke 936 4
    ∷ poke 940 255
    ∷ poke 941 255
    ∷ poke 942 255
    ∷ poke 943 255
    ∷ [])

abbrev striped_domain : Domain
striped_domain = record {
  vol = some (record vol { content = λ n. striped_page (n - 16896) });
  ods_version = 4;
  bmt_page = 2;
  rbmt_map = [];
  bmt_map = xtnt 0 32 ∷ xtnt 1 xtnt_term ∷ [];
  domain_id = record { id_sec = 1; id_usec = 2 };
  max_vds = 8;
  bf_set_dir_tag = record { num = 2; seq = 1 };
  mattr = none;
  vd_attr = none;
  vds = [];
}

abbrev interleaved : List Extent
interleaved =
    extent 0 160 0 ∷ extent 2 320 0 ∷ extent 4 192 0 ∷ extent 6 352 0 ∷ extent 8 xtnt_term 0 ∷ []

reads_striped : extents_read_core (in_domain striped_domain) 0 striped_page 1 100 ≡ ok interleaved
unfolding extents_read_core rec_data_sz collect_array prim_x_cnt chain_mcid mcid_page mcid_cell
    shadow_x_cnt shadow_xtnts xtnt_type read_xtnt prim_xtnts segment_size stripe_interleave
    total_from interleave_loop page_count chain_vd_index
reads_striped = refl

extents_read_core-IsMap_example :
    (mc : Mcell) × (r : Rec) × (get_mcell striped_page 1 ≡ some mc)
    × (find_rec mc.records bsr_xtnts ≡ some r)
    × (xtnt_rec_sz ≤ rec_data_sz r.hdr)
    × ((ls : List Link) × LinksOf (in_domain striped_domain) 0 (rec_bytes mc r) ls
        × IsMap (in_domain striped_domain) 0 (rec_bytes mc r) 100 ls interleaved)
extents_read_core-IsMap_example =
    extents_read_core-IsMap (in_domain striped_domain) 0 striped_page 1 100 interleaved
      reads_striped
