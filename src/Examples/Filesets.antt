-- ===== src/Examples/Filesets.antt =====
-- A V4 domain with one fileset, in slot 1 of page 0 of the tag directory of its BFSDIR: the fileset's
-- mcell is cell 1 of BMT page 0, and the BFSDIR's is cell 2 of RBMT page 0, here the same page.
use advfs_fuse.Base.{
  ℕ, zero, suc, ◌+◌, ◌-◌, ◌*◌, ◌≤◌, ◌≡◌, refl, List, [], ◌∷◌, ◌++◌, none, some, ok, true, false,
  ltb, if◌then◌else◌, arith,
}
use advfs_fuse.Ods.{
  Bytes, xtnt_term, rec_data_sz, mcid_page, mcid_cell, chain_mcid, prim_x_cnt, xtnt_type, read_xtnt,
  prim_xtnts, tmap_in_use, tmap_seq_no,
}
use advfs_fuse.Bmt.{find_rec}
use advfs_fuse.Volume.{got, Volume, fresh, store_bytes}
use advfs_fuse.Domain.{Domain}
use advfs_fuse.Extents.{Extent, extent, collect_array}
use advfs_fuse.Extents.ReadData.{PageRead, read_data}
use advfs_fuse.Filedata.Records.{mcell_at}
use advfs_fuse.Fileset.{bfsdir_extents}
use advfs_fuse.Fileset.Enumerate.{
  FilesetInfo, FilesetCb, fileset_list, tag_dir_pages, first_slot, slot_at,
}
use advfs_fuse.Fileset.Enumerate.Chain.{is_set, ChainSet, hit}
use advfs_fuse.Fileset.Enumerate.Report.{
  used, unused, Slots, end, slot, TagPages, good, report_sets, fileset_list-report,
}
use advfs_fuse.Examples.Pokes.{poked, poke}

abbrev bmt_page : Bytes
bmt_page = poked (
    poke 15 32
    ∷ poke 316 9
    ∷ poke 332 220
    ∷ poke 334 8
    ∷ poke 424 100
    ∷ poke 624 80
    ∷ poke 626 1
    ∷ poke 686 2
    ∷ poke 692 48
    ∷ poke 696 1
    ∷ poke 700 255
    ∷ poke 701 255
    ∷ poke 702 255
    ∷ poke 703 255
    ∷ [])

abbrev tag_page : Bytes
tag_page = poked (poke 25 128 ∷ poke 28 1 ∷ [])

abbrev pub vol : Volume
vol = record {
  content = λ n. if ltb n 25088 then bmt_page (n - 16896) else tag_page (n - 25088);
  answers = λ len abs. got len ∷ [];
  part_offset = 512;
  size_bytes = 81920;
  page_count = 10;
}

abbrev pub domain : Domain
domain = record {
  vol = some vol;
  ods_version = 4;
  bmt_page = 2;
  rbmt_map = [];
  bmt_map = record { bs_page = 0; vd_blk = 32 } ∷ record { bs_page = 1; vd_blk = xtnt_term } ∷ [];
  domain_id = record { id_sec = 1; id_usec = 2 };
  max_vds = 8;
  bf_set_dir_tag = record { num = 2; seq = 1 };
  mattr = none;
  vd_attr = none;
  vds = [];
}

abbrev pub bfsdir : List Extent
bfsdir = extent 0 48 0 ∷ extent 1 xtnt_term 0 ∷ []

pub bfsdir_read : bfsdir_extents vol domain ≡ ok bfsdir
unfolding bfsdir_extents rec_data_sz mcid_page mcid_cell chain_mcid collect_array prim_x_cnt
    xtnt_type read_xtnt prim_xtnts
bfsdir_read = refl

-- Collects the tag numbers.
abbrev pub collect : FilesetCb (List ℕ)
collect info user = record { stop = false; user = user ++ info.dir_tag.num ∷ [] }

lists : fileset_list collect vol domain [] ≡ ok (9 ∷ [])
unfolding fileset_list rec_data_sz mcid_page mcid_cell chain_mcid collect_array prim_x_cnt xtnt_type
    read_xtnt prim_xtnts
lists = refl

one_page : tag_dir_pages bfsdir ≡ 1
unfolding tag_dir_pages
one_page = refl

pub page_read : (r : PageRead) × (read_data (some vol) bfsdir 0 fresh ≡ ok r)
unfolding read_data
page_read = (_, refl)

zero_behind : (n : ℕ) → 29 ≤ n → page_read.0.bytes n ≡ 0
unfolding page_read store_bytes
zero_behind n h = ground arith

free_behind : (j : ℕ) → 2 ≤ j → tmap_in_use page_read.0.bytes j ≡ false
unfolding tmap_in_use tmap_seq_no
free_behind j h =
    rw (zero_behind (16 + 8 * j) (omega arith), zero_behind (16 + 8 * j + 1) (omega arith)) refl

unused_from : (left i : ℕ) → 2 ≤ i → Slots domain page_read.0.bytes i left []
unused_from zero i h = end
unused_from (suc left) i h =
    slot none (unused (free_behind i h)) (unused_from left (i + 1) (omega arith))

pub first_set : (info : FilesetInfo) × ChainSet domain 8 (slot_at page_read.0.bytes 1) (some info)
unfolding mcell_at slot_at page_read find_rec rec_data_sz mcid_page mcid_cell
first_set = (_, hit _ refl (is_set _ refl (omega arith)))

first_used : tmap_in_use page_read.0.bytes 1 ≡ true
unfolding tmap_in_use tmap_seq_no page_read
first_used = refl

pub pages : TagPages vol domain bfsdir 0 (tag_dir_pages bfsdir) (first_set.0 ∷ [])
unfolding first_slot
pages = rw (one_page) (
    good page_read.0 page_read.1
      (slot (some first_set.0) (used first_used first_set.1) (unused_from 1020 2 (omega arith)))
      end)

fileset_list-report_example :
    fileset_list collect vol domain [] ≡ ok (report_sets collect (first_set.0 ∷ []) []).user
fileset_list-report_example =
    fileset_list-report collect vol domain bfsdir (first_set.0 ∷ []) [] bfsdir_read pages
