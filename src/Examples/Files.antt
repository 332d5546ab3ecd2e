-- ===== src/Examples/Files.antt =====
-- A file of 10 bytes with tag 5, whose tag directory is a hole: its attributes stand in cell 1 of BMT
-- page 0, and its data in cell 2.
use advfs_fuse.Base.{
  ℕ, ◌+◌, ◌-◌, ◌≤◌, ◌<◌, ◌≡◌, ◌↔◌, refl, List, [], ◌∷◌, none, some, ok, true, false, min, ltb,
  if◌then◌else◌,
}
use advfs_fuse.Ods.{
  Bytes, BfTag, Xtnt, Mcell, xtnt_term, perm_hole, bmtr_fs_data, bsr_xtnts, FsStat, st_size,
  rec_data_sz, mcid_page, mcid_cell,
}
use advfs_fuse.Examples.Pokes.{poked, poke}
use advfs_fuse.Volume.{got, Volume}
use advfs_fuse.Bmt.{Rec}
use advfs_fuse.Domain.{Domain}
use advfs_fuse.Extents.{Extent, extent}
use advfs_fuse.Filedata.{McellAt, find_tag_by_bmt_scan}
use advfs_fuse.Filedata.Records.{Copied, find_rec_in_chain, max_hops}
use advfs_fuse.Filedata.Records.First.{FirstIn, IsCopy, find_rec_in_chain-iff-FirstIn}
use advfs_fuse.Dir.Mcells.{find_xtnts_mcell, dir_has_undelete, max_xtnts_hops, bmtr_fs_undel_dir}
use advfs_fuse.Dir.Mcells.Found.{find_xtnts_mcell-iff-FirstIn}
use advfs_fuse.Dir.Mcells.Undelete.{has_undelete-iff-FirstIn}
use advfs_fuse.FuseOps.{FuseCtx, Cache, OpRead, op_read}
use advfs_fuse.FuseOps.Cached.{IsFile, IsTrue, op_read-IsFile}
use advfs_fuse.Filedata.Scan.{IsOf, Stands, find_tag_by_bmt_scan-IsOf}
use advfs_fuse.Filedata.Read.{FileData, filedata_stat, filedata_read, filedata_max_size}
use advfs_fuse.Filedata.Read.InBounds.{filedata_read_in_bounds}
use advfs_fuse.Filedata.Copy.Outside.{EndsAt}

abbrev bmt_page : Bytes
bmt_page = poked (
    poke 15 32
    ∷ poke 308 2
    ∷ poke 316 5
    ∷ poke 324 2
    ∷ poke 332 92
    ∷ poke 334 255
    ∷ poke 360 10
    ∷ poke 624 14
    ∷ poke 626 254
    ∷ poke 628 104
    ∷ poke 629 105
    ∷ [])

abbrev vol : Volume
vol = record {
  content = λ n. bmt_page (n - 16896);
  answers = λ len abs. got 8192 ∷ [];
  part_offset = 512;
  size_bytes = 81920;
  page_count = 10;
}

abbrev xtnt : ℕ → ℕ → Xtnt
xtnt bs_page vd_blk = record { bs_page = bs_page; vd_blk = vd_blk }

abbrev bmt_map : List Xtnt
bmt_map = xtnt 0 32 ∷ xtnt 1 xtnt_term ∷ []

abbrev domain : Domain
domain = record {
  vol = some vol;
  ods_version = 4;
  bmt_page = 2;
  rbmt_map = [];
  bmt_map = bmt_map;
  domain_id = record { id_sec = 1; id_usec = 2 };
  max_vds = 8;
  bf_set_dir_tag = record { num = 2; seq = 1 };
  mattr = none;
  vd_attr = none;
  vds = [];
}

abbrev tag : ℕ → BfTag
tag n = record { num = n; seq = 1 }

abbrev tag_dir : List Extent
tag_dir = extent 0 perm_hole 0 ∷ extent 1 xtnt_term 0 ∷ []

abbrev primary : McellAt
primary = record { vd = 0; page = 0; cell = 1 }

scans : find_tag_by_bmt_scan domain (tag 2) 5 ≡ ok primary
unfolding find_tag_by_bmt_scan
scans = refl

find_tag_by_bmt_scan-IsOf_example : (mc : Mcell) × Stands domain primary mc × IsOf (tag 2) 5 mc
find_tag_by_bmt_scan-IsOf_example = find_tag_by_bmt_scan-IsOf domain (tag 2) 5 primary scans

abbrev inline_data : Copied
inline_data = record { bytes = λ i. if ltb i 10 then bmt_page (628 + i) else 0; size = 10 }

find_rec_in_chain-iff-FirstIn_example :
    (find_rec_in_chain domain primary bmtr_fs_data (λ _. 0) 268 ≡ ok inline_data) ↔ (
      (at' : McellAt) × (mc : Mcell) × (r : Rec) × FirstIn domain bmtr_fs_data max_hops primary at'
        mc r
      × IsCopy mc r (λ _. 0) 268 inline_data)
find_rec_in_chain-iff-FirstIn_example =
    find_rec_in_chain-iff-FirstIn domain primary bmtr_fs_data (λ _. 0) 268 inline_data

contents :
    (f : FileData) × (filedata_read (some vol) (some domain) tag_dir (tag 2) (tag 5) none ≡ ok f)
unfolding filedata_read rec_data_sz mcid_page mcid_cell
contents = (_, refl)

filedata_read_in_bounds_example :
    ((st : FsStat) × (filedata_stat (some vol) (some domain) tag_dir (tag 2) (tag 5) ≡ ok st)
      × (contents.0.size ≡ st_size st))
    × (contents.0.size ≤ filedata_max_size)
    × EndsAt contents.0.size contents.0.buf
filedata_read_in_bounds_example =
    filedata_read_in_bounds (some vol) (some domain) tag_dir (tag 2) (tag 5) none contents.0
      contents.1

find_xtnts_mcell-iff-FirstIn_example :
    (find_xtnts_mcell domain primary ≡ ok primary)
    ↔ ((mc : Mcell) × (r : Rec) × FirstIn domain bsr_xtnts max_xtnts_hops primary primary mc r)
find_xtnts_mcell-iff-FirstIn_example = find_xtnts_mcell-iff-FirstIn domain primary primary

has_undelete-iff-FirstIn_example : (dir_has_undelete (some vol) (some domain) primary ≡ ok true) ↔ (
    (at' : McellAt) × (mc : Mcell) × (r : Rec) × FirstIn domain bmtr_fs_undel_dir max_xtnts_hops
      primary at' mc r)
has_undelete-iff-FirstIn_example = has_undelete-iff-FirstIn vol domain primary

abbrev ctx : FuseCtx
ctx = record {
  vol = some vol;
  domain = some domain;
  fs_tag = tag 2;
  fs_tag_extents = tag_dir;
  is_clone = false;
  orig_set_tag = tag 0;
}

abbrev empty_cache : Cache
empty_cache = record { tag_num = 0; contents = none }

-- 100 bytes from the second byte on, of which 9 are there.
tail : (r : OpRead) × (op_read ctx empty_cache (tag 5) (λ _. 1) 100 1 ≡ ok r)
unfolding op_read rec_data_sz mcid_page mcid_cell
tail = (_, refl)

op_read-IsFile_example :
    ((f : FileData) × IsFile ctx 5 f
      × (tail.0.n ≡ min 100 (f.size - 1))
      × ((i : ℕ) → i < tail.0.n → tail.0.buf i ≡ f.buf (1 + i))
      × ((i : ℕ) → tail.0.n ≤ i → tail.0.buf i ≡ 1))
    × IsTrue ctx tail.0.cache
op_read-IsFile_example =
    op_read-IsFile ctx empty_cache (tag 5) (λ _. 1) 100 1 tail.0 (λ f e. cc) tail.1
