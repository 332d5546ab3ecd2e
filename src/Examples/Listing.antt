-- ===== src/Examples/Listing.antt =====
-- The root directory, with tag 2, whose mcell stands in cell 1 of BMT page 0, and whose one page is page 3
-- of the volume.
use advfs_fuse.Base.{
  ℕ, ◌-◌, ◌≡◌, refl, List, [], ◌∷◌, ◌++◌, Option, none, some, ok, false, ltb, if◌then◌else◌, arith,
  get_or,
}
use advfs_fuse.Ods.{
  Bytes, BfTag, xtnt_term, perm_hole, rec_data_sz, mcid_page, mcid_cell, chain_mcid, prim_x_cnt,
  xtnt_type, read_xtnt, prim_xtnts,
}
use advfs_fuse.Volume.{got, Volume, fresh}
use advfs_fuse.Domain.{Domain}
use advfs_fuse.Extents.{Extent, extent, collect_array}
use advfs_fuse.Extents.ReadData.{PageRead, read_data_dom}
use advfs_fuse.Examples.Pokes.{poked, poke}
use advfs_fuse.Dir.{Callback}
use advfs_fuse.Dir.Items.{Item}
use advfs_fuse.Dir.Walk.{report}
use advfs_fuse.Dir.Read.{
  dir_resolve_extents, original_dir, dir_pages, cap_pages, dir_read_full_clone,
}
use advfs_fuse.Dir.Read.Listing.{PageOf, Listing, there, from_own}
use advfs_fuse.Dir.Read.Reported.{dir_read_full_clone_total}

abbrev pub bmt_page : Bytes
bmt_page = poked (
    poke 15 32
    ∷ poke 316 2
    ∷ poke 324 2
    ∷ poke 332 80
    ∷ poke 334 1
    ∷ poke 394 2
    ∷ poke 400 48
    ∷ poke 404 1
    ∷ poke 408 255
    ∷ poke 409 255
    ∷ poke 410 255
    ∷ poke 411 255
    ∷ poke 412 92
    ∷ poke 414 255
    ∷ poke 424 237
    ∷ poke 425 65
    ∷ [])

abbrev pub dir_block : Bytes
dir_block i =
    get_or (7 ∷ 0 ∷ 0 ∷ 0 ∷ 20 ∷ 0 ∷ 2 ∷ 0 ∷ 104 ∷ 105 ∷ 0 ∷ 0 ∷ 7 ∷ 0 ∷ 0 ∷ 0 ∷ 1 ∷ 0 ∷ 0 ∷ 0 ∷ [])
      i 0

abbrev pub vol : Volume
vol = record {
  content = λ n. if ltb n 25088 then bmt_page (n - 16896) else dir_block (n - 25088);
  answers = λ len abs. got len ∷ [];
  part_offset = 512;
  size_bytes = 81920;
  page_count = 10;
}

abbrev pub domain : Domain
domain = record {
  vol = some vol;
  ods_version = 4;
  bmt_page = 2;
  rbmt_map = [];
  bmt_map = record { bs_page = 0; vd_blk = 32 } ∷ record { bs_page = 1; vd_blk = xtnt_term } ∷ [];
  domain_id = record { id_sec = 1; id_usec = 2 };
  max_vds = 8;
  bf_set_dir_tag = record { num = 2; seq = 1 };
  mattr = none;
  vd_attr = none;
  vds = [];
}

abbrev pub tag : ℕ → BfTag
tag n = record { num = n; seq = 1 }

abbrev pub root : BfTag
root = record { num = 2; seq = 0 }

abbrev pub tag_hole : Extent
tag_hole = extent 0 perm_hole 0

abbrev pub dir_map : List Extent
dir_map = extent 0 48 0 ∷ extent 1 xtnt_term 0 ∷ []

-- Collects the tag numbers.
abbrev collect : Option (Callback (List ℕ))
collect = some (λ name t user. record { stop = false; user = user ++ t.num ∷ [] })

pub resolves : dir_resolve_extents domain (tag_hole ∷ []) (tag 2) root ≡ ok dir_map
unfolding dir_resolve_extents rec_data_sz mcid_page mcid_cell chain_mcid collect_array prim_x_cnt
    xtnt_type read_xtnt prim_xtnts
resolves = refl

no_clone : original_dir vol domain none root ≡ ok none
unfolding original_dir
no_clone = refl

pub one_page : cap_pages (dir_pages dir_map none) ≡ 1
unfolding cap_pages dir_pages
one_page = refl

data_page :
    (r : PageRead) × (read_data_dom (some domain) dir_map 0 fresh ≡ ok r) × (r.is_perm_hole ≡ false)
unfolding read_data_dom
data_page = (_, refl, refl)

pub page_0 : (shown : Option Bytes) × PageOf domain dir_map none 0 shown
page_0 = (_, from_own (there data_page.0 data_page.1 data_page.2 refl))

dir_read_full_clone_total_example :
    (its : List Item) × Listing domain dir_map none 0 (cap_pages (dir_pages dir_map none)) its
    × (dir_read_full_clone collect none vol domain (tag_hole ∷ []) (tag 2) root none []
        ≡ ok (report collect none its [] 0).user)
dir_read_full_clone_total_example =
    dir_read_full_clone_total collect none vol domain tag_hole [] dir_map (tag 2) root none none []
      (λ e. omega arith) resolves no_clone
      (λ i h. let z : i ≡ 0 = omega (arith, one_page) in rw z page_0)
