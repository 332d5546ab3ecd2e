-- ===== src/Examples/Clones.antt =====
-- A file with tag 5 of a clone without its pages. The original fileset has tag 1: slot 1 of the BFSDIR's
-- tag directory, which is page 3 of the volume, leads to cell 1 of BMT page 0, where its own tag
-- directory is a hole. The file's counterpart stands in cell 3, with its page 0 on page 3 too.
use advfs_fuse.Base.{
  ℕ, ◌+◌, ◌-◌, ◌<◌, ◌≡◌, refl, inl, inr, List, [], ◌∷◌, none, some, ok, ltb, if◌then◌else◌, arith,
}
use advfs_fuse.Ods.{
  Bytes, BfTag, pgsz, xtnt_term, perm_hole, mcid_page, mcid_cell, chain_mcid, prim_x_cnt, xtnt_type,
  read_xtnt, prim_xtnts, rec_data_sz,
}
use advfs_fuse.Volume.{got, Volume}
use advfs_fuse.Domain.{Domain, domain_vd_vol}
use advfs_fuse.Extents.{Extent, extent, collect_array}
use advfs_fuse.Extents.Lookup.{find_extent}
use advfs_fuse.Extents.ReadData.Pages.{IsReadable}
use advfs_fuse.Filedata.Copy.{Fallback, Page, untried, original_extents, bitfile_page}
use advfs_fuse.Filedata.Copy.Plain.{PageIs, on_volume}
use advfs_fuse.Filedata.Copy.Clone.{IsOriginal, with_map, clone_page-PageIs}
use advfs_fuse.Examples.Pokes.{poked, poke}

abbrev bmt_page : Bytes
bmt_page = poked (
    poke 15 32
    ∷ poke 316 1
    ∷ poke 332 80
    ∷ poke 334 1
    ∷ poke 394 2
    ∷ poke 400 254
    ∷ poke 401 255
    ∷ poke 402 255
    ∷ poke 403 255
    ∷ poke 404 1
    ∷ poke 408 255
    ∷ poke 409 255
    ∷ poke 410 255
    ∷ poke 411 255
    ∷ poke 624 80
    ∷ poke 626 1
    ∷ poke 686 2
    ∷ poke 692 48
    ∷ poke 696 1
    ∷ poke 700 255
    ∷ poke 701 255
    ∷ poke 702 255
    ∷ poke 703 255
    ∷ poke 900 5
    ∷ poke 908 1
    ∷ poke 916 80
    ∷ poke 918 1
    ∷ poke 978 2
    ∷ poke 984 48
    ∷ poke 988 1
    ∷ poke 992 255
    ∷ poke 993 255
    ∷ poke 994 255
    ∷ poke 995 255
    ∷ [])

abbrev tag_page : Bytes
tag_page = poked (poke 25 128 ∷ poke 28 1 ∷ [])

abbrev vol : Volume
vol = record {
  content = λ n. if ltb n 25088 then bmt_page (n - 16896) else tag_page (n - 25088);
  answers = λ len abs. got len ∷ [];
  part_offset = 512;
  size_bytes = 81920;
  page_count = 10;
}

abbrev domain : Domain
domain = record {
  vol = some vol;
  ods_version = 4;
  bmt_page = 2;
  rbmt_map = [];
  bmt_map = record { bs_page = 0; vd_blk = 32 } ∷ record { bs_page = 1; vd_blk = xtnt_term } ∷ [];
  domain_id = record { id_sec = 1; id_usec = 2 };
  max_vds = 8;
  bf_set_dir_tag = record { num = 2; seq = 1 };
  mattr = none;
  vd_attr = none;
  vds = [];
}

abbrev tag : ℕ → BfTag
tag n = record { num = n; seq = 1 }

abbrev fallback : Fallback
fallback = record {
  vol = vol;
  domain = domain;
  orig_fs_tag = tag 1;
  file_tag = tag 5;
  resolved = untried;
}

abbrev orig : List Extent
orig = extent 0 48 0 ∷ extent 1 xtnt_term 0 ∷ []

original : original_extents vol domain (tag 1) (tag 5) ≡ ok orig
unfolding original_extents rec_data_sz mcid_page mcid_cell chain_mcid collect_array prim_x_cnt
    xtnt_type read_xtnt prim_xtnts
original = refl

not_asked : IsOriginal fallback orig
not_asked = record { map_is = original; memo = inl refl }

-- A clone that has none of the pages of the file.
abbrev clone_map : List Extent
clone_map = extent 0 perm_hole 0 ∷ extent 4 xtnt_term 0 ∷ []

found_hole : find_extent clone_map 0 ≡ some (extent 0 perm_hole 0)
unfolding find_extent
found_hole = refl

found_page : find_extent orig 0 ≡ some (extent 0 48 0)
unfolding find_extent
found_page = refl

attached : domain_vd_vol domain 0 ≡ some vol
unfolding domain_vd_vol
attached = refl

readable : IsReadable vol 3
readable = record {
  inside = omega arith;
  no_wrap = omega arith;
  delivers = ((omega arith, tt), inr (omega arith, omega arith, refl));
}

abbrev view : Bytes
view i = vol.content (25088 + i)

page_0 : PageIs domain orig 0 view
page_0 =
    on_volume (extent 0 48 0) vol found_page (omega arith) (omega arith)
      (record { not_term = omega arith; not_perm = omega arith; not_stub = omega arith }) attached
      (omega arith) readable (λ i lt. refl)

clone_page-PageIs_example :
    (p : Page) × (bitfile_page domain clone_map (some fallback) 0 (λ _. 0) ≡ ok p)
    × (p.fb ≡ some (with_map fallback orig))
    × ((i : ℕ) → i < pgsz → p.bytes i ≡ view i)
clone_page-PageIs_example =
    clone_page-PageIs domain clone_map fallback orig 0 (λ _. 0) view (extent 0 perm_hole 0)
      not_asked found_hole (inl refl) page_0
