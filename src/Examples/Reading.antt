-- ===== src/Examples/Reading.antt =====
-- Reads from a small disk image.
use advfs_fuse.Base.{
  ℕ, ◌+◌, ◌≤◌, ◌<◌, ◌≡◌, refl, ◌↔◌, inl, inr, true, false, List, [], ◌∷◌, some, none, arith, ok,
}
use advfs_fuse.Ods.{Bytes, xtnt_term, perm_hole, pgsz}
use advfs_fuse.Volume.{got, interrupted, Volume, vol_pread}
use advfs_fuse.Volume.Loop.{Deliver}
use advfs_fuse.Volume.Read.{vol_pread_exact, vol_pread_delivers, abs_offset}
use advfs_fuse.Domain.{Domain, domain_vd_vol}
use advfs_fuse.Extents.{Extent, extent}
use advfs_fuse.Extents.Lookup.{find_extent}
use advfs_fuse.Extents.ReadData.{PageRead, read_data_dom}
use advfs_fuse.Extents.ReadData.Pages.{
  HoldsPage, IsReadable, IsCloneHole, read_data_dom-mapped, read_data_dom-hole,
}

-- A file whose byte at offset n is n, read 5000 bytes at a time with an interruption between.
abbrev vol : Volume
vol = record {
  content = λ n. n;
  answers = λ len abs. got 5000 ∷ interrupted ∷ got 3192 ∷ [];
  part_offset = 512;
  size_bytes = 81920;
  page_count = 10;
}

abbrev zeros : Bytes
zeros = λ _. 0

two_reads : Deliver 8192 (got 5000 ∷ interrupted ∷ got 3192 ∷ [])
two_reads = inr (omega arith, omega arith, inr (inr (omega arith, omega arith, omega arith)))

delivered : (buf' : Bytes) × (vol_pread vol zeros 8192 16384 ≡ ok buf')
delivered = vol_pread_delivers vol zeros 8192 16384 (omega arith) two_reads

vol_pread_delivers_example : (buf' : Bytes) × (vol_pread vol zeros 8192 16384 ≡ ok buf')
vol_pread_delivers_example = vol_pread_delivers vol zeros 8192 16384 (omega arith) two_reads

vol_pread_exact_example :
    (16384 + 8192 ≤ 81920)
    × ((i : ℕ) → i < 8192 → delivered.0 i ≡ vol.content (abs_offset vol 16384 + i))
    × ((i : ℕ) → 8192 ≤ i → delivered.0 i ≡ 0)
vol_pread_exact_example = vol_pread_exact vol zeros 8192 16384 delivered.0 (omega arith) delivered.1

abbrev domain : Domain
domain = record {
  vol = some vol;
  ods_version = 4;
  bmt_page = 2;
  rbmt_map = [];
  bmt_map = [];
  domain_id = record { id_sec = 1; id_usec = 2 };
  max_vds = 8;
  bf_set_dir_tag = record { num = 2; seq = 1 };
  mattr = none;
  vd_attr = none;
  vds = [];
}

-- Page 0 in a sparse hole, page 1 a clone's hole, pages 2 and 3 at block 32.
abbrev file_map : List Extent
file_map = extent 0 xtnt_term 0 ∷ extent 1 perm_hole 0 ∷ extent 2 32 0 ∷ extent 4 xtnt_term 0 ∷ []

found_mapped : find_extent file_map 3 ≡ some (extent 2 32 0)
unfolding find_extent
found_mapped = refl

found_hole : find_extent file_map 1 ≡ some (extent 1 perm_hole 0)
unfolding find_extent
found_hole = refl

attached : domain_vd_vol domain 0 ≡ some vol
unfolding domain_vd_vol
attached = refl

readable : IsReadable vol 3
readable = record {
  inside = omega arith;
  no_wrap = omega arith;
  delivers = (omega arith, two_reads);
}

read_data_dom-mapped_example :
    (b : Bytes) × (read_data_dom (some domain) file_map 3 zeros
      ≡ ok (record { bytes = b; is_perm_hole = false }))
    × HoldsPage vol 3 b
read_data_dom-mapped_example =
    read_data_dom-mapped domain file_map 3 zeros (extent 2 32 0) vol found_mapped (omega arith)
      (omega arith)
      (record { not_term = omega arith; not_perm = omega arith; not_stub = omega arith }) attached
      (omega arith) readable

read_data_dom-hole_example :
    (r : PageRead) × (read_data_dom (some domain) file_map 1 zeros ≡ ok r)
    × ((i : ℕ) → i < pgsz → r.bytes i ≡ 0)
    × ((r.is_perm_hole ≡ true) ↔ IsCloneHole (extent 1 perm_hole 0))
read_data_dom-hole_example =
    read_data_dom-hole domain file_map 1 zeros (extent 1 perm_hole 0) found_hole (inl (inl refl))
