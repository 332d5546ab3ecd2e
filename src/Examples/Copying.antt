-- ===== src/Examples/Copying.antt =====
-- Copies from a small file.
use advfs_fuse.Base.{
  ℕ, ◌+◌, ◌*◌, ◌≤◌, ◌<◌, ◌≡◌, ◌≢◌, refl, inl, inr, List, [], ◌∷◌, none, some, arith, ok, lt→ltb,
  le→ltb, ltb, if◌then◌else◌,
}
use native.Mathlib.Decide.{dec_le, ℕ_discrete}
use advfs_fuse.Ods.{Bytes, BfTag, xtnt_term, perm_hole, pgsz}
use advfs_fuse.Volume.{got, interrupted, Volume}
use advfs_fuse.Volume.Loop.{Deliver}
use advfs_fuse.Domain.{Domain, domain_vd_vol}
use advfs_fuse.Extents.{Extent, extent}
use advfs_fuse.Extents.Lookup.{find_extent}
use advfs_fuse.Extents.ReadData.Pages.{IsReadable}
use advfs_fuse.Filedata.Copy.{
  Fallback, copy_bitfile_bytes, clone_fallback_resolve, untried, unavailable,
}
use advfs_fuse.Filedata.Copy.Once.{IsDecided, clone_fallback_resolve_once}
use advfs_fuse.Filedata.Copy.Content.{IsFilled, copy_bitfile_bytes-IsFilled}
use advfs_fuse.Filedata.Copy.Total.{copy_bitfile_bytes_total}
use advfs_fuse.Filedata.Copy.Plain.{
  PageIs, page_behind, on_volume, in_hole, beyond, IsPlain, shows, serves, copy_plain-IsFilled,
}

-- A file whose byte at offset n is n, read 5000 bytes at a time with an interruption between.
abbrev vol : Volume
vol = record {
  content = λ n. n;
  answers = λ len abs. got 5000 ∷ interrupted ∷ got 3192 ∷ [];
  part_offset = 512;
  size_bytes = 81920;
  page_count = 10;
}

abbrev domain : Domain
domain = record {
  vol = some vol;
  ods_version = 4;
  bmt_page = 2;
  rbmt_map = [];
  bmt_map = [];
  domain_id = record { id_sec = 1; id_usec = 2 };
  max_vds = 8;
  bf_set_dir_tag = record { num = 2; seq = 1 };
  mattr = none;
  vd_attr = none;
  vds = [];
}

-- Page 0 in a sparse hole, page 1 a clone's hole, pages 2 and 3 at block 32.
abbrev file_map : List Extent
file_map = extent 0 xtnt_term 0 ∷ extent 1 perm_hole 0 ∷ extent 2 32 0 ∷ extent 4 xtnt_term 0 ∷ []

abbrev zeros : Bytes
zeros = λ _. 0

abbrev view : ℕ → Bytes
view pg i = if ltb pg 2 then 0 else if ltb pg 4 then 512 + pg * pgsz + i else 0

two_reads : Deliver 8192 (got 5000 ∷ interrupted ∷ got 3192 ∷ [])
two_reads = inr (omega arith, omega arith, inr (inr (omega arith, omega arith, omega arith)))

readable : (pg : ℕ) → pg < 10 → IsReadable vol pg
readable pg lt = record {
  inside = omega arith;
  no_wrap = omega arith;
  delivers = (omega arith, two_reads);
}

attached : domain_vd_vol domain 0 ≡ some vol
unfolding domain_vd_vol
attached = refl

find_first : (pg : ℕ) → pg ≡ 0 → find_extent file_map pg ≡ some (extent 0 xtnt_term 0)
unfolding find_extent
find_first pg e = ground arith

find_second : (pg : ℕ) → pg ≡ 1 → find_extent file_map pg ≡ some (extent 1 perm_hole 0)
unfolding find_extent
find_second pg e = ground arith

find_mapped : (pg : ℕ) → 2 ≤ pg → pg < 4 → find_extent file_map pg ≡ some (extent 2 32 0)
unfolding find_extent
find_mapped pg lo hi = ground arith

find_beyond : (pg : ℕ) → 4 ≤ pg → find_extent file_map pg ≡ none
unfolding find_extent
find_beyond pg lo = ground arith

view_hole : (pg i : ℕ) → pg < 2 → view pg i ≡ 0
view_hole pg i lt = rw (lt→ltb pg 2 lt) refl

view_beyond : (pg i : ℕ) → 4 ≤ pg → view pg i ≡ 0
view_beyond pg i le = rw (le→ltb pg 2 (omega arith), le→ltb pg 4 le) refl

view_mapped :
    (pg i : ℕ) → 2 ≤ pg → pg < 4 → view pg i ≡ 512 + page_behind (extent 2 32 0) pg * pgsz + i
view_mapped pg i lo hi = rw (le→ltb pg 2 lo, lt→ltb pg 4 hi) (omega arith)

pages : (pg : ℕ) → PageIs domain file_map pg (view pg)
pages pg = elim (dec_le 4 pg) [
  | yes past ↦
      beyond (extent 0 xtnt_term 0) _ refl (find_beyond pg past) (λ i lt. view_beyond pg i past)
  | no inside ↦ elim (dec_le 2 pg) [
    | yes mapped ↦
        on_volume (extent 2 32 0) vol (find_mapped pg mapped (omega arith)) mapped (omega arith)
          (record { not_term = omega arith; not_perm = omega arith; not_stub = omega arith })
          attached (omega arith) (readable (page_behind (extent 2 32 0) pg) (omega arith))
          (λ i lt. view_mapped pg i mapped (omega arith))
    | no hole ↦ elim (ℕ_discrete pg 0) [
      | yes first ↦
          in_hole (extent 0 xtnt_term 0) (find_first pg first) (inr refl)
            (λ i lt. view_hole pg i (omega arith))
      | no second ↦
          in_hole (extent 1 perm_hole 0) (find_second pg (omega arith)) (inl (inl refl))
            (λ i lt. view_hole pg i (omega arith))
    ]
  ]
]

-- From the last 8 bytes of page 2 on.
copy_plain-IsFilled_example :
    (dst' : Bytes) × (copy_bitfile_bytes domain file_map 24568 zeros 3 100 none zeros ≡ ok dst')
    × IsFilled view 24568 zeros 3 100 dst'
copy_plain-IsFilled_example =
    copy_plain-IsFilled domain file_map view pages 24568 zeros 3 100 zeros (omega arith)

copied :
    (dst' : Bytes) × (copy_bitfile_bytes domain file_map 24568 zeros 3 100 none zeros ≡ ok dst')
copied =
    copy_bitfile_bytes_total domain file_map (IsPlain domain file_map view pages) 24668
      (serves domain file_map view pages 24668) 24568 zeros 3 100 none zeros (omega arith)
      (omega arith) refl

copy_bitfile_bytes-IsFilled_example : IsFilled view 24568 zeros 3 100 copied.0
copy_bitfile_bytes-IsFilled_example =
    copy_bitfile_bytes-IsFilled domain file_map (IsPlain domain file_map view pages) view
      (shows domain file_map view pages) 24568 zeros 3 100 none zeros copied.0 (omega arith) refl
      copied.1

-- No fileset has tag 0, so the fallback is not available.
abbrev tag : ℕ → BfTag
tag n = record { num = n; seq = 1 }

abbrev fallback : Fallback
fallback = record {
  vol = vol;
  domain = domain;
  orig_fs_tag = tag 0;
  file_tag = tag 5;
  resolved = untried;
}

abbrev decided : Fallback
decided = record fallback { resolved = unavailable }

resolves : clone_fallback_resolve fallback ≡ ok decided
unfolding clone_fallback_resolve
resolves = refl

clone_fallback_resolve_once_example :
    (clone_fallback_resolve decided ≡ ok decided)
    × (fallback.resolved ≡ untried → IsDecided fallback decided.resolved)
    × (fallback.resolved ≢ untried → decided ≡ fallback)
clone_fallback_resolve_once_example = clone_fallback_resolve_once fallback decided resolves
