-- ===== src/Volume/Disklabel/Bounds.antt =====
-- A volume that is opened on a partition of src/volume.c's disklabel stays inside the partition.
use native.Mathlib.Nat.{mod-eq_of_lt, mul-le-mul, le-mul_of_pos_right}
use advfs_fuse.Base.{
  ℕ, zero, suc, ◌+◌, ◌-◌, ◌*◌, ◌%◌, ◌<◌, ◌≤◌, ◌≡◌, refl, ap, ◌∙◌, inl, inr, false, Bool-cases, ◌||◌,
  ◌&&◌, not, Option, none, some, ltb, leb, ◌==◌, ltb→le, ltb→lt, leb→lt, lt→ltb, ◌/◌, if◌then◌else◌,
  ok, Errno, >>=-eq-ok, guard-eq-false, guard-eq-ok, arith,
}
use advfs_fuse.Ods.{Bytes, read_u16, read_u32, u32_mod, u64_mod, pgsz}
use advfs_fuse.Volume.{
  Answer, got, interrupted, failed, OpenFile, Volume, open_at, check_magic, magic_abs_offset,
}
use advfs_fuse.Volume.Disklabel.{
  Disk, Partition, bsd_diskmagic, bsd_maxpartitions, bsd_label_offset, label_of, sector_size,
  part_entry, find_partition, opened_label, read_disklabel,
}

-- Every byte is one.
abbrev pub AreBytes : Bytes → Type 0
AreBytes b = (i : ℕ) → b i < 256

read_u32_bound : (b : Bytes) (off : ℕ) → AreBytes b → read_u32 b off < u32_mod
read_u32_bound b off h = omega (arith, h off, h (off + 1), h (off + 2), h (off + 3))

nonzero_pos : (n : ℕ) → (n == 0) ≡ false → 0 < n
nonzero_pos zero e = cc
nonzero_pos (suc n) e = omega arith

sector_size_bounds :
    (label : Bytes) → AreBytes label → (0 < sector_size label) × (sector_size label < u32_mod)
unfolding sector_size
sector_size_bounds label h = elim (Bool-cases (read_u32 label 40 == 0)) [
  | inl e ↦ rw e (omega arith, omega arith)
  | inr e ↦ rw e (nonzero_pos (read_u32 label 40) e, read_u32_bound label 40 h)
]

-- A number of sectors is no less in bytes, which 64 bits hold.
sectors_in_bytes :
    (n s : ℕ) → n < u32_mod → 0 < s → s < u32_mod → (n * s % u64_mod ≡ n * s) × (n ≤ n * s)
sectors_in_bytes n s hn ps hs = (
  (let most : n * s ≤ 0xffff_ffff * 0xffff_ffff =
        mul-le-mul {n₂ = 0xffff_ffff} {m₂ = 0xffff_ffff} (omega arith) (omega arith) in
      mod-eq_of_lt (omega arith)),
  le-mul_of_pos_right n ps,
)

label_is :
    (open_error : Option Errno) (answer : Answer) (whole label : Bytes)
    → opened_label open_error answer whole ≡ ok label
    → whole ≡ label
unfolding opened_label label_of
label_is (some e) answer whole label h = cc
label_is none interrupted whole label h = cc
label_is none (failed e) whole label h = cc
label_is none (got n) whole label h = let k = guard-eq-ok _ _ (ok whole) h in cc

-- What the partition is of the entry at `pent` of a label: its offset and size are the entry's
-- numbers of sectors in bytes, and the size is not 0.
abbrev pub Sized : Partition → Bytes → ℕ → Type 0
Sized p label pent =
    (p.size ≡ read_u32 label pent * sector_size label)
    × (p.offset ≡ read_u32 label (pent + 4) * sector_size label)
    × (0 < p.size)

abbrev pub label_bytes : Disk → Bytes
label_bytes disk i = disk.content (bsd_label_offset + i)

ok_is : {p q : Partition} → ok p ≡ ok q → p ≡ q
ok_is e = cc

part_entry-Sized :
    (label : Bytes) (pent : ℕ) (p : Partition)
    → AreBytes label
    → part_entry (sector_size label) label pent ≡ ok p
    → Sized p label pent
unfolding part_entry
part_entry-Sized label pent p h e =
    let (some_sectors, e') = guard-eq-false _ (read_u32 label pent == 0) _ e in
    let (ps, bound) = sector_size_bounds label h in
    let size_is = sectors_in_bytes (read_u32 label pent) _ (read_u32_bound label pent h) ps bound in
    let offset_is =
      sectors_in_bytes (read_u32 label (pent + 4)) _ (read_u32_bound label (pent + 4) h) ps bound in
    let p_is = ok_is e' in
    rw (← p_is) (
      size_is.0,
      offset_is.0,
      omega (arith, size_is.0, size_is.1, nonzero_pos (read_u32 label pent) some_sectors),
    )

find_partition-Sized :
    (idx : ℕ) (label : Bytes) (p : Partition)
    → AreBytes label
    → find_partition idx label ≡ ok p
    → Sized p label (148 + idx * 16)
unfolding find_partition
find_partition-Sized idx label p h e =
    let (magics, e1) =
      guard-eq-false _
        (not (read_u32 label 0 == bsd_diskmagic) || not (read_u32 label 132 == bsd_diskmagic)) _
        e in
    let (in_table, e2) = guard-eq-false _ (leb (read_u16 label 138) idx) _ e1 in
    part_entry-Sized label (148 + idx * 16) p h e2

read_disklabel-Sized :
    (disk : Disk) (letter : ℕ) (p : Partition)
    → AreBytes disk.content
    → read_disklabel disk letter ≡ ok p
    → Sized p (label_bytes disk) (148 + (letter - 97) * 16)
unfolding read_disklabel
read_disklabel-Sized disk letter p h e =
    let (label, found, opened) =
      >>=-eq-ok (find_partition (letter - 97))
        (opened_label disk.open_error disk.label_read (label_bytes disk))
        (guard-eq-false _ (ltb letter 97 || leb (97 + bsd_maxpartitions) letter) _ e).1 in
    let label_eq = label_is disk.open_error disk.label_read (label_bytes disk) label opened in
    find_partition-Sized (letter - 97) (label_bytes disk) p (λ i. h (bsd_label_offset + i))
      (ap (find_partition (letter - 97)) label_eq ∙ found)

vol_is : {v w : Volume} → ok v ≡ ok w → v ≡ w
vol_is e = cc

-- The bytes that advfs_volume_open_at leaves a volume.
abbrev usable : OpenFile → ℕ → ℕ → ℕ
usable f offset size =
    if ltb 0 size && ltb size (f.file_size - offset) then size else f.file_size - offset

usable_bounds :
    (f : OpenFile) (offset size : ℕ)
    → 0 < size
    → leb f.file_size offset ≡ false
    → (usable f offset size ≤ size) × (offset + usable f offset size ≤ f.file_size)
usable_bounds f offset size pos inside =
    let before = leb→lt f.file_size offset inside in
    elim (Bool-cases (ltb size (f.file_size - offset))) [
      | inl e ↦
          let fits = ltb→lt size (f.file_size - offset) e in
          rw (lt→ltb 0 size pos, e) (omega arith, omega arith)
      | inr e ↦
          let behind = ltb→le size (f.file_size - offset) e in
          rw (lt→ltb 0 size pos, e) (behind, omega arith)
    ]

-- A volume that is opened with a size other than 0.
open_at_lem :
    (f : OpenFile) (offset size : ℕ) (vol : Volume)
    → 0 < size
    → open_at f offset size ≡ ok vol
    → (vol.part_offset ≡ offset)
      × (vol.size_bytes ≤ size)
      × (vol.part_offset + vol.size_bytes ≤ f.file_size)
unfolding open_at
open_at_lem f offset size vol pos e =
    let (file, e1) = guard-eq-false _ (not f.is_file_or_device) _ e in
    let (inside, e2) = guard-eq-false _ (leb f.file_size offset) _ e1 in
    let (room, e3) = guard-eq-false _ (ltb (usable f offset size) (magic_abs_offset + 4)) _ e2 in
    let v : Volume = record {
      content = f.content;
      answers = f.answers;
      part_offset = offset;
      size_bytes = usable f offset size;
      page_count = usable f offset size / pgsz;
    } in
    let (u, is_vol, magic) =
      >>=-eq-ok (λ _. ok v)
        (check_magic f.magic_read (read_u32 f.content (offset + magic_abs_offset))) e3 in
    let bounds = usable_bounds f offset size pos inside in
    rw (← vol_is is_vol) (refl, bounds.0, bounds.1)

-- On an image of bytes, a partition that advfs_volume_read_disklabel finds is not empty, and its
-- offset and size are its numbers of sectors times the sector size, without a wrap at 64 bits. So
-- a volume that advfs_volume_open_at opens there, in whatever file, starts at the partition's offset, is no
-- larger than the partition and ends within the file; a partition is never taken for the
-- size 0 that means "to the end of the file".
pub open_at_in_partition :
    (disk : Disk) (letter : ℕ) (p : Partition) (f : OpenFile) (vol : Volume)
    → AreBytes disk.content
    → read_disklabel disk letter ≡ ok p
    → open_at f p.offset p.size ≡ ok vol
    → Sized p (label_bytes disk) (148 + (letter - 97) * 16)
      × (vol.part_offset ≡ p.offset)
      × (vol.size_bytes ≤ p.size)
      × (vol.part_offset + vol.size_bytes ≤ f.file_size)
open_at_in_partition disk letter p f vol bytes found opened =
    let sized = read_disklabel-Sized disk letter p bytes found in
    let opens = open_at_lem f p.offset p.size vol sized.2 opened in
    (sized, opens.0, opens.1, opens.2)
