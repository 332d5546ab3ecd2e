-- ===== src/Volume/Disklabel.antt =====
-- The BSD disklabel reader of src/volume.c.
pub mod Bounds
use advfs_fuse.Base.{
  ℕ, ◌+◌, ◌-◌, ◌*◌, ◌%◌, ◌||◌, not, Option, none, some, ltb, leb, ◌==◌, if◌then◌else◌, Result, ok,
  err, Errno, einval, eio, eintr, enodata, enoent, ◌>>=◌,
}
use advfs_fuse.Ods.{Bytes, read_u16, read_u32, u64_mod}
use advfs_fuse.Volume.{Answer, got, interrupted, failed}

-- The disk image behind `path`: its bytes, whether open() fails, and what the one pread() answers.
pub record Disk : Type 0 where
  pub content : Bytes
  pub open_error : Option Errno
  pub label_read : Answer

-- `offset_out` and `size_out`
pub record Partition : Type 0 where
  pub offset : ℕ
  pub size : ℕ

abbrev pub bsd_diskmagic : ℕ
bsd_diskmagic = 0x8256_4557

abbrev pub bsd_label_offset : ℕ
bsd_label_offset = 64

abbrev pub bsd_maxpartitions : ℕ
bsd_maxpartitions = 16

-- sizeof(label)
abbrev pub label_sz : ℕ
label_sz = 404

-- The label, if pread() brings all of it.
unfoldable pub label_of : Answer → Bytes → Result Bytes
label_of (got n) label = if ltb n label_sz then err eio else ok label
label_of interrupted label = err eintr
label_of (failed e) label = err e

-- The sector size, with its default.
unfoldable pub sector_size : Bytes → ℕ
sector_size label = if read_u32 label 40 == 0 then 512 else read_u32 label 40

-- The partition table entry at `pent`.
unfoldable pub part_entry : ℕ → Bytes → ℕ → Result Partition
part_entry secsize label pent =
    if read_u32 label pent == 0
    then err enoent
    else ok (record {
      offset = read_u32 label (pent + 4) * secsize % u64_mod;
      size = read_u32 label pent * secsize % u64_mod;
    })

-- The tests on the label. The checksum is left out: a wrong one leads to a message only.
unfoldable pub find_partition : ℕ → Bytes → Result Partition
unfolding sector_size part_entry
find_partition idx label =
    if not (read_u32 label 0 == bsd_diskmagic) || not (read_u32 label 132 == bsd_diskmagic)
    then err enodata
    else if leb (read_u16 label 138) idx
    then err enoent
    else part_entry (sector_size label) label (148 + idx * 16)

-- The label behind open() and pread().
unfoldable pub opened_label : Option Errno → Answer → Bytes → Result Bytes
unfolding label_of
opened_label (some e) answer label = err e
opened_label none answer label = label_of answer label

-- advfs_volume_read_disklabel behind its NULL tests
unfoldable pub read_disklabel : Disk → ℕ → Result Partition
unfolding opened_label find_partition
read_disklabel disk letter =
    if ltb letter 97 || leb (97 + bsd_maxpartitions) letter
    then err einval
    else opened_label disk.open_error disk.label_read (λ i. disk.content (bsd_label_offset + i))
      >>= find_partition (letter - 97)
