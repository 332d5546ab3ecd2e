-- ===== src/Volume.antt =====
-- src/volume.c: reads from a vdisk file at a partition offset, and the opening of a volume.
pub mod Loop
pub mod Disklabel
pub mod Read
use advfs_fuse.Base.{
  ℕ, ◌+◌, ◌-◌, ◌*◌, ◌/◌, ◌%◌, Bool, ◌&&◌, ◌||◌, true, false, not, List, [], ◌∷◌, Option, none, some,
  ltb, leb, ◌==◌, if◌then◌else◌, Result, ok, err, stuck, Errno, einval, eio, eintr, enodata,
  enotsup, ◌>>=◌,
}
use advfs_fuse.Ods.{
  Bytes, read_u32, u64_mod, pgsz, blksz, blks_per_pg, reserved_blks, first_valid_version,
  last_valid_version,
}
use advfs_fuse.Util.{page_to_offset, block_to_offset}

-- What one pread() call answers: a count of bytes, EINTR, or another error.
pub data Answer : Type 0 where
  got : ℕ → Answer
  interrupted : Answer
  failed : Errno → Answer

-- `struct advfs_volume`, with the file behind `fd`: its bytes, and the system's answers to the
-- pread() calls that one read of `len` bytes from an absolute offset makes.
pub record Volume : Type 0 where
  pub content : Bytes
  pub answers : ℕ → ℕ → List Answer
  pub part_offset : ℕ
  pub size_bytes : ℕ
  pub page_count : ℕ

-- pread() stores `n` bytes of the file at buf + total.
unfoldable pub store_bytes : Bytes → ℕ → ℕ → Bytes → ℕ → Bytes
store_bytes buf total n content abs i =
    if leb total i && ltb i (total + n) then content (abs + i) else buf i

-- The loop of vol_pread; `stuck` if the answers given run out.
unfoldable pub pread_loop : List Answer → Bytes → ℕ → ℕ → ℕ → Bytes → Result Bytes
unfolding store_bytes
pread_loop [] content len abs total buf = if ltb total len then stuck else ok buf
pread_loop (got n ∷ rest) content len abs total buf =
    let later = pread_loop rest content len abs (total + n) (store_bytes buf total n content abs) in
    if ltb total len then (if n == 0 then err eio else later) else ok buf
pread_loop (interrupted ∷ rest) content len abs total buf =
    let later = pread_loop rest content len abs total buf in if ltb total len then later else ok buf
pread_loop (failed e ∷ rest) content len abs total buf = if ltb total len then err e else ok buf

-- vol_pread
unfoldable pub vol_pread : Volume → Bytes → ℕ → ℕ → Result Bytes
unfolding pread_loop
vol_pread vol buf len offset =
    let abs = (vol.part_offset + offset) % u64_mod in
    if ltb vol.size_bytes len || ltb (vol.size_bytes - len) offset
    then err einval
    else pread_loop (vol.answers len abs) vol.content len abs 0 buf

-- advfs_volume_read_page; `none` is a NULL volume.
unfoldable pub read_page : Option Volume → ℕ → Bytes → Result Bytes
unfolding vol_pread page_to_offset
read_page none page_num buf = err einval
read_page (some vol) page_num buf = vol_pread vol buf pgsz (page_to_offset page_num)

-- advfs_volume_read_block
unfoldable pub read_block : Option Volume → ℕ → Bytes → Result Bytes
unfolding vol_pread block_to_offset
read_block none block_num buf = err einval
read_block (some vol) block_num buf = vol_pread vol buf blksz (block_to_offset block_num)

-- A stack buffer before it is written.
abbrev pub fresh : Bytes
fresh = λ _. 0

-- The version check of advfs_volume_detect_version, on the page header.
unfoldable pub header_version : Bytes → Result ℕ
header_version hdr =
    let version = read_u32 hdr 12 / 0x800_0000 % 32 in
    if ltb version first_valid_version || ltb last_valid_version version
    then err enotsup
    else ok version

-- advfs_volume_detect_version
unfoldable pub detect_version : Option Volume → Result ℕ
unfolding vol_pread page_to_offset header_version
detect_version none = err einval
detect_version (some vol) =
    vol_pread vol fresh 16 (page_to_offset (reserved_blks / blks_per_pg)) >>= header_version

-- What the system reports of a file that advfs_volume_open_at opens.
pub record OpenFile : Type 0 where
  pub content : Bytes
  pub answers : ℕ → ℕ → List Answer
  pub file_size : ℕ
  pub is_file_or_device : Bool
  pub magic_read : Answer

abbrev pub advfs_magic : ℕ
advfs_magic = 0x1108_1953

-- 16 blocks, then 1372 bytes.
abbrev pub magic_abs_offset : ℕ
magic_abs_offset = 9564

-- The read of the magic number: four bytes in one call, or an error.
unfoldable pub check_magic : Answer → ℕ → Result (Unit {0})
check_magic (got n) magic =
    if not (n == 4) then err eio else if magic == advfs_magic then ok tt else err enodata
check_magic interrupted magic = err eintr
check_magic (failed e) magic = err e

-- advfs_volume_open_at from fstat() on; `size` 0 means up to the end of the file. calloc() succeeds.
unfoldable pub open_at : OpenFile → ℕ → ℕ → Result Volume
unfolding check_magic
open_at f offset size =
    let usable =
      if ltb 0 size && ltb size (f.file_size - offset) then size else f.file_size - offset in
    if not f.is_file_or_device
    then err einval
    else if leb f.file_size offset
    then err einval
    else if ltb usable (magic_abs_offset + 4)
    then err enodata
    else check_magic f.magic_read (read_u32 f.content (offset + magic_abs_offset)) >>= λ _.
        ok (record {
          content = f.content;
          answers = f.answers;
          part_offset = offset;
          size_bytes = usable;
          page_count = usable / pgsz;
        })
