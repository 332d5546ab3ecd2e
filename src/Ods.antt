-- ===== src/Ods.antt =====
-- src/ods.h: the on-disk structures. A buffer is a function from byte offsets to bytes, and a C
-- struct laid over it is read field by field at the struct's offsets, little-endian.
use advfs_fuse.Base.{ℕ, ◌+◌, ◌-◌, ◌*◌, ◌/◌, ◌%◌, Bool, ◌||◌, ◌==◌, ltb, if◌then◌else◌}

abbrev pub u16_mod : ℕ
u16_mod = 0x1_0000

abbrev pub u32_mod : ℕ
u32_mod = 0x1_0000_0000

abbrev pub u64_mod : ℕ
u64_mod = 0x1_0000_0000_0000_0000

abbrev pub uint32_max : ℕ
uint32_max = 0xffff_ffff

abbrev pub pgsz : ℕ
pgsz = 8192

abbrev pub blksz : ℕ
blksz = 512

abbrev pub blks_per_pg : ℕ
blks_per_pg = 16

abbrev pub reserved_blks : ℕ
reserved_blks = 32

abbrev pub first_valid_version : ℕ
first_valid_version = 3

abbrev pub last_valid_version : ℕ
last_valid_version = 4

-- Record types.
abbrev pub bsr_nil : ℕ
bsr_nil = 0

abbrev pub bsr_xtnts : ℕ
bsr_xtnts = 1

abbrev pub bsr_xtra_xtnts : ℕ
bsr_xtra_xtnts = 5

abbrev pub bsr_shadow_xtnts : ℕ
bsr_shadow_xtnts = 6

-- Extent descriptor terminators, (uint32_t)-1 and (uint32_t)-2.
abbrev pub xtnt_term : ℕ
xtnt_term = 0xffff_ffff

abbrev pub perm_hole : ℕ
perm_hole = 0xffff_fffe

abbrev pub bsxmt_stripe : ℕ
bsxmt_stripe = 2

-- Bytes of a record header, of the record area of an mcell, and cells on a BMT page.
abbrev pub rec_hdr_sz : ℕ
rec_hdr_sz = 4

abbrev pub bsc_r_sz : ℕ
bsc_r_sz = 268

abbrev pub bspg_cells : ℕ
bspg_cells = 28

-- Descriptors that each kind of extent record has room for, and the size of BSR_XTNTS.
abbrev pub bmt_xtnts : ℕ
bmt_xtnts = 2

abbrev pub bmt_xtra_xtnts : ℕ
bmt_xtra_xtnts = 32

abbrev pub bmt_shadow_xtnts : ℕ
bmt_shadow_xtnts = 31

abbrev pub xtnt_rec_sz : ℕ
xtnt_rec_sz = 76

abbrev pub Bytes : Type 0
Bytes = ℕ → ℕ

-- `b + off`, pointer arithmetic on a buffer.
abbrev pub advance : Bytes → ℕ → Bytes
advance b off = λ i. b (off + i)

abbrev pub read_u16 : Bytes → ℕ → ℕ
read_u16 b off = b off + 0x100 * b (off + 1)

abbrev pub read_u32 : Bytes → ℕ → ℕ
read_u32 b off = b off + 0x100 * b (off + 1) + 0x1_0000 * b (off + 2) + 0x100_0000 * b (off + 3)

-- The mcell number of a raw mcell id (low 5 bits), and its BMT page (the 27 bits above).
unfoldable pub mcid_cell : ℕ → ℕ
mcid_cell raw = raw % 32

unfoldable pub mcid_page : ℕ → ℕ
mcid_page raw = raw / 32 % 0x800_0000

unfoldable pub mcid_make : ℕ → ℕ → ℕ
mcid_make pg cl = pg % 0x800_0000 * 32 + cl % 32

-- The bit fields of a raw record header.
unfoldable pub rec_bcnt : ℕ → ℕ
rec_bcnt raw = raw % 0x1_0000

unfoldable pub rec_type : ℕ → ℕ
rec_type raw = raw / 0x1_0000 % 0x100

-- ((bcnt) + 3u) & ~3u
unfoldable pub rec_next_off : ℕ → ℕ
rec_next_off bcnt = (bcnt + 3) / 4 * 4

unfoldable pub rec_data_sz : ℕ → ℕ
unfolding rec_bcnt
rec_data_sz raw = if ltb rec_hdr_sz (rec_bcnt raw) then rec_bcnt raw - rec_hdr_sz else 0

pub record BfTag : Type 0 where
  pub num : ℕ
  pub seq : ℕ

pub record Mcell : Type 0 where
  pub next_mcid : ℕ
  pub next_vd_index : ℕ
  pub link_segment : ℕ
  pub tag : BfTag
  pub bf_set_tag : BfTag
  pub records : Bytes

abbrev pub read_tag : Bytes → ℕ → BfTag
read_tag b off = record { num = read_u32 b off; seq = read_u32 b (off + 4) }

-- The 292 bytes of `adv_mcell_t`.
unfoldable pub read_mcell : Bytes → Mcell
read_mcell b = record {
  next_mcid = read_u32 b 0;
  next_vd_index = read_u16 b 4;
  link_segment = read_u16 b 6;
  tag = read_tag b 8;
  bf_set_tag = read_tag b 16;
  records = advance b 24;
}

-- `adv_bmt_pg_t` is the page itself: a 16-byte header and 28 cells of 292 bytes.
abbrev pub BmtPage : Type 0
BmtPage = Bytes

unfoldable pub bmt_pg_version : BmtPage → ℕ
bmt_pg_version pg = read_u32 pg 12 / 0x800_0000 % 32

unfoldable pub bmt_pg_mcell : BmtPage → ℕ → Mcell
unfolding read_mcell
bmt_pg_mcell pg i = read_mcell (advance pg (16 + 292 * i))

-- `adv_xtnt_t`: a starting bitfile page and a starting disk block.
pub record Xtnt : Type 0 where
  pub bs_page : ℕ
  pub vd_blk : ℕ

unfoldable pub read_xtnt : Bytes → ℕ → Xtnt
read_xtnt b i = record { bs_page = read_u32 b (8 * i); vd_blk = read_u32 b (8 * i + 4) }

-- A descriptor that maps no block: a sparse hole, the end of a map, or a permanent hole.
abbrev pub is_hole : ℕ → Bool
is_hole blk = blk == xtnt_term || blk == perm_hole

-- `adv_xtnt_rec_t`, `adv_xtra_xtnt_rec_t` and `adv_shadow_xtnt_rec_t`: the fields that are read.
abbrev pub XtntRec : Type 0
XtntRec = Bytes

unfoldable pub xtnt_type : XtntRec → ℕ
xtnt_type r = read_u32 r 0

unfoldable pub chain_vd_index : XtntRec → ℕ
chain_vd_index r = read_u32 r 4

unfoldable pub chain_mcid : XtntRec → ℕ
chain_mcid r = read_u32 r 8

unfoldable pub segment_size : XtntRec → ℕ
segment_size r = read_u32 r 24

unfoldable pub prim_x_cnt : XtntRec → ℕ
prim_x_cnt r = read_u16 r 58

unfoldable pub prim_xtnts : XtntRec → Bytes
prim_xtnts r = advance r 60

unfoldable pub xtra_x_cnt : Bytes → ℕ
xtra_x_cnt r = read_u16 r 2

unfoldable pub xtra_xtnts : Bytes → Bytes
xtra_xtnts r = advance r 4

unfoldable pub shadow_x_cnt : Bytes → ℕ
shadow_x_cnt r = read_u16 r 6

unfoldable pub shadow_xtnts : Bytes → Bytes
shadow_xtnts r = advance r 8

abbrev pub read_u64 : Bytes → ℕ → ℕ
read_u64 b off = read_u32 b off + u32_mod * read_u32 b (off + 4)

-- `adv_tag_dir_pg_t`: 1022 entries of 8 bytes (`adv_tag_map_t`, its in-use arm) behind the header.
abbrev pub TagDirPage : Type 0
TagDirPage = Bytes

abbrev pub tags_per_pg : ℕ
tags_per_pg = 1022

unfoldable pub tmap_seq_no : TagDirPage → ℕ → ℕ
tmap_seq_no pg i = read_u16 pg (16 + 8 * i)

unfoldable pub tmap_vd_index : TagDirPage → ℕ → ℕ
tmap_vd_index pg i = read_u16 pg (16 + 8 * i + 2)

unfoldable pub tmap_mcid : TagDirPage → ℕ → ℕ
tmap_mcid pg i = read_u32 pg (16 + 8 * i + 4)

-- Whether the high bit of the sequence number is set.
unfoldable pub tmap_in_use : TagDirPage → ℕ → Bool
unfolding tmap_seq_no
tmap_in_use pg i = tmap_seq_no pg i / 0x8000 % 2 == 1

-- `adv_fs_stat_t`, the fields that reading a file uses.
abbrev pub FsStat : Type 0
FsStat = Bytes

abbrev pub fs_stat_sz : ℕ
fs_stat_sz = 88

unfoldable pub st_size : FsStat → ℕ
st_size st = read_u64 st 24

unfoldable pub frag_slot : FsStat → ℕ
frag_slot st = read_u32 st 68

unfoldable pub frag_type : FsStat → ℕ
frag_type st = read_u32 st 72

unfoldable pub frag_page_offset : FsStat → ℕ
frag_page_offset st = read_u32 st 80

abbrev pub bmtr_fs_stat : ℕ
bmtr_fs_stat = 255

abbrev pub bmtr_fs_data : ℕ
bmtr_fs_data = 254

-- Further fields of `adv_fs_stat_t`.
unfoldable pub st_ino : FsStat → BfTag
st_ino st = read_tag st 0

unfoldable pub st_mode : FsStat → ℕ
st_mode st = read_u32 st 8

unfoldable pub st_nlink : FsStat → ℕ
st_nlink st = read_u32 st 76
