-- ===== src/FuseOps/Ops.antt =====
-- The FUSE operations of src/fuse_ops.c on a path: getattr, readdir, open, read and readlink.
pub mod Attrs
pub mod Names
use advfs_fuse.Base.{
  ℕ, zero, suc, Bool, true, false, not, ◌||◌, ◌&&◌, ◌+◌, ◌-◌, ◌/◌, ◌%◌, List, [], ◌∷◌, Option, none,
  some, ltb, ◌==◌, if◌then◌else◌, Result, stuck, ok, err, ◌>>=◌, einval, enotdir, eisdir, erofs,
  Errno,
}
use advfs_fuse.Ods.{
  Bytes, BfTag, FsStat, st_ino, st_mode, st_nlink, st_size, read_u32, pgsz, u64_mod,
}
use advfs_fuse.Dir.{Callback, Reply}
use advfs_fuse.Filedata.Read.{FileData, filedata_read}
use advfs_fuse.FuseOps.{FuseCtx, Cache, OpRead, op_read}
use advfs_fuse.FuseOps.Path.{
  c_str, is_equal, ctx_dir_read, stat_by_tag, is_dir_mode, is_lnk_mode, resolve_path,
}

-- `struct stat` but for the times, which fill_stat copies.
pub record Stat : Type 0 where
  pub ino : ℕ
  pub mode : ℕ
  pub nlink : ℕ
  pub uid : ℕ
  pub gid : ℕ
  pub size : ℕ
  pub blksize : ℕ
  pub blocks : ℕ

-- fill_stat
unfoldable pub fill_stat : FsStat → Stat
unfolding st_ino st_mode st_nlink st_size
fill_stat fst = record {
  ino = (st_ino fst).num;
  mode = st_mode fst;
  nlink = if st_nlink fst == 0 then 1 else st_nlink fst;
  uid = read_u32 fst 16;
  gid = read_u32 fst 20;
  size = st_size fst;
  blksize = pgsz;
  blocks = (st_size fst + 511) % u64_mod / 512;
}

-- probe_cb
abbrev pub probe_cb : Callback Bool
probe_cb name tag has_entry = record { stop = true; user = true }

-- The answer of probe_is_dir: an error counts as no entry.
unfoldable pub has_entry_of : Result Bool → Result Bool
has_entry_of stuck = stuck
has_entry_of (err e) = ok false
has_entry_of (ok has_entry) = ok has_entry

-- probe_is_dir
unfoldable pub probe_is_dir : FuseCtx → BfTag → Result Bool
unfolding ctx_dir_read has_entry_of
probe_is_dir ctx tag = has_entry_of (ctx_dir_read ctx tag probe_cb false)

-- The attributes made up for a file without FS_STAT: S_IFDIR | 0555, or S_IFREG | 0444.
unfoldable pub made_up : BfTag → Bool → Stat
made_up tag is_dir = record {
  ino = tag.num;
  mode = if is_dir then 0x416d else 0x8124;
  nlink = if is_dir then 2 else 1;
  uid = 0;
  gid = 0;
  size = 0;
  blksize = pgsz;
  blocks = 0;
}

unfoldable pub made_up_attrs : FuseCtx → BfTag → Result Stat
unfolding probe_is_dir made_up
made_up_attrs ctx tag =
    if tag.num == 2
    then ok (made_up tag true)
    else probe_is_dir ctx tag >>= λ is_dir. ok (made_up tag is_dir)

-- advfs_op_getattr behind the FS_STAT record, or the error of its read.
unfoldable pub attrs_of : FuseCtx → BfTag → Result FsStat → Result Stat
unfolding fill_stat made_up_attrs
attrs_of ctx tag stuck = stuck
attrs_of ctx tag (ok fst) = ok (fill_stat fst)
attrs_of ctx tag (err e) = made_up_attrs ctx tag

-- advfs_op_getattr
unfoldable pub op_getattr : FuseCtx → List ℕ → Result Stat
unfolding resolve_path stat_by_tag attrs_of
op_getattr ctx path = resolve_path ctx path >>= λ tag. attrs_of ctx tag (stat_by_tag ctx tag)

-- The test `err == 0 && S_ISDIR(st_mode)`: a record that cannot be read tells nothing.
unfoldable pub known_dir : Result FsStat → Result (Option Bool)
unfolding st_mode is_dir_mode
known_dir stuck = stuck
known_dir (err e) = ok none
known_dir (ok fst) = ok (some (is_dir_mode (st_mode fst)))

-- FUSE's filler, with the buffer it fills: what it does is not the program's.
pub record Fill (B : Type 0) : Type 0 where
  pub is_full : Bool
  pub buf : B

-- `readdir_state_t`
pub record ReaddirState (B : Type 0) : Type 0 where
  pub buf : B
  pub full : Bool
  pub saw_dot : Bool
  pub saw_dotdot : Bool

abbrev pub dot : List ℕ
dot = 46 ∷ []

abbrev pub dotdot : List ℕ
dotdot = 46 ∷ 46 ∷ []

module _ {B : Type 0} (filler : B → List ℕ → Fill B) where
  -- The flags that a name sets.
  unfoldable pub note_dots : List ℕ → ReaddirState B → ReaddirState B
  unfolding is_equal
  note_dots name rs =
      if is_equal name dot
      then record rs { saw_dot = true }
      else if is_equal name dotdot
      then record rs { saw_dotdot = true }
      else rs

  -- readdir_cb
  unfoldable pub readdir_cb : Callback (ReaddirState B)
  unfolding c_str note_dots
  readdir_cb entry tag rs =
      let rs' = note_dots (c_str entry) rs in
      let f = filler rs.buf (c_str entry) in
      if f.is_full
      then record { stop = true; user = record rs' { buf = f.buf; full = true } }
      else record { stop = false; user = record rs' { buf = f.buf } }

  -- fill_one for "." and "..", unless the buffer was full or the name was there.
  unfoldable pub supply : Bool → List ℕ → ReaddirState B → ReaddirState B
  supply saw name rs =
      if not rs.full && not saw then record rs { buf = (filler rs.buf name).buf } else rs

  unfoldable pub with_dots : ReaddirState B → ReaddirState B
  unfolding supply
  with_dots rs = supply rs.saw_dotdot dotdot (supply rs.saw_dot dot rs)

  -- The walk of advfs_op_readdir over a directory.
  unfoldable pub fill_dir : FuseCtx → BfTag → B → Result B
  unfolding ctx_dir_read readdir_cb with_dots
  fill_dir ctx tag buf =
      ctx_dir_read ctx tag readdir_cb
        (record { buf = buf; full = false; saw_dot = false; saw_dotdot = false })
      >>= λ rs. ok (with_dots rs).buf

  -- What advfs_op_readdir does once it knows what the tag is.
  unfoldable pub fill_known : FuseCtx → BfTag → B → Option Bool → Result B
  unfolding fill_dir
  fill_known ctx tag buf (some false) = err enotdir
  fill_known ctx tag buf (some true) = fill_dir ctx tag buf
  fill_known ctx tag buf none = fill_dir ctx tag buf

  -- advfs_op_readdir
  unfoldable pub op_readdir : FuseCtx → List ℕ → B → Result B
  unfolding resolve_path stat_by_tag known_dir fill_known
  op_readdir ctx path buf =
      resolve_path ctx path >>= λ tag. known_dir (stat_by_tag ctx tag) >>= fill_known ctx tag buf

-- The handle that advfs_op_open stores.
unfoldable pub open_known : BfTag → Option Bool → Result ℕ
open_known tag (some true) = err eisdir
open_known tag (some false) = ok tag.num
open_known tag none = ok tag.num

-- advfs_op_open; the access mode is the low two bits of the flags, and O_RDONLY is 0.
unfoldable pub op_open : FuseCtx → List ℕ → ℕ → Result ℕ
unfolding resolve_path stat_by_tag known_dir open_known
op_open ctx path flags =
    if not (flags % 4 == 0)
    then err erofs
    else resolve_path ctx path >>= λ tag. known_dir (stat_by_tag ctx tag) >>= open_known tag

-- The file that advfs_op_read reads: the handle's, or the path's where there is no handle.
unfoldable pub read_tag_of : FuseCtx → List ℕ → ℕ → Result BfTag
unfolding resolve_path
read_tag_of ctx path fh =
    if fh == 0 then resolve_path ctx path else ok (record { num = fh % 0x1_0000_0000; seq = 0 })

-- advfs_op_read on a path or a handle, for an offset that is not negative.
unfoldable pub op_read_path : FuseCtx → Cache → List ℕ → ℕ → Bytes → ℕ → ℕ → Result OpRead
unfolding read_tag_of op_read
op_read_path ctx cache path fh buf size offset =
    read_tag_of ctx path fh >>= λ tag. op_read ctx cache tag buf size offset

-- The copy of a link's target: as much as there is room for, and a 0.
unfoldable pub copy_target : FileData → Bytes → ℕ → Bytes
copy_target contents buf size i =
    let n = if ltb contents.size (size - 1) then contents.size else size - 1 in
    if ltb i n then contents.buf i else if i == n then 0 else buf i

-- advfs_op_readlink
unfoldable pub op_readlink : FuseCtx → List ℕ → Bytes → ℕ → Result Bytes
unfolding resolve_path stat_by_tag st_mode is_lnk_mode filedata_read copy_target
op_readlink ctx path buf size =
    if size == 0
    then err einval
    else resolve_path ctx path >>= λ tag. stat_by_tag ctx tag >>= λ fst.
        (if is_lnk_mode (st_mode fst)
          then (filedata_read ctx.vol ctx.domain ctx.fs_tag_extents ctx.fs_tag tag none
              >>= λ contents. ok (copy_target contents buf size))
          else err einval)
