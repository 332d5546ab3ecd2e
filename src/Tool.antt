-- ===== src/Tool.antt =====
-- src/advfs_tool.c: the operations of the command line tool below its printing.
pub mod Modes
pub mod Recursive
pub mod Entries
pub mod Count
pub mod Tally
pub mod Entered
pub mod Returns
use advfs_fuse.Base.{
  ℕ, zero, suc, Bool, true, false, not, ◌&&◌, ◌||◌, ◌+◌, ◌/◌, ◌%◌, List, [], ◌∷◌, ◌++◌, Option,
  none, some, ltb, ◌==◌, if◌then◌else◌, length, Result, stuck, ok, err, ◌>>=◌, enoent, estale,
}
use advfs_fuse.Ods.{BfTag, FsStat, st_ino, st_mode, st_size}
use advfs_fuse.Volume.{Volume}
use advfs_fuse.Domain.{Domain}
use advfs_fuse.Extents.{Extent, max_extents}
use advfs_fuse.Dir.{Callback, Reply}
use advfs_fuse.Dir.Read.{dir_read_full_clone}
use advfs_fuse.Filedata.Read.{CloneCtx, filedata_stat}
use advfs_fuse.Fileset.{fileset_tag_extents}
use advfs_fuse.Fileset.Enumerate.{FilesetInfo, FilesetCb}
use advfs_fuse.FuseOps.Path.{c_str, is_equal}

-- `fs_ctx_t` but for `fs_name`, which is only printed
pub record FsCtx : Type 0 where
  pub vol : Volume
  pub domain : Domain
  pub fs_tag : BfTag
  pub tag_extents : List Extent
  pub is_clone : Bool
  pub orig_set_tag : BfTag

-- `dirent_rec_t`. The names that the directory walk passes on have at most 255 bytes, so that the
-- copy into `name` cuts none.
pub record Dirent : Type 0 where
  pub name : List ℕ
  pub tag : BfTag
  pub deleted : Bool

-- dirent_list_add; realloc() succeeds.
unfoldable pub dirent_list_add : List Dirent → List ℕ → BfTag → Bool → Reply (List Dirent)
unfolding c_str
dirent_list_add list name tag deleted = record {
  stop = false;
  user = list ++ record { name = c_str name; tag = tag; deleted = deleted } ∷ [];
}

-- collect_live_cb
unfoldable pub collect_live_cb : Callback (List Dirent)
unfolding dirent_list_add
collect_live_cb name tag list = dirent_list_add list name tag false

-- collect_deleted_cb
unfoldable pub collect_deleted_cb : Callback (List Dirent)
unfolding dirent_list_add
collect_deleted_cb name tag list = dirent_list_add list name tag true

-- The clone context of a fileset.
unfoldable pub clone_of : FsCtx → CloneCtx
clone_of fs = record { is_clone = fs.is_clone; orig_set_tag = fs.orig_set_tag }

-- read_dir_entries
unfoldable pub read_dir_entries : FsCtx → BfTag → Bool → Result (List Dirent)
unfolding dir_read_full_clone collect_live_cb collect_deleted_cb clone_of
read_dir_entries fs dir_tag include_deleted =
    dir_read_full_clone (some collect_live_cb)
      (if include_deleted then some collect_deleted_cb else none) fs.vol fs.domain fs.tag_extents
      fs.fs_tag dir_tag (some (clone_of fs)) []

-- The tests of stat_tag_checked against recycled slots.
unfoldable pub check_ino : BfTag → Bool → FsStat → Result FsStat
unfolding st_ino
check_ino tag strict st =
    let ino = st_ino st in
    if not (ino.num == 0) && not (ino.num == tag.num)
    then err estale
    else if strict && (not (ino.seq == 0) && (not (tag.seq == 0) && not (ino.seq == tag.seq)))
    then err estale
    else ok st

-- stat_tag_checked
unfoldable pub stat_tag_checked : FsCtx → BfTag → Bool → Result FsStat
unfolding filedata_stat check_ino
stat_tag_checked fs tag strict =
    filedata_stat (some fs.vol) (some fs.domain) fs.tag_extents fs.fs_tag tag
    >>= check_ino tag strict

abbrev pub max_filesets : ℕ
max_filesets = 64

-- collect_fileset_cb
unfoldable pub collect_fileset_cb : FilesetCb (List FilesetInfo)
collect_fileset_cb info sets = record {
  stop = false;
  user = if ltb (length sets) max_filesets then sets ++ info ∷ [] else sets;
}

-- fs_ctx_open
unfoldable pub fs_ctx_open : Volume → Domain → FilesetInfo → Result FsCtx
unfolding fileset_tag_extents
fs_ctx_open vol domain info = fileset_tag_extents vol domain info.dir_tag max_extents >>= λ extents.
    ok (record {
      vol = vol;
      domain = domain;
      fs_tag = info.dir_tag;
      tag_extents = extents;
      is_clone = not (info.clone_id == 0);
      orig_set_tag = info.orig_set_tag;
    })

-- The search of lookup_entry in the list of entries.
unfoldable pub find_entry : List ℕ → List Dirent → Result BfTag
unfolding is_equal
find_entry name [] = err enoent
find_entry name (e ∷ rest) = if is_equal e.name name then ok e.tag else find_entry name rest

-- lookup_entry
unfoldable pub lookup_entry : FsCtx → BfTag → List ℕ → Result BfTag
unfolding read_dir_entries find_entry
lookup_entry fs dir_tag name = read_dir_entries fs dir_tag false >>= find_entry name

-- st_mode & TOOL_S_IFMT, in units of 0010000.
unfoldable pub mode_type : ℕ → ℕ
mode_type mode = mode / 0x1000 % 16
