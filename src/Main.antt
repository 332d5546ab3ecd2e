-- ===== src/Main.antt =====
-- src/main.c: the choice of the fileset that is mounted, and the context of the mount.
pub mod Choice
use advfs_fuse.Base.{
  ℕ, Bool, true, false, not, ◌&&◌, List, [], ◌∷◌, Option, none, some, ◌==◌, if◌then◌else◌, get_or,
  Result, stuck, ok, err, ◌>>=◌,
}
use advfs_fuse.Ods.{BfTag}
use advfs_fuse.Volume.{Volume}
use advfs_fuse.Domain.{AdvId, Domain}
use advfs_fuse.Extents.{max_extents}
use advfs_fuse.Dir.{Reply}
use advfs_fuse.Fileset.{fileset_tag_extents}
use advfs_fuse.Fileset.Enumerate.{BfSetId, FilesetInfo, FilesetCb, fileset_list}
use advfs_fuse.FuseOps.{FuseCtx}
use advfs_fuse.FuseOps.Path.{c_str, is_equal}

-- `first_fileset_t` but for `target_name`, which the enumeration does not change.
pub record FirstFileset : Type 0 where
  pub info : FilesetInfo
  pub found : Bool

-- name[0] == '\0'
unfoldable pub nameless : FilesetInfo → Bool
nameless info = get_or info.name 0 0 == 0

-- The tests of capture_first_fileset with a target name.
unfoldable pub capture_named : List ℕ → FilesetCb FirstFileset
unfolding c_str is_equal
capture_named name info fs =
    if is_equal (c_str info.name) name
    then record { stop = true; user = record { info = info; found = true } }
    else record { stop = false; user = fs }

-- The tests of capture_first_fileset without one.
unfoldable pub capture_default : FilesetCb FirstFileset
unfolding nameless
capture_default info fs =
    if not (info.clone_id == 0) && not fs.found
    then record { stop = false; user = if nameless fs.info then record fs { info = info } else fs }
    else record { stop = true; user = record { info = info; found = true } }

-- capture_first_fileset; `none` is a `target_name` that is NULL.
unfoldable pub capture_first_fileset : Option (List ℕ) → FilesetCb FirstFileset
unfolding capture_named capture_default
capture_first_fileset none = capture_default
capture_first_fileset (some name) = capture_named name

abbrev no_tag : BfTag
no_tag = record { num = 0; seq = 0 }

abbrev pub no_info : FilesetInfo
no_info = record {
  name = [];
  dir_tag = no_tag;
  set_id = record { domain_id = record { id_sec = 0; id_usec = 0 }; dir_tag = no_tag };
  state = 0;
  fs_dev = 0;
  clone_id = 0;
  clone_cnt = 0;
  orig_set_tag = no_tag;
  next_clone_set_tag = no_tag;
}

-- `first` after its memset().
abbrev pub first_start : FirstFileset
first_start = record { info = no_info; found = false }

-- What main() makes of the enumeration: `none` where it exits with "not found".
unfoldable pub picked : Result FirstFileset → Result (Option FilesetInfo)
unfolding nameless
picked stuck = stuck
picked (err e) = ok none
picked (ok fs) = ok (if nameless fs.info then none else some fs.info)

-- Step 2 of main()
unfoldable pub pick_fileset : Volume → Domain → Option (List ℕ) → Result (Option FilesetInfo)
unfolding fileset_list capture_first_fileset picked
pick_fileset vol domain target =
    picked (fileset_list (capture_first_fileset target) vol domain first_start)

-- Step 3 of main(): the context of the mount.
unfoldable pub mount_ctx : Volume → Domain → FilesetInfo → Result FuseCtx
unfolding fileset_tag_extents
mount_ctx vol domain info = fileset_tag_extents vol domain info.dir_tag max_extents >>= λ extents.
    ok (record {
      vol = some vol;
      domain = some domain;
      fs_tag = info.dir_tag;
      fs_tag_extents = extents;
      is_clone = not (info.clone_id == 0);
      orig_set_tag = info.orig_set_tag;
    })
