-- ===== src/Tool/Recursive.antt =====
-- count_recursive of src/advfs_tool.c: the count of a directory tree.
use advfs_fuse.Base.{
  ℕ, zero, suc, Bool, true, false, ◌||◌, ◌+◌, ◌%◌, List, [], ◌∷◌, ◌++◌, ltb, ◌==◌, if◌then◌else◌,
  length, Result, stuck, ok, err, ◌>>=◌,
}
use advfs_fuse.Ods.{BfTag, FsStat, st_mode, st_size}
use advfs_fuse.FuseOps.Path.{is_equal}
use advfs_fuse.Tool.{FsCtx, Dirent, read_dir_entries, stat_tag_checked, mode_type}

-- `rcount_t`
pub record RCount : Type 0 where
  pub files : ℕ
  pub dirs : ℕ
  pub symlinks : ℕ
  pub other : ℕ
  pub errors : ℕ
  pub total_size : ℕ

-- visited_contains
unfoldable pub visited_contains : List ℕ → ℕ → Bool
visited_contains [] tag_num = false
visited_contains (t ∷ rest) tag_num = if t == tag_num then true else visited_contains rest tag_num

-- The counters and the visited set.
pub record CountState : Type 0 where
  pub cnt : RCount
  pub visited : List ℕ

-- cnt->errors++
unfoldable pub add_error : CountState → CountState
add_error st = record st { cnt = record st.cnt { errors = st.cnt.errors + 1 } }

unfoldable pub add_dir : CountState → CountState
add_dir st = record st { cnt = record st.cnt { dirs = st.cnt.dirs + 1 } }

-- A file that is no directory.
unfoldable pub count_other : FsStat → CountState → CountState
unfolding mode_type st_mode st_size
count_other fst st =
    let c = st.cnt in
    if mode_type (st_mode fst) == 8
    then record st {
      cnt = record c {
        files = c.files + 1;
        total_size = (c.total_size + st_size fst) % 0x1_0000_0000_0000_0000;
      };
    }
    else if mode_type (st_mode fst) == 10
    then record st { cnt = record c { symlinks = c.symlinks + 1 } }
    else record st { cnt = record c { other = c.other + 1 } }

-- visited_add
unfoldable pub visited_add : CountState → ℕ → CountState
visited_add st tag_num = record st { visited = st.visited ++ tag_num ∷ [] }

-- The names of a directory for itself and its parent.
unfoldable pub is_dots : List ℕ → Bool
unfolding is_equal
is_dots name = is_equal name (46 ∷ []) || is_equal name (46 ∷ 46 ∷ [])

abbrev pub tool_max_path : ℕ
tool_max_path = 4096

-- snprintf "%s/%s"
unfoldable pub sub_path : List ℕ → List ℕ → List ℕ
sub_path path name = path ++ 47 ∷ name

-- What is done with one entry whose attributes are known; `go` counts a subdirectory.
unfoldable pub count_known :
    (BfTag → List ℕ → CountState → Result CountState)
    → List ℕ
    → Dirent
    → CountState
    → Result FsStat
    → Result CountState
unfolding mode_type st_mode add_dir add_error count_other sub_path
count_known go path e st stuck = stuck
count_known go path e st (err code) = ok (add_error st)
count_known go path e st (ok fst) =
    if mode_type (st_mode fst) == 4
    then (if ltb (length (sub_path path e.name)) tool_max_path
        then go e.tag (sub_path path e.name) (add_dir st)
        else ok (add_error (add_dir st)))
    else ok (count_other fst st)

-- One entry.
unfoldable pub count_entry :
    (BfTag → List ℕ → CountState → Result CountState)
    → FsCtx
    → List ℕ
    → Dirent
    → CountState
    → Result CountState
unfolding is_dots stat_tag_checked count_known
count_entry go fs path e st =
    if is_dots e.name then ok st else count_known go path e st (stat_tag_checked fs e.tag false)

-- The loop over the entries.
unfoldable pub count_entries :
    (BfTag → List ℕ → CountState → Result CountState)
    → FsCtx
    → List ℕ
    → List Dirent
    → CountState
    → Result CountState
unfolding count_entry
count_entries go fs path [] st = ok st
count_entries go fs path (e ∷ rest) st =
    count_entry go fs path e st >>= λ st'. count_entries go fs path rest st'

-- The rest of count_recursive once the directory is read.
unfoldable pub count_list :
    (BfTag → List ℕ → CountState → Result CountState)
    → FsCtx
    → List ℕ
    → CountState
    → Result (List Dirent)
    → Result CountState
unfolding count_entries add_error
count_list go fs path st stuck = stuck
count_list go fs path st (err code) = ok (add_error st)
count_list go fs path st (ok list) = count_entries go fs path list st

-- count_recursive, with the levels that are left before `depth` exceeds 64.
unfoldable pub count_recursive : ℕ → FsCtx → BfTag → List ℕ → CountState → Result CountState
unfolding visited_contains visited_add add_error count_list read_dir_entries
count_recursive zero fs dir_tag path st = ok (add_error st)
count_recursive (suc left) fs dir_tag path st =
    if visited_contains st.visited dir_tag.num
    then ok (add_error st)
    else count_list (λ tag sub st'. count_recursive left fs tag sub st') fs path
        (visited_add st dir_tag.num) (read_dir_entries fs dir_tag false)

-- TOOL_MAX_DEPTH and the root itself.
abbrev pub tool_levels : ℕ
tool_levels = 65
