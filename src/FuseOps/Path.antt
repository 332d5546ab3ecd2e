-- ===== src/FuseOps/Path.antt =====
-- The resolution of paths in src/fuse_ops.c.
pub mod Words
pub mod Lookup
use advfs_fuse.Base.{
  ℕ, zero, suc, Bool, true, false, ◌&&◌, List, [], ◌∷◌, Option, none, some, ltb, leb, ◌==◌, ◌/◌,
  ◌%◌, if◌then◌else◌, length, Result, stuck, ok, err, ◌>>=◌, einval, enoent, enametoolong, enotdir,
}
use advfs_fuse.Ods.{BfTag, FsStat, st_mode}
use advfs_fuse.Volume.{Volume}
use advfs_fuse.Domain.{Domain}
use advfs_fuse.Extents.{Extent}
use advfs_fuse.Dir.{Callback, Reply}
use advfs_fuse.Dir.Read.{dir_read}
use advfs_fuse.Filedata.Read.{filedata_stat}
use advfs_fuse.FuseOps.{FuseCtx}

-- The C string that a buffer holds: its bytes before the first 0.
unfoldable pub c_str : List ℕ → List ℕ
c_str [] = []
c_str (c ∷ rest) = if c == 0 then [] else c ∷ c_str rest

-- strcmp(a, b) == 0, on two C strings.
unfoldable pub is_equal : List ℕ → List ℕ → Bool
is_equal [] [] = true
is_equal [] (b ∷ bs) = false
is_equal (a ∷ as') [] = false
is_equal (a ∷ as') (b ∷ bs) = a == b && is_equal as' bs

-- `lookup_state_t` but for the name: the tag of the entry found.
abbrev pub LookupState : Type 0
LookupState = Option BfTag

-- lookup_cb
unfoldable pub lookup_cb : List ℕ → Callback LookupState
unfolding c_str is_equal
lookup_cb name entry tag ls =
    if is_equal (c_str entry) name
    then record { stop = true; user = some tag }
    else record { stop = false; user = ls }

-- The answer of resolve_component once the directory is read.
unfoldable pub found_or_enoent : LookupState → Result BfTag
found_or_enoent none = err enoent
found_or_enoent (some tag) = ok tag

-- advfs_dir_read; a NULL volume or domain is refused.
unfoldable pub dir_read_at :
    {U : Type 0}
    → Option Volume
    → Option Domain
    → List Extent
    → BfTag
    → BfTag
    → Callback U
    → U
    → Result U
unfolding dir_read
dir_read_at none domain fs_tag_extents fs_tag dir_tag cb user = err einval
dir_read_at (some vol) none fs_tag_extents fs_tag dir_tag cb user = err einval
dir_read_at (some vol) (some domain) fs_tag_extents fs_tag dir_tag cb user =
    dir_read vol domain fs_tag_extents fs_tag dir_tag cb user

-- advfs_dir_read on the context.
unfoldable pub ctx_dir_read : {U : Type 0} → FuseCtx → BfTag → Callback U → U → Result U
unfolding dir_read_at
ctx_dir_read ctx dir_tag cb user =
    dir_read_at ctx.vol ctx.domain ctx.fs_tag_extents ctx.fs_tag dir_tag cb user

-- resolve_component
unfoldable pub resolve_component : FuseCtx → BfTag → List ℕ → Result BfTag
unfolding ctx_dir_read lookup_cb found_or_enoent
resolve_component ctx dir_tag name =
    ctx_dir_read ctx dir_tag (lookup_cb name) none >>= found_or_enoent

-- stat_by_tag
unfoldable pub stat_by_tag : FuseCtx → BfTag → Result FsStat
unfolding filedata_stat
stat_by_tag ctx tag = filedata_stat ctx.vol ctx.domain ctx.fs_tag_extents ctx.fs_tag tag

-- S_ISDIR and S_ISLNK: the four bits of the file type.
unfoldable pub is_dir_mode : ℕ → Bool
is_dir_mode mode = mode / 0x1000 % 16 == 4

unfoldable pub is_lnk_mode : ℕ → Bool
is_lnk_mode mode = mode / 0x1000 % 16 == 10

abbrev pub slash : ℕ
slash = 47

-- while (*p == '/') p++;
unfoldable pub skip_slashes : List ℕ → List ℕ
skip_slashes [] = []
skip_slashes (c ∷ rest) = if c == slash then skip_slashes rest else c ∷ rest

-- The component in front of the next slash, and what follows that slash.
pub record Split : Type 0 where
  pub comp : List ℕ
  pub rest : List ℕ

unfoldable pub put_front : ℕ → Split → Split
put_front c s = record { comp = c ∷ s.comp; rest = s.rest }

-- strchr(p, '/') and the cut there.
unfoldable pub split_slash : List ℕ → Split
unfolding put_front
split_slash [] = record { comp = []; rest = [] }
split_slash (c ∷ more) =
    if c == slash then record { comp = []; rest = more } else put_front c (split_slash more)

-- The test that a component with others behind it is a directory.
unfoldable pub require_dir : FuseCtx → BfTag → List ℕ → Result (Unit {0})
unfolding stat_by_tag is_dir_mode st_mode
require_dir ctx next [] = ok tt
require_dir ctx next (c ∷ rest) =
    stat_by_tag ctx next >>= λ st. (if is_dir_mode (st_mode st) then ok tt else err enotdir)

-- The loop over the components on fuel; each round takes a byte at least.
unfoldable pub resolve_loop : ℕ → FuseCtx → BfTag → List ℕ → Result BfTag
unfolding split_slash skip_slashes resolve_component require_dir
resolve_loop fuel ctx cur [] = ok cur
resolve_loop zero ctx cur (c ∷ more) = stuck
resolve_loop (suc fuel) ctx cur (c ∷ more) =
    let s = split_slash (c ∷ more) in
    let p = skip_slashes s.rest in
    resolve_component ctx cur s.comp >>= λ next.
    require_dir ctx next p >>= λ _. resolve_loop fuel ctx next p

abbrev pub fuse_path_max : ℕ
fuse_path_max = 4096

abbrev pub root_tag : BfTag
root_tag = record { num = 2; seq = 0 }

-- advfs_fuse_resolve_path; the path is the bytes of the string.
unfoldable pub resolve_path : FuseCtx → List ℕ → Result BfTag
unfolding resolve_loop skip_slashes
resolve_path ctx path =
    if leb fuse_path_max (length path)
    then err enametoolong
    else resolve_loop (length path) ctx root_tag (skip_slashes path)
