-- ===== src/Examples/Paths.antt =====
-- The root directory of Examples/Listing.antt, with the one entry `hi`, as a mounted fileset.
use advfs_fuse.Base.{
  ℕ, ◌<◌, ◌≡◌, refl, ◌↔◌, ◌⊎◌, List, [], ◌∷◌, ◌++◌, Option, none, some, ok, err, enoent,
  enametoolong, true, false, if◌then◌else◌, leb, length, All, arith,
}
use advfs_fuse.Ods.{Bytes, BfTag, FsStat, st_mode, rec_data_sz, mcid_page, mcid_cell}
use advfs_fuse.Dir.Items.{Item}
use advfs_fuse.Dir.Read.{dir_pages, cap_pages}
use advfs_fuse.Dir.Read.Listing.{PageOf, Listing}
use advfs_fuse.FuseOps.{FuseCtx}
use advfs_fuse.FuseOps.Path.{
  stat_by_tag, is_dir_mode, resolve_component, resolve_path, fuse_path_max, root_tag,
}
use advfs_fuse.FuseOps.Path.Words.{words, walk_names, resolve_path-words}
use advfs_fuse.FuseOps.Path.Lookup.{Other, FirstLive, resolve_component-FirstLive}
use advfs_fuse.FuseOps.Ops.{dot, dotdot, op_getattr, op_readdir}
use advfs_fuse.FuseOps.Ops.Attrs.{op_getattr_errors}
use advfs_fuse.FuseOps.Ops.Names.{append_name, live_names, missing, op_readdir-live_names}
use advfs_fuse.Examples.Listing.{
  vol, domain, tag, root, tag_hole, dir_map, resolves, one_page, page_0,
}

abbrev pub ctx : FuseCtx
ctx = record {
  vol = some vol;
  domain = some domain;
  fs_tag = tag 2;
  fs_tag_extents = tag_hole ∷ [];
  is_clone = false;
  orig_set_tag = tag 0;
}

-- "//hi"
abbrev path : List ℕ
path = 47 ∷ 47 ∷ 104 ∷ 105 ∷ []

resolve_path-words_example : resolve_path ctx path ≡ (
    if leb fuse_path_max (length path)
    then err enametoolong
    else walk_names ctx root_tag (words path))
resolve_path-words_example = resolve_path-words ctx path

pub given :
    (i : ℕ)
    → i < cap_pages (dir_pages dir_map none)
    → (shown : Option Bytes) × PageOf domain dir_map none i shown
given i h = let z : i ≡ 0 = omega (arith, one_page) in rw z page_0

resolve_component-FirstLive_example :
    (its : List Item) × Listing domain dir_map none 0 (cap_pages (dir_pages dir_map none)) its
    × (((t : BfTag) × (resolve_component ctx root (104 ∷ 105 ∷ []) ≡ ok t)
          × FirstLive (104 ∷ 105 ∷ []) t its)
        ⊎ ((resolve_component ctx root (104 ∷ 105 ∷ []) ≡ err enoent)
            × All (Other (104 ∷ 105 ∷ [])) its))
resolve_component-FirstLive_example =
    resolve_component-FirstLive ctx vol domain tag_hole [] dir_map root (104 ∷ 105 ∷ []) refl refl
      refl refl (λ e. omega arith) resolves given

at_root : resolve_path ctx (47 ∷ []) ≡ ok root
unfolding resolve_path
at_root = refl

attrs : (fst : FsStat) × (stat_by_tag ctx root ≡ ok fst) × (is_dir_mode (st_mode fst) ≡ true)
unfolding stat_by_tag rec_data_sz mcid_page mcid_cell st_mode is_dir_mode
attrs = (_, refl, refl)

op_readdir-live_names_example :
    (its : List Item) × Listing domain dir_map none 0 (cap_pages (dir_pages dir_map none)) its
    × (op_readdir append_name ctx (47 ∷ []) []
        ≡ ok (live_names its ++ missing dot (live_names its) ++ missing dotdot (live_names its)))
op_readdir-live_names_example =
    op_readdir-live_names ctx vol domain tag_hole [] dir_map (47 ∷ []) root attrs.0 at_root attrs.1
      attrs.2 refl refl refl refl (λ e. omega arith) resolves given

op_getattr_errors_example :
    (op_getattr ctx path ≡ err enoent) ↔ (resolve_path ctx path ≡ err enoent)
op_getattr_errors_example = op_getattr_errors ctx path enoent
