-- ===== src/Examples/Tool.antt =====
-- The volume of Examples/Listing.antt, as src/advfs_tool.c looks at it.
use advfs_fuse.Base.{
  ℕ, ◌+◌, ◌-◌, ◌≤◌, get_or, ltb, if◌then◌else◌, some, sym, ◌∙◌, ◌≡◌, ◌≢◌, ◌⊎◌, inl, inr, refl, List,
  [], ◌∷◌, Result, stuck, ok, false, arith,
}
use advfs_fuse.Ods.{
  Bytes, FsStat, BfTag, rec_data_sz, mcid_page, mcid_cell, chain_mcid, prim_x_cnt, xtnt_type,
  read_xtnt, prim_xtnts,
}
use advfs_fuse.Extents.{collect_array}
use advfs_fuse.FuseOps.Path.{resolve_component}
use advfs_fuse.Tool.{FsCtx, Dirent, read_dir_entries, stat_tag_checked, lookup_entry}
use advfs_fuse.Tool.Recursive.{CountState, count_recursive, tool_levels}
use advfs_fuse.Tool.Entries.{lookup_entry-resolve_component}
use advfs_fuse.Tool.Count.{Counted}
use advfs_fuse.Tool.Tally.{tally}
use advfs_fuse.Tool.Entered.{MustCount}
use advfs_fuse.Volume.{Volume}
use advfs_fuse.Tool.Returns.{Served, count_recursive_total}
use advfs_fuse.Examples.Listing.{bmt_page, vol, domain, tag, root, tag_hole, dir_map, resolves}
use advfs_fuse.Examples.Paths.{ctx, given}

abbrev fs : FsCtx
fs = record {
  vol = vol;
  domain = domain;
  fs_tag = tag 2;
  tag_extents = tag_hole ∷ [];
  is_clone = false;
  orig_set_tag = tag 0;
}

lookup_entry-resolve_component_example :
    lookup_entry fs root (104 ∷ 105 ∷ []) ≡ resolve_component ctx root (104 ∷ 105 ∷ [])
lookup_entry-resolve_component_example =
    lookup_entry-resolve_component fs ctx tag_hole [] dir_map root (104 ∷ 105 ∷ []) refl refl refl
      refl refl refl (λ e. omega arith) resolves given

-- The same directory with its one entry, `hi`, leading back to it.
abbrev loop_block : Bytes
loop_block i =
    get_or (2 ∷ 0 ∷ 0 ∷ 0 ∷ 20 ∷ 0 ∷ 2 ∷ 0 ∷ 104 ∷ 105 ∷ 0 ∷ 0 ∷ 2 ∷ 0 ∷ 0 ∷ 0 ∷ 1 ∷ 0 ∷ 0 ∷ 0 ∷ [])
      i 0

abbrev loop_vol : Volume
loop_vol = record vol {
  content = λ n. if ltb n 25088 then bmt_page (n - 16896) else loop_block (n - 25088);
}

abbrev loop_fs : FsCtx
loop_fs = record fs { vol = loop_vol; domain = record domain { vol = some loop_vol } }

abbrev in_root : List Dirent
in_root = record { name = 104 ∷ 105 ∷ []; tag = tag 2; deleted = false } ∷ []

listed_root : read_dir_entries loop_fs root false ≡ ok in_root
unfolding read_dir_entries rec_data_sz mcid_page mcid_cell chain_mcid collect_array prim_x_cnt
    xtnt_type read_xtnt prim_xtnts
listed_root = refl

listed_again : read_dir_entries loop_fs (tag 2) false ≡ ok in_root
unfolding read_dir_entries rec_data_sz mcid_page mcid_cell chain_mcid collect_array prim_x_cnt
    xtnt_type read_xtnt prim_xtnts
listed_again = refl

stat_again : (fst : FsStat) × (stat_tag_checked loop_fs (tag 2) false ≡ ok fst)
unfolding stat_tag_checked rec_data_sz mcid_page mcid_cell
stat_again = (_, refl)

ok-ne-stuck : {A : Type 0} → (r : Result A) (x : A) → r ≡ ok x → r ≢ stuck
ok-ne-stuck r x e s = let q : ok x ≡ stuck = sym e ∙ s in cc

abbrev Known : BfTag → Type 0
Known t = (t ≡ root) ⊎ (t ≡ tag 2)

served : (t : BfTag) → Known t → Served loop_fs Known t
served t (inl e) = rw e (inl (in_root, listed_root, ((ok-ne-stuck _ _ stat_again.1, inr refl), tt)))
served t (inr e) =
    rw e (inl (in_root, listed_again, ((ok-ne-stuck _ _ stat_again.1, inr refl), tt)))

abbrev start : CountState
start = record {
  cnt = record { files = 0; dirs = 0; symlinks = 0; other = 0; errors = 0; total_size = 0 };
  visited = [];
}

-- The root is visited once, its entry is counted as a directory and then refused.
abbrev counted : CountState
counted = record {
  cnt = record { files = 0; dirs = 1; symlinks = 0; other = 0; errors = 1; total_size = 0 };
  visited = 2 ∷ [];
}

counts : count_recursive tool_levels loop_fs root [] start ≡ ok counted
unfolding count_recursive rec_data_sz mcid_page mcid_cell chain_mcid collect_array prim_x_cnt
    xtnt_type read_xtnt prim_xtnts
counts = refl

count_recursive_total_example :
    (st' : CountState) × (count_recursive tool_levels loop_fs root [] start ≡ ok st')
    × Counted 1 start st'
    × ((n : ℕ) × MustCount loop_fs root start tool_levels n × (tally start + n ≤ tally st'))
count_recursive_total_example =
    count_recursive_total Known loop_fs served tool_levels root [] start (inl refl)
