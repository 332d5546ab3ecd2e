-- ===== src/Dir/Read.antt =====
-- dir_resolve_extents and advfs_dir_read_full_clone of src/dir.c: the reading of a whole directory.
pub mod Listing
pub mod Reported
use advfs_fuse.Base.{
  ℕ, zero, suc, Bool, true, false, not, ◌&&◌, ◌||◌, ◌+◌, ◌*◌, List, [], ◌∷◌, Option, none, some,
  ltb, ◌==◌, if◌then◌else◌, Result, stuck, ok, err, ◌>>=◌, einval, enoent, Errno,
}
use advfs_fuse.Ods.{Bytes, BfTag, advance, blksz, blks_per_pg}
use advfs_fuse.Volume.{Volume, fresh}
use advfs_fuse.Domain.{Domain}
use advfs_fuse.Extents.{Extent, max_extents, page_count}
use advfs_fuse.Extents.ReadData.{PageRead, read_data_dom}
use advfs_fuse.Extents.Chain.{extents_read_dom}
use advfs_fuse.Filedata.{McellAt, resolve_tag_mcell}
use advfs_fuse.Filedata.Read.{CloneCtx}
use advfs_fuse.Fileset.{fileset_tag_extents}
use advfs_fuse.Dir.{Callback, BlockWalk, walk_dir_block}
use advfs_fuse.Dir.Mcells.{find_xtnts_mcell}

abbrev pub max_dir_pages : ℕ
max_dir_pages = 16384

-- dir_resolve_extents, with the caller's room of ADVFS_MAX_EXTENTS; its first step is the one of
-- resolve_tag_mcell in filedata.c.
unfoldable pub dir_resolve_extents : Domain → List Extent → BfTag → BfTag → Result (List Extent)
unfolding resolve_tag_mcell find_xtnts_mcell extents_read_dom
dir_resolve_extents domain fs_tag_extents fs_tag dir_tag =
    resolve_tag_mcell domain fs_tag_extents fs_tag dir_tag >>= λ prim.
    find_xtnts_mcell domain prim >>= λ at.
    extents_read_dom (some domain) at.vd at.page at.cell max_extents

-- A map of the original that is of use: one that was read, and that has an entry.
unfoldable pub usable : Result (List Extent) → Result (Option (List Extent))
usable stuck = stuck
usable (err e) = ok none
usable (ok []) = ok none
usable (ok (e ∷ rest)) = ok (some (e ∷ rest))

-- The directory in the original fileset, once that fileset's tag directory is known.
unfoldable pub original_dir_in :
    Domain → BfTag → BfTag → Option (List Extent) → Result (Option (List Extent))
unfolding dir_resolve_extents usable
original_dir_in domain orig_set_tag dir_tag none = ok none
original_dir_in domain orig_set_tag dir_tag (some orig_fs_extents) =
    usable (dir_resolve_extents domain orig_fs_extents orig_set_tag dir_tag)

-- The clone fallback: `none` if orig_ok is not set.
unfoldable pub original_dir :
    Volume → Domain → Option CloneCtx → BfTag → Result (Option (List Extent))
unfolding fileset_tag_extents usable original_dir_in
original_dir vol domain none dir_tag = ok none
original_dir vol domain (some clone) dir_tag =
    if clone.is_clone && not (clone.orig_set_tag.num == 0)
    then (usable (fileset_tag_extents vol domain clone.orig_set_tag max_extents) >>= λ orig.
        original_dir_in domain clone.orig_set_tag dir_tag orig)
    else ok none

-- The count of pages to read, before the cap.
unfoldable pub dir_pages : List Extent → Option (List Extent) → ℕ
unfolding page_count
dir_pages extents none = page_count (some extents)
dir_pages extents (some orig) =
    let clone_pages = page_count (some extents) in
    let orig_pages = page_count (some orig) in
    if ltb max_dir_pages clone_pages
    then orig_pages
    else if ltb orig_pages clone_pages
    then clone_pages
    else orig_pages

unfoldable pub cap_pages : ℕ → ℕ
cap_pages n = if ltb max_dir_pages n then max_dir_pages else n

-- One attempt to read a page: `none` for a permanent hole and for a page beyond the map.
unfoldable pub have_page : Result PageRead → Result (Option Bytes)
have_page stuck = stuck
have_page (err e) = elim e [ enoent ↦ ok none | other ↦ err other ]
have_page (ok r) = if r.is_perm_hole then ok none else ok (some r.bytes)

-- The page of the directory's own map.
unfoldable pub own_page : Domain → List Extent → ℕ → Result (Option Bytes)
unfolding have_page read_data_dom
own_page domain [] pg = ok none
own_page domain (e ∷ rest) pg = have_page (read_data_dom (some domain) (e ∷ rest) pg fresh)

-- The page of the original, where there is one.
unfoldable pub orig_page : Domain → Option (List Extent) → ℕ → Result (Option Bytes)
unfolding have_page read_data_dom
orig_page domain none pg = ok none
orig_page domain (some orig) pg = have_page (read_data_dom (some domain) orig pg fresh)

-- The own page, or what the original gives.
unfoldable pub own_or : Option Bytes → Result (Option Bytes) → Result (Option Bytes)
own_or none other = other
own_or (some b) other = ok (some b)

-- The page that the walk sees; `none` is skipped.
unfoldable pub dir_page : Domain → List Extent → Option (List Extent) → ℕ → Result (Option Bytes)
unfolding own_page orig_page own_or
dir_page domain extents orig pg =
    own_page domain extents pg >>= λ own. own_or own (orig_page domain orig pg)

module _ {U : Type 0} where
  -- The test of `stop` behind a walk; `go` is what follows.
  unfoldable pub unless_stopped :
      BlockWalk U → (U → ℕ → Result (BlockWalk U)) → Result (BlockWalk U)
  unless_stopped w go = if w.stopped then ok w else go w.user w.deleted

  module _ (cb deleted_cb : Option (Callback U)) where
    -- The loop over the blocks of a page, from block `blk` on, with `left` to go.
    unfoldable pub walk_blocks : ℕ → Bytes → ℕ → U → ℕ → Result (BlockWalk U)
    unfolding walk_dir_block unless_stopped
    walk_blocks zero page blk user deleted =
        ok (record { stopped = false; user = user; deleted = deleted })
    walk_blocks (suc left) page blk user deleted =
        walk_dir_block (advance page (blk * blksz)) cb deleted_cb user deleted >>= λ w.
        unless_stopped w (λ user' deleted'. walk_blocks left page (blk + 1) user' deleted')

    -- What is done with one page.
    unfoldable pub walk_page : Option Bytes → U → ℕ → Result (BlockWalk U)
    unfolding walk_blocks
    walk_page none user deleted = ok (record { stopped = false; user = user; deleted = deleted })
    walk_page (some page) user deleted = walk_blocks blks_per_pg page 0 user deleted

    -- The loop over the pages, from page `pg` on, with `left` to go.
    unfoldable pub walk_pages :
        ℕ → Domain → List Extent → Option (List Extent) → ℕ → U → ℕ → Result (BlockWalk U)
    unfolding dir_page walk_page unless_stopped
    walk_pages zero domain extents orig pg user deleted =
        ok (record { stopped = false; user = user; deleted = deleted })
    walk_pages (suc left) domain extents orig pg user deleted =
        dir_page domain extents orig pg >>= λ shown. walk_page shown user deleted >>= λ w.
        unless_stopped w
          (λ user' deleted'. walk_pages left domain extents orig (pg + 1) user' deleted')

    -- Steps 4 and 5 of advfs_dir_read_full_clone.
    unfoldable pub read_pages : Domain → List Extent → Option (List Extent) → U → Result U
    unfolding walk_pages cap_pages dir_pages
    read_pages domain extents orig user =
        walk_pages (cap_pages (dir_pages extents orig)) domain extents orig 0 user 0 >>= λ w.
        ok w.user

    -- The rest once the two maps are known; it returns 0, with the user data.
    unfoldable pub read_resolved : Domain → List Extent → Option (List Extent) → U → Result U
    unfolding read_pages
    read_resolved domain [] none user = ok user
    read_resolved domain (e ∷ rest) none user = read_pages domain (e ∷ rest) none user
    read_resolved domain extents (some orig) user = read_pages domain extents (some orig) user

    -- advfs_dir_read_full_clone behind its NULL tests. The answer of advfs_dir_has_undelete is not used.
    unfoldable pub dir_read_full_clone :
        Volume → Domain → List Extent → BfTag → BfTag → Option CloneCtx → U → Result U
    unfolding dir_resolve_extents original_dir read_resolved
    dir_read_full_clone vol domain [] fs_tag dir_tag clone user = err einval
    dir_read_full_clone vol domain (e ∷ rest) fs_tag dir_tag clone user =
        if dir_tag.num == 0
        then err einval
        else dir_resolve_extents domain (e ∷ rest) fs_tag dir_tag >>= λ extents.
            original_dir vol domain clone dir_tag >>= λ orig. read_resolved domain extents orig user

-- advfs_dir_read_full
unfoldable pub dir_read_full :
    {U : Type 0}
    → Volume
    → Domain
    → List Extent
    → BfTag
    → BfTag
    → Option (Callback U)
    → Option (Callback U)
    → U
    → Result U
unfolding dir_read_full_clone
dir_read_full vol domain fs_tag_extents fs_tag dir_tag cb deleted_cb user =
    dir_read_full_clone cb deleted_cb vol domain fs_tag_extents fs_tag dir_tag none user

-- advfs_dir_read
unfoldable pub dir_read :
    {U : Type 0} → Volume → Domain → List Extent → BfTag → BfTag → Callback U → U → Result U
unfolding dir_read_full
dir_read vol domain fs_tag_extents fs_tag dir_tag cb user =
    dir_read_full vol domain fs_tag_extents fs_tag dir_tag (some cb) none user

-- advfs_dir_read_clone
unfoldable pub dir_read_clone :
    {U : Type 0}
    → Volume
    → Domain
    → List Extent
    → BfTag
    → BfTag
    → Callback U
    → Option CloneCtx
    → U
    → Result U
unfolding dir_read_full_clone
dir_read_clone vol domain fs_tag_extents fs_tag dir_tag cb clone user =
    dir_read_full_clone (some cb) none vol domain fs_tag_extents fs_tag dir_tag clone user
