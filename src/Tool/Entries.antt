-- ===== src/Tool/Entries.antt =====
-- lookup_entry of src/advfs_tool.c and resolve_component of src/fuse_ops.c find the same entry.
use advfs_fuse.Base.{
  ℕ, ◌+◌, ◌<◌, ◌≡◌, refl, sym, ap, ◌∙◌, ◌≢◌, inl, inr, true, false, ◌&&◌, not, List, [], ◌∷◌, ◌++◌,
  append_assoc, append_nil, Option, none, some, ◌==◌, if_true, if_false, Bool-cases, ok, ◌>>=◌,
}
use advfs_fuse.Ods.{Bytes, BfTag}
use advfs_fuse.Extents.{Extent}
use advfs_fuse.Dir.{Reply, call}
use advfs_fuse.Dir.Items.{Item, live, dead, gap, unnamed}
use advfs_fuse.Dir.Walk.{report}
use advfs_fuse.Dir.Read.{
  dir_resolve_extents, original_dir, dir_pages, cap_pages, dir_read_full_clone,
}
use advfs_fuse.Dir.Read.Listing.{PageOf}
use advfs_fuse.Dir.Read.Reported.{listed, dir_read_full_clone-report}
use advfs_fuse.FuseOps.{FuseCtx}
use advfs_fuse.FuseOps.Path.{
  c_str, is_equal, lookup_cb, LookupState, found_or_enoent, resolve_component,
}
use advfs_fuse.FuseOps.Path.Lookup.{after_live, ctx_dir_read_is, component_is, no_original}
use advfs_fuse.Tool.{
  FsCtx, Dirent, dirent_list_add, collect_live_cb, clone_of, read_dir_entries, find_entry,
  lookup_entry,
}

-- The entries that the live items make.
abbrev pub entries : List Item → List Dirent
entries [] = []
entries (live n tag ∷ its) = record { name = c_str n; tag = tag; deleted = false } ∷ entries its
entries (dead n tag ∷ its) = entries its
entries (gap ∷ its) = entries its
entries (unnamed ∷ its) = entries its

collected :
    (its : List Item) (list : List Dirent) (deleted : ℕ)
    → (report (some collect_live_cb) none its list deleted).user ≡ list ++ entries its
unfolding call collect_live_cb dirent_list_add
collected [] list deleted = sym (append_nil list)
collected (live n tag ∷ its) list deleted =
    let e : Dirent = record { name = c_str n; tag = tag; deleted = false } in
    collected its (list ++ e ∷ []) deleted ∙ append_assoc list (e ∷ []) (entries its)
collected (dead n tag ∷ its) list deleted = collected its list (deleted + 1)
collected (gap ∷ its) list deleted = collected its list (deleted + 1)
collected (unnamed ∷ its) list deleted = collected its list deleted

-- The search in the list, and the search by callback.
same_search :
    (name : List ℕ) (its : List Item) (deleted : ℕ)
    → found_or_enoent (report (some (lookup_cb name)) none its none deleted).user
      ≡ find_entry name (entries its)
unfolding call find_entry found_or_enoent after_live lookup_cb
same_search name [] deleted = refl
same_search name (live n tag ∷ its) deleted =
    let hit : Reply LookupState = record { stop = true; user = some tag } in
    let miss : Reply LookupState = record { stop = false; user = none } in
    elim (Bool-cases (is_equal (c_str n) name)) [
      | inl h ↦
          ap (λ r. found_or_enoent (after_live name its deleted r))
            (if_true (is_equal (c_str n) name) hit miss h)
          ∙ sym (if_true (is_equal (c_str n) name) (ok tag) (find_entry name (entries its)) h)
      | inr d ↦
          ap (λ r. found_or_enoent (after_live name its deleted r))
            (if_false (is_equal (c_str n) name) hit miss d)
          ∙ same_search name its deleted
          ∙ sym (if_false (is_equal (c_str n) name) (ok tag) (find_entry name (entries its)) d)
    ]
same_search name (dead n tag ∷ its) deleted = same_search name its (deleted + 1)
same_search name (gap ∷ its) deleted = same_search name its (deleted + 1)
same_search name (unnamed ∷ its) deleted = same_search name its deleted

no_clone_dir :
    (fs : FsCtx) (dir_tag : BfTag)
    → fs.is_clone ≡ false
    → original_dir fs.vol fs.domain (some (clone_of fs)) dir_tag ≡ ok none
unfolding original_dir clone_of
no_clone_dir fs dir_tag e =
    if_false (fs.is_clone && not (fs.orig_set_tag.num == 0)) _ (ok none)
      (ap (λ b. b && not (fs.orig_set_tag.num == 0)) e)

lookup_is :
    (fs : FsCtx) (dir_tag : BfTag) (name : List ℕ) (its : List Item)
    → dir_read_full_clone
        (some collect_live_cb)
        none
        fs.vol
        fs.domain
        fs.tag_extents
        fs.fs_tag
        dir_tag
        (some (clone_of fs))
        []
      ≡ ok (report (some collect_live_cb) none its [] 0).user
    → lookup_entry fs dir_tag name ≡ find_entry name (entries its)
unfolding lookup_entry read_dir_entries
lookup_is fs dir_tag name its e =
    ap (λ r. r >>= find_entry name) e ∙ ap (find_entry name) (collected its [] 0)

-- In a fileset that is no clone, and a directory whose pages are there or in holes, lookup_entry of
-- the tool and resolve_component of the mounted file system give the same answer for every name,
-- although the one searches the list of all entries and the other stops its walk at the name.
pub lookup_entry-resolve_component :
    (fs : FsCtx) (ctx : FuseCtx) (x : Extent) (rest extents : List Extent) (dir_tag : BfTag)
    (name : List ℕ)
    → fs.is_clone ≡ false
    → fs.tag_extents ≡ x ∷ rest
    → ctx.vol ≡ some fs.vol
    → ctx.domain ≡ some fs.domain
    → ctx.fs_tag ≡ fs.fs_tag
    → ctx.fs_tag_extents ≡ x ∷ rest
    → dir_tag.num ≢ 0
    → dir_resolve_extents fs.domain (x ∷ rest) fs.fs_tag dir_tag ≡ ok extents
    → ((i : ℕ)
        → i < cap_pages (dir_pages extents none)
        → (shown : Option Bytes) × PageOf fs.domain extents none i shown)
    → lookup_entry fs dir_tag name ≡ resolve_component ctx dir_tag name
lookup_entry-resolve_component fs ctx x rest extents dir_tag name plain fse v d ft cfe nz resolved
      given =
    let (its, ls) = listed fs.domain extents none given in
    let of_list =
      dir_read_full_clone-report (some collect_live_cb) none fs.vol fs.domain x rest extents
        fs.fs_tag dir_tag (some (clone_of fs)) none its [] nz resolved
        (no_clone_dir fs dir_tag plain) ls in
    let by_callback =
      dir_read_full_clone-report (some (lookup_cb name)) none fs.vol fs.domain x rest extents
        fs.fs_tag dir_tag none none its none nz resolved (no_original fs.vol fs.domain dir_tag)
        ls in
    let read_is =
      ctx_dir_read_is ctx fs.vol fs.domain (x ∷ rest) dir_tag (lookup_cb name) none v d cfe in
    lookup_is fs dir_tag name its (
      ap
        (λ es.
          dir_read_full_clone (some collect_live_cb) none fs.vol fs.domain es fs.fs_tag dir_tag
            (some (clone_of fs)) [])
        fse
      ∙ of_list)
    ∙ sym (same_search name its 0)
    ∙ sym (
        component_is ctx dir_tag name _ (
          read_is
          ∙ ap
              (λ t.
                dir_read_full_clone (some (lookup_cb name)) none fs.vol fs.domain (x ∷ rest) t
                  dir_tag none none)
              ft
          ∙ by_callback))
