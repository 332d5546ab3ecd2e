-- ===== src/Dir/Read/Reported.antt =====
-- The reading of a whole directory of src/dir.c reports the entries of its pages, in order.
use advfs_fuse.Base.{
  ℕ, zero, suc, Bool, true, false, ◌+◌, ◌*◌, ◌≤◌, ◌<◌, ◌≡◌, refl, sym, ap, ◌∙◌, List, [], ◌∷◌, ◌++◌,
  Option, none, some, if◌then◌else◌, if_true, if_false, Result, ok, err, ◌>>=◌, einval, arith, ◌==◌,
  ne→==, ◌≢◌,
}
use advfs_fuse.Ods.{Bytes, BfTag, advance, blksz, blks_per_pg}
use advfs_fuse.Volume.{Volume}
use advfs_fuse.Domain.{Domain}
use advfs_fuse.Extents.{Extent, page_count}
use advfs_fuse.Filedata.Read.{CloneCtx}
use advfs_fuse.Dir.{Callback, BlockWalk}
use advfs_fuse.Dir.Items.{Item}
use advfs_fuse.Dir.Walk.{report, answer, counted, walk_dir_block-report}
use advfs_fuse.Dir.Total.{laid}
use advfs_fuse.Dir.Read.{
  dir_resolve_extents, original_dir, dir_pages, cap_pages, unless_stopped, walk_blocks, walk_page,
  walk_pages, read_pages, read_resolved, dir_read_full_clone,
}
use advfs_fuse.Dir.Read.Listing.{
  PageOf, Blocks, Listing, end, in_block, on_page, skip, PageOf-dir_page,
}

items_here : (page : Bytes) (blk left : ℕ) → (its : List Item) × Blocks page blk left its
items_here page blk zero = ([], end)
items_here page blk (suc left) =
    let (its, l) = laid (advance page (blk * blksz)) in
    let (rest, bs) = items_here page (blk + 1) left in (its ++ rest, in_block l bs)

module _ (domain : Domain) (extents : List Extent) (orig : Option (List Extent)) where
  with_page :
      (pg left : ℕ) (shown : Option Bytes) (rest : List Item)
      → PageOf domain extents orig pg shown
      → Listing domain extents orig (pg + 1) left rest
      → (its : List Item) × Listing domain extents orig pg (suc left) its
  with_page pg left none rest p ls = (rest, skip p ls)
  with_page pg left (some b) rest p ls =
      let (its, bs) = items_here b 0 blks_per_pg in (its ++ rest, on_page b p bs ls)

  listed_from :
      (pg left : ℕ)
      → ((i : ℕ)
          → pg ≤ i
          → i < pg + left
          → (shown : Option Bytes) × PageOf domain extents orig i shown)
      → (its : List Item) × Listing domain extents orig pg left its
  listed_from pg zero given = ([], end)
  listed_from pg (suc left) given =
      let (rest, ls) = listed_from (pg + 1) left (λ i a b. given i (omega arith) (omega arith)) in
      let (shown, p) = given pg (omega arith) (omega arith) in with_page pg left shown rest p ls

  -- A directory whose pages are known has a listing.
  pub listed :
      ((i : ℕ)
        → i < cap_pages (dir_pages extents orig)
        → (shown : Option Bytes) × PageOf domain extents orig i shown)
      → (its : List Item) × Listing domain extents orig 0 (cap_pages (dir_pages extents orig)) its
  listed given = listed_from 0 (cap_pages (dir_pages extents orig)) (λ i a b. given i (omega arith))

module _ {U : Type 0} (cb deleted_cb : Option (Callback U)) where
  -- A walk and, unless it was stopped, what follows it.
  abbrev and_then : BlockWalk U → (U → ℕ → BlockWalk U) → BlockWalk U
  and_then w go = if w.stopped then w else go w.user w.deleted

  stopped_or :
      (b : Bool) (w later both : BlockWalk U) (go : U → ℕ → BlockWalk U)
      → w.stopped ≡ true
      → both ≡ and_then later go
      → (if b then w else both) ≡ and_then (if b then w else later) go
  stopped_or true w later both go s e = sym (if_true w.stopped w _ s)
  stopped_or false w later both go s e = e

  report_append :
      (xs ys : List Item) (user : U) (deleted : ℕ)
      → report cb deleted_cb (xs ++ ys) user deleted
        ≡ and_then (report cb deleted_cb xs user deleted) (report cb deleted_cb ys)
  report_append [] ys user deleted = refl
  report_append (x ∷ xs) ys user deleted =
      let r = answer cb deleted_cb x user in
      let d = counted cb deleted_cb x deleted in
      stopped_or r.stop (record { stopped = true; user = r.user; deleted = d })
        (report cb deleted_cb xs r.user d) (report cb deleted_cb (xs ++ ys) r.user d)
        (report cb deleted_cb ys) refl (report_append xs ys r.user d)

  either_ok :
      (b : Bool) (w later' : BlockWalk U) (later : Result (BlockWalk U))
      → later ≡ ok later'
      → (if b then ok w else later) ≡ ok (if b then w else later')
  either_ok true w later' later e = refl
  either_ok false w later' later e = e

  unless_stopped-and_then :
      (w : BlockWalk U) (go : U → ℕ → Result (BlockWalk U)) (go' : U → ℕ → BlockWalk U)
      → ((user : U) (deleted : ℕ) → go user deleted ≡ ok (go' user deleted))
      → unless_stopped w go ≡ ok (and_then w go')
  unfolding unless_stopped
  unless_stopped-and_then w go go' e =
      either_ok w.stopped w (go' w.user w.deleted) (go w.user w.deleted) (e w.user w.deleted)

  walk_blocks-report :
      (page : Bytes) (blk left : ℕ) (its : List Item) (user : U) (deleted : ℕ)
      → Blocks page blk left its
      → walk_blocks cb deleted_cb left page blk user deleted
        ≡ ok (report cb deleted_cb its user deleted)
  unfolding walk_blocks
  walk_blocks-report page blk left its user deleted end = refl
  walk_blocks-report page blk (suc left) all user deleted
        (in_block {its = its} {rest = rest} l bs) =
      ap
        (λ r. r >>= λ w.
          unless_stopped w
            (λ user' deleted'. walk_blocks cb deleted_cb left page (blk + 1) user' deleted'))
        (walk_dir_block-report cb deleted_cb (advance page (blk * blksz)) its user deleted l)
      ∙ unless_stopped-and_then (report cb deleted_cb its user deleted) _
          (report cb deleted_cb rest)
          (λ user' deleted'. walk_blocks-report page (blk + 1) left rest user' deleted' bs)
      ∙ ap (λ w. ok w) (sym (report_append its rest user deleted))

  module _ (domain : Domain) (extents : List Extent) (orig : Option (List Extent)) where
    shown_page :
        (left pg : ℕ) (shown : Option Bytes) (rest : List Item) (user : U) (deleted : ℕ)
        (w : BlockWalk U)
        → PageOf domain extents orig pg shown
        → walk_page cb deleted_cb shown user deleted ≡ ok w
        → ((user' : U) (deleted' : ℕ)
            → walk_pages cb deleted_cb left domain extents orig (pg + 1) user' deleted'
              ≡ ok (report cb deleted_cb rest user' deleted'))
        → walk_pages cb deleted_cb (suc left) domain extents orig pg user deleted
          ≡ ok (and_then w (report cb deleted_cb rest))
    unfolding walk_pages
    shown_page left pg shown rest user deleted w p e walks =
        let go : U → ℕ → Result (BlockWalk U) = λ user' deleted'.
          walk_pages cb deleted_cb left domain extents orig (pg + 1) user' deleted' in
        ap (λ r. r >>= λ s. walk_page cb deleted_cb s user deleted >>= λ v. unless_stopped v go)
          (PageOf-dir_page domain extents orig pg shown p)
        ∙ ap (λ r. r >>= λ v. unless_stopped v go) e
        ∙ unless_stopped-and_then w go (report cb deleted_cb rest) walks

    walk_pages-report :
        (pg left : ℕ) (its : List Item) (user : U) (deleted : ℕ)
        → Listing domain extents orig pg left its
        → walk_pages cb deleted_cb left domain extents orig pg user deleted
          ≡ ok (report cb deleted_cb its user deleted)
    unfolding walk_pages walk_page
    walk_pages-report pg left its user deleted end = refl
    walk_pages-report pg (suc left) rest user deleted (skip p ls) =
        shown_page left pg none rest user deleted
          (record { stopped = false; user = user; deleted = deleted }) p refl
          (λ user' deleted'. walk_pages-report (pg + 1) left rest user' deleted' ls)
    walk_pages-report pg (suc left) all user deleted (on_page {its = its} {rest = rest} b p bs ls) =
        shown_page left pg (some b) rest user deleted (report cb deleted_cb its user deleted) p
          (walk_blocks-report b 0 blks_per_pg its user deleted bs)
          (λ user' deleted'. walk_pages-report (pg + 1) left rest user' deleted' ls)
        ∙ ap (λ w. ok w) (sym (report_append its rest user deleted))

    read_pages-report :
        (its : List Item) (user : U)
        → Listing domain extents orig 0 (cap_pages (dir_pages extents orig)) its
        → read_pages cb deleted_cb domain extents orig user
          ≡ ok (report cb deleted_cb its user 0).user
    unfolding read_pages
    read_pages-report its user ls =
        ap (λ r. r >>= λ w. ok w.user)
          (walk_pages-report 0 (cap_pages (dir_pages extents orig)) its user 0 ls)

  -- A directory without a map and without an original has no page.
  read_resolved_is :
      (domain : Domain) (extents : List Extent) (orig : Option (List Extent)) (user : U)
      → read_resolved cb deleted_cb domain extents orig user
        ≡ read_pages cb deleted_cb domain extents orig user
  unfolding read_resolved read_pages walk_pages cap_pages dir_pages page_count
  read_resolved_is domain [] none user = refl
  read_resolved_is domain (e ∷ rest) none user = refl
  read_resolved_is domain [] (some orig) user = refl
  read_resolved_is domain (e ∷ rest) (some orig) user = refl

  -- The report of any listing of the directory.
  pub dir_read_full_clone-report :
      (vol : Volume) (domain : Domain) (x : Extent) (fs_tag_extents extents : List Extent)
      (fs_tag dir_tag : BfTag) (clone : Option CloneCtx) (orig : Option (List Extent))
      (its : List Item) (user : U)
      → dir_tag.num ≢ 0
      → dir_resolve_extents domain (x ∷ fs_tag_extents) fs_tag dir_tag ≡ ok extents
      → original_dir vol domain clone dir_tag ≡ ok orig
      → Listing domain extents orig 0 (cap_pages (dir_pages extents orig)) its
      → dir_read_full_clone cb deleted_cb vol domain (x ∷ fs_tag_extents) fs_tag dir_tag clone user
        ≡ ok (report cb deleted_cb its user 0).user
  unfolding dir_read_full_clone
  dir_read_full_clone-report vol domain x fs_tag_extents extents fs_tag dir_tag clone orig its user
        nz resolved origin ls =
      let with_orig : List Extent → Result U = λ es. original_dir vol domain clone dir_tag >>= λ o.
      read_resolved cb deleted_cb domain es o user in
      if_false (dir_tag.num == 0) (err einval) _ (ne→== dir_tag.num 0 nz)
      ∙ ap (λ r. r >>= with_orig) resolved
      ∙ ap (λ r. r >>= λ o. read_resolved cb deleted_cb domain extents o user) origin
      ∙ read_resolved_is domain extents orig user
      ∙ read_pages-report domain extents orig its user ls

  -- advfs_dir_read_full_clone, where the directory's map and the original's are known and every page
  -- up to the page count is there or in a hole: it succeeds. It reports the entries of the pages in
  -- order, block by block, and stops where a callback says so. The pages are the directory's own;
  -- one that is a permanent hole there, or lies beyond its map, is the original's, and is skipped
  -- where the original has none either. At most 16384 pages are read, and their number is that of
  -- the maps.
  pub dir_read_full_clone_total :
      (vol : Volume) (domain : Domain) (x : Extent) (fs_tag_extents extents : List Extent)
      (fs_tag dir_tag : BfTag) (clone : Option CloneCtx) (orig : Option (List Extent)) (user : U)
      → dir_tag.num ≢ 0
      → dir_resolve_extents domain (x ∷ fs_tag_extents) fs_tag dir_tag ≡ ok extents
      → original_dir vol domain clone dir_tag ≡ ok orig
      → ((i : ℕ)
          → i < cap_pages (dir_pages extents orig)
          → (shown : Option Bytes) × PageOf domain extents orig i shown)
      → (its : List Item) × Listing domain extents orig 0 (cap_pages (dir_pages extents orig)) its
        × (dir_read_full_clone cb deleted_cb vol domain
              (x ∷ fs_tag_extents)
              fs_tag
              dir_tag
              clone
              user
            ≡ ok (report cb deleted_cb its user 0).user)
  dir_read_full_clone_total vol domain x fs_tag_extents extents fs_tag dir_tag clone orig user nz
        resolved origin given =
      let (its, ls) = listed domain extents orig given in
      (
        its,
        ls,
        dir_read_full_clone-report vol domain x fs_tag_extents extents fs_tag dir_tag clone orig its
            user nz resolved origin ls,
      )
