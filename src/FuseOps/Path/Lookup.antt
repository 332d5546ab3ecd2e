-- ===== src/FuseOps/Path/Lookup.antt =====
-- resolve_component of src/fuse_ops.c finds the first live entry with the name.
use advfs_fuse.Base.{
  ℕ, ◌+◌, ◌<◌, ◌≡◌, refl, sym, ap, ◌∙◌, ◌≢◌, ◌⊎◌, inl, inr, true, false, ◌&&◌, List, [], ◌∷◌,
  Option, none, some, ◌==◌, if◌then◌else◌, if_true, if_false, Bool-cases, ==→eq, eq→==, All, ok,
  err, ◌>>=◌, enoent,
}
use advfs_fuse.Ods.{Bytes, BfTag}
use advfs_fuse.Volume.{Volume}
use advfs_fuse.Domain.{Domain}
use advfs_fuse.Extents.{Extent}
use advfs_fuse.Dir.{Callback, BlockWalk, Reply, call}
use advfs_fuse.Dir.Items.{Item, live, dead, gap, unnamed}
use advfs_fuse.Dir.Walk.{report}
use advfs_fuse.Dir.Read.{
  dir_resolve_extents, original_dir, dir_pages, cap_pages, dir_read_full_clone, dir_read_full,
  dir_read,
}
use advfs_fuse.Dir.Read.Listing.{PageOf, Listing}
use advfs_fuse.Dir.Read.Reported.{dir_read_full_clone_total}
use advfs_fuse.FuseOps.{FuseCtx}
use advfs_fuse.FuseOps.Path.{
  c_str, is_equal, lookup_cb, LookupState, found_or_enoent, dir_read_at, ctx_dir_read,
  resolve_component,
}

pub is_equal-eq : (a b : List ℕ) → is_equal a b ≡ true → a ≡ b
unfolding is_equal
is_equal-eq [] [] e = refl
is_equal-eq [] (b ∷ bs) e = cc
is_equal-eq (a ∷ as') [] e = cc
is_equal-eq (a ∷ as') (b ∷ bs) e = elim (Bool-cases (a == b)) [
  | inl h ↦
      let t : is_equal as' bs ≡ true = sym (ap (λ x. x && is_equal as' bs) h) ∙ e in
      let p = ==→eq a b h in let q = is_equal-eq as' bs t in cc
  | inr n ↦ let f : false ≡ true = sym (ap (λ x. x && is_equal as' bs) n) ∙ e in cc
]

is_equal_same : (a : List ℕ) → is_equal a a ≡ true
unfolding is_equal
is_equal_same [] = refl
is_equal_same (a ∷ as') = ap (λ x. x && is_equal as' as') (eq→== a a refl) ∙ is_equal_same as'

pub is_equal-ne : (a b : List ℕ) → is_equal a b ≡ false → a ≢ b
is_equal-ne a b e =
    λ p. let t : is_equal a b ≡ true = ap (is_equal a) (sym p) ∙ is_equal_same a in cc

-- The item is not a live entry with this name.
abbrev pub Other : List ℕ → Item → Type 0
Other name (live n tag) = c_str n ≢ name
Other name (dead n tag) = Unit
Other name gap = Unit
Other name unnamed = Unit

-- The first live entry with this name has this tag.
pub data FirstLive (name : List ℕ) (tag : BfTag) : List Item → Type 0 where
  here : {n : List ℕ} {its : List Item} → c_str n ≡ name → FirstLive name tag (live n tag ∷ its)
  there :
      {it : Item} {its : List Item}
      → Other name it
      → FirstLive name tag its
      → FirstLive name tag (it ∷ its)

-- How a search ends, as the user data and as what the items hold.
abbrev pub Outcome : List ℕ → List Item → LookupState → Type 0
Outcome name its ls =
    ((tag : BfTag) × (ls ≡ some tag) × FirstLive name tag its)
    ⊎ ((ls ≡ none) × All (Other name) its)

skipped :
    (name : List ℕ) (it : Item) (its : List Item) (ls : LookupState)
    → Other name it
    → Outcome name its ls
    → Outcome name (it ∷ its) ls
skipped name it its ls o (inl (tag, e, f)) = inl (tag, e, there o f)
skipped name it its ls o (inr (e, a)) = inr (e, (o, a))

-- The walk behind the answer for a live entry.
unfoldable pub after_live : List ℕ → List Item → ℕ → Reply LookupState → LookupState
after_live name its deleted r =
    let found : BlockWalk LookupState = record {
      stopped = true;
      user = r.user;
      deleted = deleted;
    } in
    (if r.stop then found else report (some (lookup_cb name)) none its r.user deleted).user

searched_live :
    (name n : List ℕ) (tag : BfTag) (its : List Item) (deleted : ℕ)
    → Outcome name its (report (some (lookup_cb name)) none its none deleted).user
    → Outcome name (live n tag ∷ its) (after_live name its deleted (lookup_cb name n tag none))
unfolding after_live lookup_cb
searched_live name n tag its deleted later =
    let hit : Reply LookupState = record { stop = true; user = some tag } in
    let miss : Reply LookupState = record { stop = false; user = none } in
    elim (Bool-cases (is_equal (c_str n) name)) [
      | inl h ↦
          let e = if_true (is_equal (c_str n) name) hit miss h in
          inl (tag, ap (after_live name its deleted) e, here (is_equal-eq (c_str n) name h))
      | inr d ↦
          let e = if_false (is_equal (c_str n) name) hit miss d in
          rw (e) (skipped name (live n tag) its _ (is_equal-ne (c_str n) name d) later)
    ]

searched :
    (name : List ℕ) (its : List Item) (deleted : ℕ)
    → Outcome name its (report (some (lookup_cb name)) none its none deleted).user
unfolding call after_live
searched name [] deleted = inr (refl, tt)
searched name (live n tag ∷ its) deleted =
    searched_live name n tag its deleted (searched name its deleted)
searched name (dead n tag ∷ its) deleted =
    skipped name (dead n tag) its _ tt (searched name its (deleted + 1))
searched name (gap ∷ its) deleted = skipped name gap its _ tt (searched name its (deleted + 1))
searched name (unnamed ∷ its) deleted = skipped name unnamed its _ tt (searched name its deleted)

-- The context's pointers in place.
pub ctx_dir_read_is :
    {U : Type 0} (ctx : FuseCtx) (vol : Volume) (domain : Domain) (extents : List Extent)
    (dir_tag : BfTag) (cb : Callback U) (user : U)
    → ctx.vol ≡ some vol
    → ctx.domain ≡ some domain
    → ctx.fs_tag_extents ≡ extents
    → ctx_dir_read ctx dir_tag cb user
      ≡ dir_read_full_clone (some cb) none vol domain extents ctx.fs_tag dir_tag none user
unfolding ctx_dir_read dir_read_at dir_read dir_read_full
ctx_dir_read_is ctx vol domain extents dir_tag cb user v d fs =
    ap (λ o. dir_read_at o ctx.domain ctx.fs_tag_extents ctx.fs_tag dir_tag cb user) v
    ∙ ap (λ o. dir_read_at (some vol) o ctx.fs_tag_extents ctx.fs_tag dir_tag cb user) d
    ∙ ap (λ l. dir_read_at (some vol) (some domain) l ctx.fs_tag dir_tag cb user) fs

pub no_original :
    (vol : Volume) (domain : Domain) (dir_tag : BfTag)
    → original_dir vol domain none dir_tag ≡ ok none
unfolding original_dir
no_original vol domain dir_tag = refl

pub component_is :
    (ctx : FuseCtx) (dir_tag : BfTag) (name : List ℕ) (ls : LookupState)
    → ctx_dir_read ctx dir_tag (lookup_cb name) none ≡ ok ls
    → resolve_component ctx dir_tag name ≡ found_or_enoent ls
unfolding resolve_component
component_is ctx dir_tag name ls e = ap (λ r. r >>= found_or_enoent) e

ended :
    (ctx : FuseCtx) (dir_tag : BfTag) (name : List ℕ) (its : List Item) (ls : LookupState)
    → resolve_component ctx dir_tag name ≡ found_or_enoent ls
    → Outcome name its ls
    → ((tag : BfTag) × (resolve_component ctx dir_tag name ≡ ok tag) × FirstLive name tag its)
      ⊎ ((resolve_component ctx dir_tag name ≡ err enoent) × All (Other name) its)
unfolding found_or_enoent
ended ctx dir_tag name its ls e (inl (tag, q, f)) = inl (tag, e ∙ ap found_or_enoent q, f)
ended ctx dir_tag name its ls e (inr (q, a)) = inr (e ∙ ap found_or_enoent q, a)

-- resolve_component on a mounted fileset that is no clone, where every page of the directory is there
-- or in a hole: it returns the tag of the first live entry with the name, and fails with ENOENT exactly where no live entry has it.
-- Names are compared up to their first 0.
pub resolve_component-FirstLive :
    (ctx : FuseCtx) (vol : Volume) (domain : Domain) (x : Extent) (rest extents : List Extent)
    (dir_tag : BfTag) (name : List ℕ)
    → ctx.is_clone ≡ false
    → ctx.vol ≡ some vol
    → ctx.domain ≡ some domain
    → ctx.fs_tag_extents ≡ x ∷ rest
    → dir_tag.num ≢ 0
    → dir_resolve_extents domain (x ∷ rest) ctx.fs_tag dir_tag ≡ ok extents
    → ((i : ℕ)
        → i < cap_pages (dir_pages extents none)
        → (shown : Option Bytes) × PageOf domain extents none i shown)
    → (its : List Item) × Listing domain extents none 0 (cap_pages (dir_pages extents none)) its
      × (((tag : BfTag) × (resolve_component ctx dir_tag name ≡ ok tag) × FirstLive name tag its)
          ⊎ ((resolve_component ctx dir_tag name ≡ err enoent) × All (Other name) its))
resolve_component-FirstLive ctx vol domain x rest extents dir_tag name plain v d fs nz resolved
      given =
    let (its, ls, reads) =
      dir_read_full_clone_total (some (lookup_cb name)) none vol domain x rest extents ctx.fs_tag
        dir_tag none none none nz resolved (no_original vol domain dir_tag) given in
    let e =
      component_is ctx dir_tag name (report (some (lookup_cb name)) none its none 0).user
        (ctx_dir_read_is ctx vol domain (x ∷ rest) dir_tag (lookup_cb name) none v d fs ∙ reads) in
    (its, ls, ended ctx dir_tag name its _ e (searched name its 0))
