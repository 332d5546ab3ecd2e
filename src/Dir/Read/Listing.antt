-- ===== src/Dir/Read/Listing.antt =====
-- The pages of a directory of src/dir.c, its own or those of the original fileset, and their items.
use advfs_fuse.Base.{
  ℕ, zero, suc, true, false, ◌+◌, ◌*◌, ◌≡◌, refl, ap, ◌∙◌, ◌⊎◌, inl, inr, List, [], ◌∷◌, ◌++◌,
  Option, none, some, if_true, if_false, ok, err, ◌>>=◌, enoent, einval,
}
use advfs_fuse.Ods.{Bytes, advance, blksz, blks_per_pg}
use advfs_fuse.Volume.{fresh}
use advfs_fuse.Domain.{Domain}
use advfs_fuse.Extents.{Extent}
use advfs_fuse.Extents.ReadData.{PageRead, read_data_dom, read_data_core}
use advfs_fuse.Dir.Items.{Item, Lays}
use advfs_fuse.Dir.Read.{have_page, own_page, orig_page, own_or, dir_page}

-- A page that is read from a map, and one that the map does not give: a permanent hole, or a page
-- beyond the map.
pub data Present (domain : Domain) (extents : List Extent) (pg : ℕ) (b : Bytes) : Type 0 where
  there :
      (r : PageRead)
      → read_data_dom (some domain) extents pg fresh ≡ ok r
      → r.is_perm_hole ≡ false
      → r.bytes ≡ b
      → Present domain extents pg b

pub data Absent (domain : Domain) (extents : List Extent) (pg : ℕ) : Type 0 where
  hole :
      (r : PageRead)
      → read_data_dom (some domain) extents pg fresh ≡ ok r
      → r.is_perm_hole ≡ true
      → Absent domain extents pg
  beyond : read_data_dom (some domain) extents pg fresh ≡ err enoent → Absent domain extents pg

-- The page that the directory shows: its own, or else the original's, or else none.
pub data PageOf (domain : Domain) (extents : List Extent) (orig : Option (List Extent)) (pg : ℕ)
    : Option Bytes → Type 0 where
  from_own : {b : Bytes} → Present domain extents pg b → PageOf domain extents orig pg (some b)
  from_original :
      {b : Bytes} (o : List Extent)
      → (extents ≡ []) ⊎ Absent domain extents pg
      → orig ≡ some o
      → Present domain o pg b
      → PageOf domain extents orig pg (some b)
  neither :
      (extents ≡ []) ⊎ Absent domain extents pg
      → (orig ≡ none) ⊎ ((o : List Extent) × (orig ≡ some o) × Absent domain o pg)
      → PageOf domain extents orig pg none

-- The items of the blocks of a page, from block `blk` on.
pub data Blocks (page : Bytes) : ℕ → ℕ → List Item → Type 0 where
  end : {blk : ℕ} → Blocks page blk zero []
  in_block :
      {blk left : ℕ} {its rest : List Item}
      → Lays (advance page (blk * blksz)) 0 its
      → Blocks page (blk + 1) left rest
      → Blocks page blk (suc left) (its ++ rest)

-- The items of the pages of a directory, from page `pg` on.
pub data Listing (domain : Domain) (extents : List Extent) (orig : Option (List Extent))
    : ℕ → ℕ → List Item → Type 0 where
  end : {pg : ℕ} → Listing domain extents orig pg zero []
  on_page :
      {pg left : ℕ} {its rest : List Item} (b : Bytes)
      → PageOf domain extents orig pg (some b)
      → Blocks b 0 blks_per_pg its
      → Listing domain extents orig (pg + 1) left rest
      → Listing domain extents orig pg (suc left) (its ++ rest)
  skip :
      {pg left : ℕ} {rest : List Item}
      → PageOf domain extents orig pg none
      → Listing domain extents orig (pg + 1) left rest
      → Listing domain extents orig pg (suc left) rest

Present-have_page :
    (domain : Domain) (extents : List Extent) (pg : ℕ) (b : Bytes)
    → Present domain extents pg b
    → have_page (read_data_dom (some domain) extents pg fresh) ≡ ok (some b)
unfolding have_page
Present-have_page domain extents pg b (there r e shown is) =
    ap have_page e ∙ if_false r.is_perm_hole _ _ shown ∙ ap (λ x. ok (some x)) is

Absent-have_page :
    (domain : Domain) (extents : List Extent) (pg : ℕ)
    → Absent domain extents pg
    → have_page (read_data_dom (some domain) extents pg fresh) ≡ ok none
unfolding have_page
Absent-have_page domain extents pg (hole r e h) = ap have_page e ∙ if_true r.is_perm_hole _ _ h
Absent-have_page domain extents pg (beyond e) = ap have_page e

own_page-Present :
    (domain : Domain) (extents : List Extent) (pg : ℕ) (b : Bytes)
    → Present domain extents pg b
    → own_page domain extents pg ≡ ok (some b)
unfolding own_page
own_page-Present domain [] pg b (there r e shown is) =
    let nothing : err einval ≡ ok r = unfold read_data_dom read_data_core in e in cc
own_page-Present domain (x ∷ rest) pg b p = Present-have_page domain (x ∷ rest) pg b p

own_page-Absent :
    (domain : Domain) (extents : List Extent) (pg : ℕ)
    → (extents ≡ []) ⊎ Absent domain extents pg
    → own_page domain extents pg ≡ ok none
unfolding own_page
own_page-Absent domain [] pg a = refl
own_page-Absent domain (x ∷ rest) pg (inl e) = cc
own_page-Absent domain (x ∷ rest) pg (inr a) = Absent-have_page domain (x ∷ rest) pg a

own_first :
    (domain : Domain) (extents : List Extent) (orig : Option (List Extent)) (pg : ℕ)
    (own : Option Bytes)
    → own_page domain extents pg ≡ ok own
    → dir_page domain extents orig pg ≡ own_or own (orig_page domain orig pg)
unfolding dir_page
own_first domain extents orig pg own e =
    ap (λ r. r >>= λ own'. own_or own' (orig_page domain orig pg)) e

orig_page-Present :
    (domain : Domain) (orig : Option (List Extent)) (o : List Extent) (pg : ℕ) (b : Bytes)
    → orig ≡ some o
    → Present domain o pg b
    → orig_page domain orig pg ≡ ok (some b)
unfolding orig_page
orig_page-Present domain orig o pg b e p =
    ap (λ x. orig_page domain x pg) e ∙ Present-have_page domain o pg b p

orig_page-Absent :
    (domain : Domain) (orig : Option (List Extent)) (pg : ℕ)
    → (orig ≡ none) ⊎ ((o : List Extent) × (orig ≡ some o) × Absent domain o pg)
    → orig_page domain orig pg ≡ ok none
unfolding orig_page
orig_page-Absent domain orig pg (inl e) = ap (λ x. orig_page domain x pg) e
orig_page-Absent domain orig pg (inr (o, e, a)) =
    ap (λ x. orig_page domain x pg) e ∙ Absent-have_page domain o pg a

pub PageOf-dir_page :
    (domain : Domain) (extents : List Extent) (orig : Option (List Extent)) (pg : ℕ)
    (shown : Option Bytes)
    → PageOf domain extents orig pg shown
    → dir_page domain extents orig pg ≡ ok shown
unfolding own_or
PageOf-dir_page domain extents orig pg shown (from_own {b = b} p) =
    own_first domain extents orig pg (some b) (own_page-Present domain extents pg b p)
PageOf-dir_page domain extents orig pg shown (from_original {b = b} o a e p) =
    own_first domain extents orig pg none (own_page-Absent domain extents pg a)
    ∙ orig_page-Present domain orig o pg b e p
PageOf-dir_page domain extents orig pg shown (neither a n) =
    own_first domain extents orig pg none (own_page-Absent domain extents pg a)
    ∙ orig_page-Absent domain orig pg n
