-- ===== src/Dir/Items.antt =====
-- walk_dir_block reports the entries that a directory block holds.
use advfs_fuse.Base.{
  ℕ, ◌+◌, ◌≤◌, ◌<◌, ◌≡◌, ap, ◌≢◌, ◌⊎◌, true, false, not, ◌&&◌, ◌||◌, List, [], ◌∷◌, arith, ltb, leb,
  ◌==◌, if◌then◌else◌, min,
}
use advfs_fuse.Ods.{Bytes, BfTag, blksz}
use advfs_fuse.Dir.{
  tag_num, entry_size, name_count, trailing_tag, bytes_at, has_name, entry_name, is_nonempty,
}

-- What an entry is: a live file, a deleted file whose name and tag are kept, unused space, or a
-- live entry without room for its name.
pub data Item : Type 0 where
  live dead : List ℕ → BfTag → Item
  gap unnamed : Item

-- An entry with room for its name (at least 1 byte, of which 255 count) and its tag.
pub record Named (block : Bytes) (off : ℕ) (name : List ℕ) (tag : BfTag) : Type 0 where
  pub some_name : 0 < name_count block off
  pub some_size : 20 ≤ entry_size block off
  pub fits : name_count block off + 16 ≤ entry_size block off
  pub name_is : name ≡ bytes_at block (off + 8) (min (name_count block off) 255)
  pub tag_is : tag ≡ trailing_tag block off

abbrev pub IsNameless : Bytes → ℕ → Type 0
IsNameless block off =
    (name_count block off ≡ 0)
    ⊎ ((entry_size block off < 20) ⊎ (entry_size block off < name_count block off + 16))

-- The item that stands at an offset.
pub data Holds (block : Bytes) (off : ℕ) : Item → Type 0 where
  is_live :
      {name : List ℕ} {tag : BfTag}
      → tag_num block off ≢ 0
      → Named block off name tag
      → Holds block off (live name tag)
  is_dead :
      {name : List ℕ} {tag : BfTag}
      → tag_num block off ≡ 0
      → Named block off name tag
      → tag.num ≢ 0
      → is_nonempty name ≡ true
      → Holds block off (dead name tag)
  is_gap :
      tag_num block off ≡ 0
      → IsNameless block off
        ⊎ (((trailing_tag block off).num ≡ 0) ⊎ (is_nonempty (entry_name block off) ≡ false))
      → Holds block off gap
  is_unnamed : tag_num block off ≢ 0 → IsNameless block off → Holds block off unnamed

-- The items from an offset to the end of the block, or to an entry whose size is no size.
pub data Lays (block : Bytes) : ℕ → List Item → Type 0 where
  done : {off : ℕ} → blksz < off + 8 → Lays block off []
  broken :
      {off : ℕ}
      → (entry_size block off < 8) ⊎ (blksz < off + entry_size block off)
      → Lays block off []
  item :
      {off : ℕ} {it : Item} {its : List Item}
      → off + 8 ≤ blksz
      → 8 ≤ entry_size block off
      → off + entry_size block off ≤ blksz
      → Holds block off it
      → Lays block (off + entry_size block off) its
      → Lays block off (it ∷ its)

pub open_guard :
    (off size : ℕ)
    → off + 8 ≤ 512
    → 8 ≤ size
    → off + size ≤ 512
    → (not (leb (off + 8) 512) || (size == 0 || (ltb size 8 || ltb 512 (off + size)))) ≡ false
open_guard off size a b c = ground arith

pub done_guard :
    (off size : ℕ)
    → 512 < off + 8
    → (not (leb (off + 8) 512) || (size == 0 || (ltb size 8 || ltb 512 (off + size)))) ≡ true
done_guard off size a = ground arith

pub broken_guard :
    (off size : ℕ)
    → (size < 8) ⊎ (512 < off + size)
    → (not (leb (off + 8) 512) || (size == 0 || (ltb size 8 || ltb 512 (off + size)))) ≡ true
broken_guard off size a = ground arith

named_test :
    (c s : ℕ) → 0 < c → 20 ≤ s → c + 16 ≤ s → (ltb 0 c && (leb 20 s && leb (8 + c + 8) s)) ≡ true
named_test c s p q r = ground arith

nameless_test :
    (c s : ℕ)
    → (c ≡ 0) ⊎ ((s < 20) ⊎ (s < c + 16))
    → (ltb 0 c && (leb 20 s && leb (8 + c + 8) s)) ≡ false
nameless_test c s p = ground arith

cut_is : (c : ℕ) → (if ltb 255 c then 255 else c) ≡ min c 255
cut_is c = ground arith

module _ (block : Bytes) (off : ℕ) where
  pub Named-has_name :
      {name : List ℕ} {tag : BfTag} → Named block off name tag → has_name block off ≡ true
  unfolding has_name
  Named-has_name n =
      named_test (name_count block off) (entry_size block off) n.some_name n.some_size n.fits

  pub IsNameless-has_name : IsNameless block off → has_name block off ≡ false
  unfolding has_name
  IsNameless-has_name n = nameless_test (name_count block off) (entry_size block off) n

  pub entry_name_is :
      entry_name block off ≡ bytes_at block (off + 8) (min (name_count block off) 255)
  unfolding entry_name
  entry_name_is = ap (bytes_at block (off + 8)) (cut_is (name_count block off))
