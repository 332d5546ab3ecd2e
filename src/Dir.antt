-- ===== src/Dir.antt =====
-- src/dir.c: the entries of a directory block, and the mcell that holds a directory's extents.
pub mod Items
pub mod Walk
pub mod Total
pub mod Mcells
pub mod Read
use advfs_fuse.Base.{
  ℕ, zero, suc, Bool, true, false, not, ◌&&◌, ◌||◌, ◌+◌, ◌-◌, List, [], ◌∷◌, Option, none, some,
  ltb, leb, ◌==◌, if◌then◌else◌, Result, stuck, ok, err, ◌>>=◌,
}
use advfs_fuse.Ods.{Bytes, BfTag, read_u16, read_u32, read_tag, blksz}

abbrev pub dir_entry_hdr_sz : ℕ
dir_entry_hdr_sz = 8

abbrev pub max_dir_name : ℕ
max_dir_name = 255

-- The fields of `adv_dir_entry_t`, and the full tag in the last 8 bytes of an entry.
unfoldable pub tag_num : Bytes → ℕ → ℕ
tag_num block off = read_u32 block off

unfoldable pub entry_size : Bytes → ℕ → ℕ
entry_size block off = read_u16 block (off + 4)

unfoldable pub name_count : Bytes → ℕ → ℕ
name_count block off = read_u16 block (off + 6)

unfoldable pub trailing_tag : Bytes → ℕ → BfTag
unfolding entry_size
trailing_tag block off = read_tag block (off + entry_size block off - 8)

-- The `n` bytes from `off` on.
abbrev pub bytes_at : Bytes → ℕ → ℕ → List ℕ
bytes_at block off zero = []
bytes_at block off (suc n) = block off ∷ bytes_at block (off + 1) n

-- What a callback answers: whether the walk is to stop, and the user data.
pub record Reply (U : Type 0) : Type 0 where
  pub stop : Bool
  pub user : U

-- `advfs_dir_entry_cb`: the name, the tag and the user data.
abbrev pub Callback : Type 0 → Type 0
Callback U = List ℕ → BfTag → U → Reply U

-- How walk_dir_block ends: whether a callback stopped it, the user data and the count of deleted
-- entries.
pub record BlockWalk (U : Type 0) : Type 0 where
  pub stopped : Bool
  pub user : U
  pub deleted : ℕ

-- The test that an entry has room for its name and its tag.
unfoldable pub has_name : Bytes → ℕ → Bool
unfolding entry_size name_count
has_name block off =
    let size = entry_size block off in
    let count = name_count block off in
    ltb 0 count && (leb 20 size && leb (dir_entry_hdr_sz + count + 8) size)

-- The name, cut at 255 bytes.
unfoldable pub entry_name : Bytes → ℕ → List ℕ
unfolding name_count
entry_name block off =
    let count = name_count block off in
    bytes_at block (off + dir_entry_hdr_sz) (if ltb max_dir_name count then max_dir_name else count)

-- Whether the name starts with a byte other than 0.
unfoldable pub is_nonempty : List ℕ → Bool
is_nonempty [] = false
is_nonempty (c ∷ rest) = not (c == 0)

module _ {U : Type 0} where
  -- A callback that may be NULL.
  unfoldable pub call : Option (Callback U) → List ℕ → BfTag → U → Reply U
  call none name tag user = record { stop = false; user = user }
  call (some cb) name tag user = cb name tag user

  -- An entry with tag_num 0.
  unfoldable pub visit_deleted : Option (Callback U) → Bytes → ℕ → U → Reply U
  unfolding has_name entry_name is_nonempty trailing_tag call
  visit_deleted deleted_cb block off user =
      let name = entry_name block off in
      let tag = trailing_tag block off in
      if has_name block off && (not (tag.num == 0) && is_nonempty name)
      then call deleted_cb name tag user
      else record { stop = false; user = user }

  -- A live entry.
  unfoldable pub visit_live : Option (Callback U) → Bytes → ℕ → U → Reply U
  unfolding has_name entry_name trailing_tag call
  visit_live cb block off user =
      if has_name block off
      then call cb (entry_name block off) (trailing_tag block off) user
      else record { stop = false; user = user }

  -- The loop, with the rounds that are left.
  unfoldable pub walk_entries :
      ℕ → Bytes → Option (Callback U) → Option (Callback U) → ℕ → U → ℕ → Result (BlockWalk U)
  unfolding entry_size tag_num visit_deleted visit_live
  walk_entries zero block cb deleted_cb off user deleted =
      if leb (off + dir_entry_hdr_sz) blksz
      then stuck
      else ok (record { stopped = false; user = user; deleted = deleted })
  walk_entries (suc rounds) block cb deleted_cb off user deleted =
      let size = entry_size block off in
      let ended : BlockWalk U = record { stopped = false; user = user; deleted = deleted } in
      let is_deleted = tag_num block off == 0 in
      let reply =
        if is_deleted
        then visit_deleted deleted_cb block off user
        else visit_live cb block off user in
      let deleted' = if is_deleted then deleted + 1 else deleted in
      let round : Result (BlockWalk U) = elim reply.stop [
        | true ↦ ok (record { stopped = true; user = reply.user; deleted = deleted' })
        | false ↦ walk_entries rounds block cb deleted_cb (off + size) reply.user deleted'
      ] in
      if not (leb (off + dir_entry_hdr_sz) blksz)
        || (size == 0 || (ltb size dir_entry_hdr_sz || ltb blksz (off + size)))
      then ok ended
      else round

  -- walk_dir_block; an entry takes 8 bytes at least, so 64 rounds pass the end of a block.
  unfoldable pub walk_dir_block :
      Bytes → Option (Callback U) → Option (Callback U) → U → ℕ → Result (BlockWalk U)
  unfolding walk_entries
  walk_dir_block block cb deleted_cb user deleted =
      walk_entries 64 block cb deleted_cb 0 user deleted
