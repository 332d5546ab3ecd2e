-- ===== src/Filedata/Copy.antt =====
-- The clone fallback and copy_bitfile_bytes of src/filedata.c.
pub mod Content
pub mod Total
pub mod Plain
pub mod Outside
pub mod Once
pub mod Clone
use advfs_fuse.Base.{
  ℕ, zero, suc, Bool, true, false, ◌+◌, ◌-◌, ◌/◌, ◌%◌, ◌&&◌, List, [], ◌∷◌, Option, none, some, ltb,
  leb, ◌==◌, if◌then◌else◌, Result, stuck, ok, err, ◌>>=◌, enoent, Errno,
}
use advfs_fuse.Ods.{Bytes, BfTag, pgsz, u32_mod, u64_mod}
use advfs_fuse.Volume.{Volume}
use advfs_fuse.Domain.{Domain}
use advfs_fuse.Extents.{Extent, max_extents}
use advfs_fuse.Extents.ReadData.{PageRead, zero_page, read_data_dom}
use advfs_fuse.Filedata.{McellAt, resolve_tag_mcell}
use advfs_fuse.Filedata.Records.{read_file_extents}
use advfs_fuse.Fileset.{fileset_tag_extents}

-- `resolved` of `clone_fallback_t`: 0, -1, or 1 with `orig_extents`.
pub data Memo : Type 0 where
  untried unavailable : Memo
  ready : List Extent → Memo

-- `clone_fallback_t`
pub record Fallback : Type 0 where
  pub vol : Volume
  pub domain : Domain
  pub orig_fs_tag : BfTag
  pub file_tag : BfTag
  pub resolved : Memo

-- The extent map of the file's counterpart in the original fileset: the three steps of
-- clone_fallback_resolve.
unfoldable pub original_extents : Volume → Domain → BfTag → BfTag → Result (List Extent)
unfolding fileset_tag_extents resolve_tag_mcell read_file_extents
original_extents vol domain orig_fs_tag file_tag =
    fileset_tag_extents vol domain orig_fs_tag max_extents >>= λ orig_fs_extents.
    resolve_tag_mcell domain orig_fs_extents orig_fs_tag file_tag >>= λ at.
    read_file_extents domain at max_extents

-- What clone_fallback_resolve stores in `resolved`.
unfoldable pub memo_of : Result (List Extent) → Result Memo
memo_of stuck = stuck
memo_of (err e) = ok unavailable
memo_of (ok orig_extents) = ok (ready orig_extents)

-- clone_fallback_resolve; the C function returns 0 if the memo is `ready` then, and -1 if not.
unfoldable pub clone_fallback_resolve : Fallback → Result Fallback
unfolding original_extents memo_of
clone_fallback_resolve fb = elim fb.resolved [
  | untried ↦ memo_of (original_extents fb.vol fb.domain fb.orig_fs_tag fb.file_tag) >>= λ m.
      ok (record fb { resolved = m })
  | unavailable ↦ ok fb
  | ready orig_extents ↦ ok fb
]

-- A page beyond the extent map reads as zeros.
unfoldable pub or_zeros : Result PageRead → Bytes → Result PageRead
unfolding zero_page
or_zeros stuck buf = stuck
or_zeros (ok r) buf = ok r
or_zeros (err e) buf = elim e [
  | enoent ↦ ok (record { bytes = zero_page buf; is_perm_hole = false })
  | other ↦ err other
]

-- The part of clone_fallback_read_page behind the resolution.
unfoldable pub original_page : Domain → Memo → ℕ → Bytes → Result Bytes
unfolding zero_page or_zeros read_data_dom
original_page domain untried pg page_buf = ok (zero_page page_buf)
original_page domain unavailable pg page_buf = ok (zero_page page_buf)
original_page domain (ready orig_extents) pg page_buf =
    or_zeros (read_data_dom (some domain) orig_extents pg page_buf) page_buf >>= λ r.
    ok (if r.is_perm_hole then zero_page r.bytes else r.bytes)

-- The fallback context and the page buffer, behind the reading of one page.
pub record Page : Type 0 where
  pub fb : Option Fallback
  pub bytes : Bytes

-- clone_fallback_read_page
unfoldable pub clone_fallback_read_page : Fallback → ℕ → Bytes → Result Page
unfolding clone_fallback_resolve original_page
clone_fallback_read_page fb pg page_buf = clone_fallback_resolve fb >>= λ fb'.
    original_page fb'.domain fb'.resolved pg page_buf >>= λ b.
    ok (record { fb = some fb'; bytes = b })

-- The read of one page in copy_bitfile_bytes, with or without a fallback context.
unfoldable pub bitfile_page : Domain → List Extent → Option Fallback → ℕ → Bytes → Result Page
unfolding or_zeros read_data_dom clone_fallback_read_page
bitfile_page domain extents none pg page_buf =
    or_zeros (read_data_dom (some domain) extents pg page_buf) page_buf >>= λ r.
    ok (record { fb = none; bytes = r.bytes })
bitfile_page domain extents (some fb) pg page_buf =
    or_zeros (read_data_dom (some domain) extents pg page_buf) page_buf >>= λ r.
    elim r.is_perm_hole [
      | true ↦ clone_fallback_read_page fb pg r.bytes
      | false ↦ ok (record { fb = some fb; bytes = r.bytes })
    ]

-- memcpy of `chunk` bytes from page_buf + in_pg to dst + pos.
unfoldable pub copy_chunk : Bytes → ℕ → ℕ → Bytes → ℕ → Bytes
copy_chunk dst pos chunk page_buf in_pg i =
    if leb pos i && ltb i (pos + chunk) then page_buf (in_pg + (i - pos)) else dst i

-- The loop of copy_bitfile_bytes on fuel: `pos` bytes of dst are written, `len` are to go.
unfoldable pub copy_loop :
    ℕ → Domain → List Extent → ℕ → Bytes → ℕ → ℕ → Option Fallback → Bytes → Result Bytes
unfolding bitfile_page copy_chunk
copy_loop zero domain extents byte_off dst pos len fb page_buf = if len == 0 then ok dst else stuck
copy_loop (suc fuel) domain extents byte_off dst pos len fb page_buf =
    let in_pg = byte_off % pgsz in
    let chunk = if ltb len (pgsz - in_pg) then len else pgsz - in_pg in
    let round = bitfile_page domain extents fb (byte_off / pgsz % u32_mod) page_buf >>= λ p.
    copy_loop fuel domain extents ((byte_off + chunk) % u64_mod)
      (copy_chunk dst pos chunk p.bytes in_pg) (pos + chunk) (len - chunk) p.fb p.bytes in
    if len == 0 then ok dst else round

-- copy_bitfile_bytes to dst + pos; each round copies a byte at least.
unfoldable pub copy_bitfile_bytes :
    Domain → List Extent → ℕ → Bytes → ℕ → ℕ → Option Fallback → Bytes → Result Bytes
unfolding copy_loop
copy_bitfile_bytes domain extents byte_off dst pos len fb page_buf =
    copy_loop len domain extents byte_off dst pos len fb page_buf
