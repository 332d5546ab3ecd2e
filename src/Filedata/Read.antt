-- ===== src/Filedata/Read.antt =====
-- advfs_filedata_stat and filedata_read_impl of src/filedata.c: a file's attributes and contents.
pub mod InBounds
use advfs_fuse.Base.{
  ℕ, Bool, true, false, not, ◌&&◌, ◌+◌, ◌-◌, ◌*◌, ◌^◌, List, [], ◌∷◌, Option, none, some, ltb, leb,
  ◌==◌, if◌then◌else◌, Result, stuck, ok, err, ◌>>=◌, enodata, einval, efbig, Errno,
}
use advfs_fuse.Ods.{
  Bytes, BfTag, pgsz, bsc_r_sz, FsStat, fs_stat_sz, st_size, frag_slot, frag_type, frag_page_offset,
  bmtr_fs_stat, bmtr_fs_data,
}
use advfs_fuse.Volume.{Volume, fresh}
use advfs_fuse.Domain.{Domain}
use advfs_fuse.Extents.{Extent, max_extents, page_count}
use advfs_fuse.Filedata.{McellAt, resolve_tag_mcell}
use advfs_fuse.Filedata.Records.{Copied, find_rec_in_chain, read_file_extents}
use advfs_fuse.Filedata.Copy.{Fallback, untried, copy_bitfile_bytes}

-- A buffer from calloc().
abbrev pub zeros : Bytes
zeros = λ _. 0

-- advfs_filedata_stat; an empty map stands for a NULL one too.
unfoldable pub filedata_stat :
    Option Volume → Option Domain → List Extent → BfTag → BfTag → Result FsStat
unfolding resolve_tag_mcell find_rec_in_chain
filedata_stat none domain fs_tag_extents fs_tag file_tag = err einval
filedata_stat (some vol) none fs_tag_extents fs_tag file_tag = err einval
filedata_stat (some vol) (some domain) [] fs_tag file_tag = err einval
filedata_stat (some vol) (some domain) (e ∷ rest) fs_tag file_tag =
    if file_tag.num == 0
    then err einval
    else resolve_tag_mcell domain (e ∷ rest) fs_tag file_tag >>= λ at.
        find_rec_in_chain domain at bmtr_fs_stat zeros fs_stat_sz >>= λ c. ok c.bytes

abbrev pub frag_slot_sz : ℕ
frag_slot_sz = 1024

-- Tag 1, the fileset's frag file.
abbrev pub frag_file_tag : BfTag
frag_file_tag = record { num = 1; seq = 0 }

-- read_frag_tail: the buffer with the tail of the file.
unfoldable pub read_frag_tail : Domain → List Extent → BfTag → FsStat → Bytes → ℕ → Result Bytes
unfolding resolve_tag_mcell read_file_extents copy_bitfile_bytes frag_slot frag_type
    frag_page_offset
read_frag_tail domain fs_tag_extents fs_tag st buf size =
    let frag_off = frag_page_offset st * pgsz in
    if leb size frag_off
    then err einval
    else if ltb (frag_type st * frag_slot_sz) (size - frag_off)
    then err einval
    else resolve_tag_mcell domain fs_tag_extents fs_tag frag_file_tag >>= λ at.
        read_file_extents domain at max_extents >>= λ frag_extents.
        copy_bitfile_bytes domain frag_extents (frag_slot st * frag_slot_sz) buf frag_off
          (size - frag_off) none fresh

-- `advfs_clone_ctx_t`
pub record CloneCtx : Type 0 where
  pub is_clone : Bool
  pub orig_set_tag : BfTag

-- The fallback context of a clone fileset with a valid original.
unfoldable pub fallback_of : Volume → Domain → BfTag → Option CloneCtx → Option Fallback
fallback_of vol domain file_tag none = none
fallback_of vol domain file_tag (some clone) =
    if clone.is_clone && not (clone.orig_set_tag.num == 0)
    then some (record {
      vol = vol;
      domain = domain;
      orig_fs_tag = clone.orig_set_tag;
      file_tag = file_tag;
      resolved = untried;
    })
    else none

-- Step 5: the extent-mapped pages; no extents leave the buffer as it is.
unfoldable pub copy_mapped :
    Domain → Option Fallback → Result (List Extent) → Bytes → ℕ → Result Bytes
unfolding copy_bitfile_bytes page_count
copy_mapped domain fb stuck buf size = stuck
copy_mapped domain fb (err e) buf size = elim e [ enodata ↦ ok buf | other ↦ err other ]
copy_mapped domain fb (ok []) buf size = ok buf
copy_mapped domain fb (ok (e ∷ rest)) buf size =
    let mapped = page_count (some (e ∷ rest)) * pgsz in
    copy_bitfile_bytes domain (e ∷ rest) 0 buf 0 (if ltb size mapped then size else mapped) fb fresh

-- Steps 4 to 6: the mapped pages, then the frag.
unfoldable pub read_pages :
    Volume
    → Domain
    → List Extent
    → BfTag
    → BfTag
    → Option CloneCtx
    → FsStat
    → McellAt
    → Result Bytes
unfolding read_file_extents copy_mapped fallback_of read_frag_tail st_size frag_type
read_pages vol domain fs_tag_extents fs_tag file_tag clone st at =
    copy_mapped domain (fallback_of vol domain file_tag clone)
      (read_file_extents domain at max_extents) zeros (st_size st)
    >>= λ buf.
        (if frag_type st == 0
          then ok buf
          else read_frag_tail domain fs_tag_extents fs_tag st buf (st_size st))

-- memcpy of the inline data, at most `size` bytes of it.
unfoldable pub copy_inline : Copied → Bytes → ℕ → Bytes
copy_inline c buf size i =
    if ltb i (if ltb size c.size then size else c.size) then c.bytes i else buf i

-- Step 3 for a file without a frag: the data in the mcell, or what `go` gives where there is none.
unfoldable pub inline_or : Result Copied → ℕ → Result Bytes → Result Bytes
unfolding copy_inline
inline_or stuck size go = stuck
inline_or (ok c) size go = ok (copy_inline c zeros size)
inline_or (err e) size go = elim e [ enodata ↦ go | other ↦ err other ]

abbrev pub filedata_max_size : ℕ
filedata_max_size = 16 * 2 ^ 40

-- filedata_read_impl behind the FS_STAT record.
unfoldable pub read_contents :
    Volume → Domain → List Extent → BfTag → BfTag → Option CloneCtx → FsStat → Result Bytes
unfolding resolve_tag_mcell find_rec_in_chain inline_or read_pages st_size frag_type
read_contents vol domain fs_tag_extents fs_tag file_tag clone st =
    if ltb filedata_max_size (st_size st)
    then err efbig
    else if st_size st == 0
    then ok zeros
    else resolve_tag_mcell domain fs_tag_extents fs_tag file_tag >>= λ at.
        let pages = read_pages vol domain fs_tag_extents fs_tag file_tag clone st at in
        (if frag_type st == 0
          then inline_or (find_rec_in_chain domain at bmtr_fs_data fresh bsc_r_sz) (st_size st)
              pages
          else pages)

-- The buffer and the size that are handed out.
pub record FileData : Type 0 where
  pub buf : Bytes
  pub size : ℕ

-- filedata_read_impl: advfs_filedata_read with `none`, advfs_filedata_read_clone with a context.
unfoldable pub filedata_read :
    Option Volume → Option Domain → List Extent → BfTag → BfTag → Option CloneCtx → Result FileData
unfolding filedata_stat read_contents st_size
filedata_read none domain fs_tag_extents fs_tag file_tag clone =
    filedata_stat none domain fs_tag_extents fs_tag file_tag >>= λ st. err einval
filedata_read (some vol) none fs_tag_extents fs_tag file_tag clone =
    filedata_stat (some vol) none fs_tag_extents fs_tag file_tag >>= λ st. err einval
filedata_read (some vol) (some domain) fs_tag_extents fs_tag file_tag clone =
    filedata_stat (some vol) (some domain) fs_tag_extents fs_tag file_tag >>= λ st.
    read_contents vol domain fs_tag_extents fs_tag file_tag clone st >>= λ buf.
    ok (record { buf = buf; size = st_size st })
