-- ===== src/FuseOps.antt =====
-- src/fuse_ops.c: the single-file cache and the read operation on top of it.
pub mod Cached
pub mod Path
pub mod Ops
use advfs_fuse.Base.{
  ℕ, Bool, true, false, ◌&&◌, ◌+◌, ◌-◌, List, Option, none, some, ltb, ◌==◌, if◌then◌else◌, Result,
  ok, ◌>>=◌,
}
use advfs_fuse.Ods.{Bytes, BfTag}
use advfs_fuse.Volume.{Volume}
use advfs_fuse.Domain.{Domain}
use advfs_fuse.Extents.{Extent}
use advfs_fuse.Filedata.Read.{FileData, CloneCtx, filedata_read}

-- `advfs_fuse_ctx_t`: the mounted fileset.
pub record FuseCtx : Type 0 where
  pub vol : Option Volume
  pub domain : Option Domain
  pub fs_tag : BfTag
  pub fs_tag_extents : List Extent
  pub is_clone : Bool
  pub orig_set_tag : BfTag

-- `cache_tag_num`, and `cache_buf` with `cache_size`; `none` is a NULL buffer.
pub record Cache : Type 0 where
  pub tag_num : ℕ
  pub contents : Option FileData

-- The read that a cache miss makes.
unfoldable pub read_whole : FuseCtx → BfTag → Result FileData
unfolding filedata_read
read_whole ctx tag =
    filedata_read ctx.vol ctx.domain ctx.fs_tag_extents ctx.fs_tag tag
      (some (record { is_clone = ctx.is_clone; orig_set_tag = ctx.orig_set_tag }))

-- The cache and its data, behind cache_file_locked.
pub record Filled : Type 0 where
  pub tag_num : ℕ
  pub contents : FileData

-- A miss: the old buffer is freed only once the new one is read.
unfoldable pub fill_cache : FuseCtx → BfTag → Result Filled
unfolding read_whole
fill_cache ctx tag = read_whole ctx tag >>= λ f. ok (record { tag_num = tag.num; contents = f })

-- cache_file_locked
unfoldable pub cache_file : FuseCtx → Cache → BfTag → Result Filled
unfolding fill_cache
cache_file ctx cache tag = elim cache.contents [
  | some f ↦
      if cache.tag_num == tag.num
      then ok (record { tag_num = cache.tag_num; contents = f })
      else fill_cache ctx tag
  | none ↦ fill_cache ctx tag
]

-- The caller's buffer, the count returned, and the cache behind a read.
pub record OpRead : Type 0 where
  pub buf : Bytes
  pub n : ℕ
  pub cache : Cache

-- The copy out of the cached file.
unfoldable pub copy_out_of : Filled → Bytes → ℕ → ℕ → OpRead
copy_out_of filled buf size offset =
    let f = filled.contents in
    let avail = f.size - offset in
    let n = if ltb offset f.size then (if ltb size avail then size else avail) else 0 in
    record {
      buf = λ i. if ltb i n then f.buf (offset + i) else buf i;
      n = n;
      cache = record { tag_num = filled.tag_num; contents = some f };
    }

-- advfs_op_read under the lock, once the tag is known and the offset is not negative.
unfoldable pub op_read : FuseCtx → Cache → BfTag → Bytes → ℕ → ℕ → Result OpRead
unfolding cache_file copy_out_of
op_read ctx cache tag buf size offset =
    cache_file ctx cache tag >>= λ filled. ok (copy_out_of filled buf size offset)
