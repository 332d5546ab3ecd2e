-- ===== src/Filedata/Copy/Total.antt =====
-- copy_bitfile_bytes ends, and succeeds where the pages can be read.
use advfs_fuse.Base.{
  ℕ, zero, suc, ◌+◌, ◌-◌, ◌*◌, ◌/◌, ◌%◌, ◌≤◌, ◌<◌, ◌≡◌, ◌∙◌, ◌≢◌, List, Option, arith, ◌==◌,
  if◌then◌else◌, if_true, if_false, eq→==, ne→==, Result, ok, ◌>>=◌,
}
use native.Mathlib.Decide.{ℕ_discrete}
use native.Mathlib.Nat.{mod-eq_of_lt}
use advfs_fuse.Ods.{Bytes, pgsz, u32_mod, u64_mod}
use advfs_fuse.Domain.{Domain}
use advfs_fuse.Extents.{Extent}
use advfs_fuse.Filedata.Copy.{
  Fallback, Page, bitfile_page, copy_chunk, copy_loop, copy_bitfile_bytes,
}
use advfs_fuse.Filedata.Copy.Content.{chunk_of, chunk_bounds}

-- Every page of the bytes up to `stop` can be read, while the fallback context satisfies `I`.
abbrev pub Serves : Domain → List Extent → (Option Fallback → Type 0) → ℕ → Type 0
Serves domain extents I stop =
    (fb : Option Fallback) (pg : ℕ) (buf : Bytes)
    → I fb
    → pg * pgsz < stop
    → (p : Page) × (bitfile_page domain extents fb pg buf ≡ ok p) × I p.fb

round_on :
    (dst : Bytes) {dst' : Bytes} (len : ℕ) (p : Page) (read : Result Page)
    (next : Page → Result Bytes)
    → len ≢ 0
    → read ≡ ok p
    → next p ≡ ok dst'
    → (if len == 0 then ok dst else (read >>= next)) ≡ ok dst'
round_on dst len p read next some_left e f =
    if_false (len == 0) _ _ (ne→== len 0 some_left) ∙ rw e f

module _ (domain : Domain) (extents : List Extent) (I : Option Fallback → Type 0) (stop : ℕ)
    (serves : Serves domain extents I stop) where
  copy_loop_total :
      (fuel byte_off : ℕ) (dst : Bytes) (pos len : ℕ) (fb : Option Fallback) (buf : Bytes)
      → byte_off + len ≤ u32_mod * pgsz
      → byte_off + len ≤ stop
      → len ≤ fuel
      → I fb
      → (dst' : Bytes) × (copy_loop fuel domain extents byte_off dst pos len fb buf ≡ ok dst')
  unfolding copy_loop
  copy_loop_total zero byte_off dst pos len fb buf small in_stop enough inv =
      (dst, if_true (len == 0) _ _ (eq→== len 0 (omega arith)))
  copy_loop_total (suc fuel) byte_off dst pos len fb buf small in_stop enough inv =
      elim (ℕ_discrete len 0) [
        | yes nil ↦ (dst, if_true (len == 0) _ _ (eq→== len 0 nil))
        | no some_left ↦
            let pg = byte_off / pgsz % u32_mod in
            let in_pg = byte_off % pgsz in
            let chunk = chunk_of len (pgsz - in_pg) in
            let next = (byte_off + chunk) % u64_mod in
            let pg_is : pg ≡ byte_off / pgsz = mod-eq_of_lt (omega arith) in
            let (pos_chunk, le, fits) =
              chunk_bounds len (pgsz - in_pg) (omega arith) (omega arith) in
            let next_is : next ≡ byte_off + chunk = mod-eq_of_lt (omega arith) in
            let (p, read, inv') = serves fb pg buf inv (omega arith) in
            let (dst', later) =
              copy_loop_total fuel next (copy_chunk dst pos chunk p.bytes in_pg) (pos + chunk)
                (len - chunk) p.fb p.bytes (omega arith) (omega arith) (omega arith) inv' in
            (
              dst',
              round_on dst len p (bitfile_page domain extents fb pg buf) _ some_left read later,
            )
      ]

  -- copy_bitfile_bytes succeeds where every page of the range can be read: its loop ends, since each
  -- round copies a byte at least.
  pub copy_bitfile_bytes_total :
      (byte_off : ℕ) (dst : Bytes) (pos len : ℕ) (fb : Option Fallback) (buf : Bytes)
      → byte_off + len ≤ u32_mod * pgsz
      → byte_off + len ≤ stop
      → I fb
      → (dst' : Bytes) × (copy_bitfile_bytes domain extents byte_off dst pos len fb buf ≡ ok dst')
  unfolding copy_bitfile_bytes
  copy_bitfile_bytes_total byte_off dst pos len fb buf small in_stop inv =
      copy_loop_total len byte_off dst pos len fb buf small in_stop (omega arith) inv
