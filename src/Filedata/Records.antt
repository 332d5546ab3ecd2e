-- ===== src/Filedata/Records.antt =====
-- find_rec_in_chain and read_file_extents of src/filedata.c: the search of a mcell chain.
pub mod First
use advfs_fuse.Base.{
  ℕ, zero, suc, Bool, true, false, ◌+◌, List, Option, none, some, ltb, ◌==◌, if◌then◌else◌, Result,
  stuck, ok, err, ◌>>=◌, enodata, einval, Errno,
}
use advfs_fuse.Ods.{Bytes, Mcell, rec_data_sz, bsr_xtnts, mcid_page, mcid_cell}
use advfs_fuse.Bmt.{Rec, get_mcell, find_rec}
use advfs_fuse.Domain.{Domain, read_bmt_page_vd}
use advfs_fuse.Extents.{Extent}
use advfs_fuse.Extents.Chain.{cell_or, rec_bytes, extents_read_dom}
use advfs_fuse.Filedata.{McellAt}

abbrev pub max_hops : ℕ
max_hops = 16

-- The mcell at a place, as the chain loops read it.
unfoldable pub mcell_at : Domain → McellAt → Result Mcell
unfolding read_bmt_page_vd cell_or
mcell_at domain at = read_bmt_page_vd domain at.vd at.page >>= λ pg. cell_or einval pg at.cell

-- The place of a mcell's successor; volume 0 means the same volume.
unfoldable pub next_at : McellAt → Mcell → McellAt
next_at at mc = record {
  vd = if mc.next_vd_index == 0 then at.vd else mc.next_vd_index;
  page = mcid_page mc.next_mcid;
  cell = mcid_cell mc.next_mcid;
}

-- The bytes copied from a record into a caller's buffer, and their number.
pub record Copied : Type 0 where
  pub bytes : Bytes
  pub size : ℕ

-- memcpy of at most `buf_sz` bytes of a record's data.
unfoldable pub copy_rec : Mcell → Rec → Bytes → ℕ → Copied
copy_rec mc r buf buf_sz =
    let data_sz = if ltb buf_sz (rec_data_sz r.hdr) then buf_sz else rec_data_sz r.hdr in
    record { bytes = λ i. if ltb i data_sz then rec_bytes mc r i else buf i; size = data_sz }

-- The chain loop of find_rec_in_chain, with the hops that are left.
unfoldable pub search_chain : ℕ → Domain → McellAt → ℕ → Bytes → ℕ → Result Copied
unfolding mcell_at next_at copy_rec find_rec
search_chain zero domain at rec_type buf buf_sz = mcell_at domain at >>= λ mc.
    elim (find_rec mc.records rec_type) [
      | some r ↦ ok (copy_rec mc r buf buf_sz)
      | none ↦ err enodata
    ]
search_chain (suc hops) domain at rec_type buf buf_sz = mcell_at domain at >>= λ mc.
    elim (find_rec mc.records rec_type) [
      | some r ↦ ok (copy_rec mc r buf buf_sz)
      | none ↦
          if mc.next_mcid == 0
          then err enodata
          else search_chain hops domain (next_at at mc) rec_type buf buf_sz
    ]

-- find_rec_in_chain
unfoldable pub find_rec_in_chain : Domain → McellAt → ℕ → Bytes → ℕ → Result Copied
unfolding search_chain
find_rec_in_chain domain at rec_type buf buf_sz =
    search_chain max_hops domain at rec_type buf buf_sz

-- The chain loop of read_file_extents, with the hops that are left.
unfoldable pub search_extents : ℕ → Domain → McellAt → ℕ → Result (List Extent)
unfolding mcell_at next_at find_rec extents_read_dom
search_extents zero domain at max = mcell_at domain at >>= λ mc.
    elim (find_rec mc.records bsr_xtnts) [
      | some r ↦ extents_read_dom (some domain) at.vd at.page at.cell max
      | none ↦ err enodata
    ]
search_extents (suc hops) domain at max = mcell_at domain at >>= λ mc.
    elim (find_rec mc.records bsr_xtnts) [
      | some r ↦ extents_read_dom (some domain) at.vd at.page at.cell max
      | none ↦
          if mc.next_mcid == 0 then err enodata else search_extents hops domain (next_at at mc) max
    ]

-- read_file_extents
unfoldable pub read_file_extents : Domain → McellAt → ℕ → Result (List Extent)
unfolding search_extents
read_file_extents domain at max = search_extents max_hops domain at max
