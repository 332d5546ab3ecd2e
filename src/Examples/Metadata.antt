-- ===== src/Examples/Metadata.antt =====
-- BMT page resolution and the records of an mcell.
use advfs_fuse.Base.{
  ℕ, ◌+◌, ◌≤◌, ◌≡◌, refl, ◌≢◌, ◌↔◌, true, List, [], ◌∷◌, none, some, arith, get_or, ok, err, enoent,
}
use advfs_fuse.Ods.{
  Bytes, Xtnt, xtnt_term, bsc_r_sz, bsr_nil, rec_type, rec_data_sz, rec_bcnt, read_u32,
}
use advfs_fuse.Util.{bmt_resolve_page}
use advfs_fuse.Util.Resolve.{Resolves, resolve_page-iff-Resolves}
use advfs_fuse.Bmt.{Rec, find_rec, next_rec}
use advfs_fuse.Bmt.Records.{IsRec, First, find_rec-iff-First, find_rec_bounds, find_rec_local}
use advfs_fuse.Domain.{DomainVd}

abbrev xtnt : ℕ → ℕ → Xtnt
xtnt bs_page vd_blk = record { bs_page = bs_page; vd_blk = vd_blk }

-- Pages 0 and 1 at block 32, pages 2 to 9 at block 1600, and the end of the BMT.
abbrev bmt_map : List Xtnt
bmt_map = xtnt 0 32 ∷ xtnt 2 1600 ∷ xtnt 10 xtnt_term ∷ []

resolves : bmt_resolve_page true (some bmt_map) 5 ≡ ok 103
unfolding bmt_resolve_page
resolves = refl

past_the_end : bmt_resolve_page true (some bmt_map) 10 ≡ err enoent
unfolding bmt_resolve_page
past_the_end = refl

resolve_page-iff-Resolves_example :
    (bmt_resolve_page true (some bmt_map) 5 ≡ ok 103) ↔ Resolves bmt_map 5 103
resolve_page-iff-Resolves_example =
    resolve_page-iff-Resolves (xtnt 0 32) (xtnt 2 1600 ∷ xtnt 10 xtnt_term ∷ []) 5 103 (omega arith)
      (omega arith) (omega arith)

-- A record of type 2 with 4 bytes of data, one of type 1 with 8, then nil.
abbrev area : Bytes
area i = get_or (8 ∷ 0 ∷ 2 ∷ 0 ∷ 7 ∷ 7 ∷ 7 ∷ 7 ∷ 12 ∷ 0 ∷ 1 ∷ 0 ∷ 9 ∷ 9 ∷ 9 ∷ 9 ∷ []) i 0

abbrev second : Rec
second = record { offset = 8; hdr = 0x1_000c }

finds : find_rec area 1 ≡ some second
unfolding find_rec
finds = refl

steps : next_rec area 0 ≡ some 8
unfolding next_rec
steps = refl

find_rec-iff-First_example :
    (find_rec area 1 ≡ some second)
    ↔ ((second.hdr ≡ read_u32 area second.offset) × First area 1 0 second.offset)
find_rec-iff-First_example = find_rec-iff-First area 1 second

find_rec_bounds_example :
    (second.offset + 4 + rec_data_sz second.hdr ≤ bsc_r_sz)
    × (rec_type second.hdr ≡ 1)
    × (◌≢◌ {A = ℕ} 1 bsr_nil)
find_rec_bounds_example = find_rec_bounds area 1 second finds

first_record : IsRec area 0
unfolding rec_type rec_bcnt
first_record = omega arith

find_rec_local_example : find_rec area 1 ≡ find_rec area 1
find_rec_local_example = find_rec_local area area 1 (λ i h. refl)

abbrev vd : ℕ → DomainVd
vd i = record { vol = none; vd_index = i; bmt_map = bmt_map }
