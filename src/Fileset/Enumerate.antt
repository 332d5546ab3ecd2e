-- ===== src/Fileset/Enumerate.antt =====
-- advfs_fileset_list of src/fileset.c: the filesets of a domain, from the tag directory of its BFSDIR.
pub mod Chain
pub mod Report
use advfs_fuse.Base.{
  ℕ, zero, suc, Bool, true, false, ◌+◌, ◌-◌, List, [], ◌∷◌, Option, none, some, ltb, leb, ◌==◌,
  if◌then◌else◌, Result, stuck, ok, err, ◌>>=◌,
}
use advfs_fuse.Ods.{
  Bytes, BfTag, Mcell, TagDirPage, read_u16, read_u32, read_tag, rec_data_sz, tags_per_pg,
  tmap_vd_index, tmap_mcid, tmap_in_use, mcid_page, mcid_cell,
}
use advfs_fuse.Volume.{Volume, fresh}
use advfs_fuse.Bmt.{Rec, find_rec}
use advfs_fuse.Domain.{AdvId, Domain}
use advfs_fuse.Extents.{Extent, page_count}
use advfs_fuse.Extents.ReadData.{PageRead, read_data}
use advfs_fuse.Extents.Chain.{rec_bytes}
use advfs_fuse.Filedata.{McellAt}
use advfs_fuse.Filedata.Records.{mcell_at, next_at}
use advfs_fuse.Dir.{Reply, bytes_at}
use advfs_fuse.Dir.Mcells.{or_no_mcell}
use advfs_fuse.Fileset.{bfsdir_extents}

-- `adv_bf_set_id_t`
pub record BfSetId : Type 0 where
  pub domain_id : AdvId
  pub dir_tag : BfTag

-- `advfs_fileset_info_t`; the name is its bytes before the 0 that is written into the last one.
pub record FilesetInfo : Type 0 where
  pub name : List ℕ
  pub dir_tag : BfTag
  pub set_id : BfSetId
  pub state : ℕ
  pub fs_dev : ℕ
  pub clone_id : ℕ
  pub clone_cnt : ℕ
  pub orig_set_tag : BfTag
  pub next_clone_set_tag : BfTag

-- ADVFS_BSR_BFS_ATTR
abbrev pub bsr_bfs_attr : ℕ
bsr_bfs_attr = 8

-- sizeof(adv_bf_set_attr_t)
abbrev pub bf_set_attr_sz : ℕ
bf_set_attr_sz = 216

-- The info of a fileset from its mcell's tag and its `adv_bf_set_attr_t`.
unfoldable pub fileset_info : Mcell → Bytes → FilesetInfo
fileset_info mc bfs = record {
  name = bytes_at bfs 88 31;
  dir_tag = mc.tag;
  set_id = record {
    domain_id = record { id_sec = read_u32 bfs 0; id_usec = read_u32 bfs 4 };
    dir_tag = read_tag bfs 8;
  };
  state = read_u16 bfs 48;
  fs_dev = read_u32 bfs 64;
  clone_id = read_u32 bfs 52;
  clone_cnt = read_u32 bfs 56;
  orig_set_tag = read_tag bfs 32;
  next_clone_set_tag = read_tag bfs 24;
}

-- The record found, if it is large enough.
unfoldable pub fileset_of_rec : Mcell → Option Rec → Option FilesetInfo
unfolding fileset_info
fileset_of_rec mc none = none
fileset_of_rec mc (some r) =
    if ltb (rec_data_sz r.hdr) bf_set_attr_sz then none else some (fileset_info mc (rec_bytes mc r))

-- try_fileset_from_mcell; `none` is -1.
unfoldable pub try_fileset : Mcell → Option FilesetInfo
unfolding find_rec fileset_of_rec
try_fileset mc = fileset_of_rec mc (find_rec mc.records bsr_bfs_attr)

-- A find, or what `go` gives where there is none.
unfoldable pub fileset_or :
    Option FilesetInfo → Result (Option FilesetInfo) → Result (Option FilesetInfo)
fileset_or (some info) go = ok (some info)
fileset_or none go = go

-- The search along a mcell chain from the mcell at `at` on, with the hops that are left. A mcell
-- that cannot be had ends it.
unfoldable pub fileset_chain : ℕ → Domain → McellAt → Option Mcell → Result (Option FilesetInfo)
unfolding try_fileset fileset_or mcell_at next_at or_no_mcell
fileset_chain hops domain at none = ok none
fileset_chain zero domain at (some mc) = fileset_or (try_fileset mc) (ok none)
fileset_chain (suc hops) domain at (some mc) =
    let later = or_no_mcell (mcell_at domain (next_at at mc)) >>= λ found.
    fileset_chain hops domain (next_at at mc) found in
    fileset_or (try_fileset mc) (if mc.next_mcid == 0 then ok none else later)

-- Hops that the search takes behind the primary mcell.
abbrev pub max_fileset_hops : ℕ
max_fileset_hops = 8

-- Where a slot of a tag directory page points.
unfoldable pub slot_at : TagDirPage → ℕ → McellAt
unfolding tmap_vd_index tmap_mcid
slot_at page i = record {
  vd = tmap_vd_index page i;
  page = mcid_page (tmap_mcid page i);
  cell = mcid_cell (tmap_mcid page i);
}

-- The fileset of a slot.
unfoldable pub slot_fileset : Domain → TagDirPage → ℕ → Result (Option FilesetInfo)
unfolding tmap_in_use slot_at mcell_at or_no_mcell fileset_chain
slot_fileset domain page i =
    let at = slot_at page i in
    if tmap_in_use page i
    then (or_no_mcell (mcell_at domain at) >>= λ mc. fileset_chain max_fileset_hops domain at mc)
    else ok none

-- MAX_TAG_DIR_PAGES
abbrev pub max_tag_dir_pages : ℕ
max_tag_dir_pages = 16384

-- The count of pages that are scanned.
unfoldable pub tag_dir_pages : List Extent → ℕ
unfolding page_count
tag_dir_pages extents =
    let pages = page_count (some extents) in
    if ltb max_tag_dir_pages pages then max_tag_dir_pages else pages

-- What one tag directory page is worth: one that cannot be read is skipped.
unfoldable pub readable : Result PageRead → Result (Option TagDirPage)
readable stuck = stuck
readable (err e) = ok none
readable (ok r) = ok (some r.bytes)

-- `advfs_fileset_cb`
abbrev pub FilesetCb : Type 0 → Type 0
FilesetCb U = FilesetInfo → U → Reply U

-- Slot 0 of page 0 is the head of the free list.
unfoldable pub first_slot : ℕ → ℕ
first_slot pg = if pg == 0 then 1 else 0

module _ {U : Type 0} where
  -- The test of a callback's answer; `go` is what follows.
  unfoldable pub unless_stop : Reply U → (U → Result (Reply U)) → Result (Reply U)
  unless_stop r go = if r.stop then ok r else go r.user

  -- The callback for a find.
  unfoldable pub call_found : FilesetCb U → Option FilesetInfo → U → Reply U
  call_found cb none user = record { stop = false; user = user }
  call_found cb (some info) user = cb info user

  module _ (cb : FilesetCb U) (vol : Volume) (domain : Domain) where
    -- The loop over the slots of a page, from slot `i` on, with `left` to go.
    unfoldable pub list_slots : ℕ → TagDirPage → ℕ → U → Result (Reply U)
    unfolding slot_fileset call_found unless_stop
    list_slots zero page i user = ok (record { stop = false; user = user })
    list_slots (suc left) page i user = slot_fileset domain page i >>= λ found.
        unless_stop (call_found cb found user) (λ user'. list_slots left page (i + 1) user')

    -- Page `pg`, if it was read.
    unfoldable pub list_page : Option TagDirPage → ℕ → U → Result (Reply U)
    unfolding list_slots first_slot
    list_page none pg user = ok (record { stop = false; user = user })
    list_page (some page) pg user =
        list_slots (tags_per_pg - first_slot pg) page (first_slot pg) user

    -- The loop over the pages, from page `pg` on, with `left` to go.
    unfoldable pub list_pages : ℕ → List Extent → ℕ → U → Result (Reply U)
    unfolding read_data readable list_page unless_stop
    list_pages zero extents pg user = ok (record { stop = false; user = user })
    list_pages (suc left) extents pg user =
        readable (read_data (some vol) extents pg fresh) >>= λ page. list_page page pg user >>= λ r.
        unless_stop r (λ user'. list_pages left extents (pg + 1) user')

    -- advfs_fileset_list once the map of the BFSDIR is known.
    unfoldable pub list_from : List Extent → U → Result U
    unfolding list_pages tag_dir_pages
    list_from [] user = ok user
    list_from (e ∷ rest) user =
        list_pages (tag_dir_pages (e ∷ rest)) (e ∷ rest) 0 user >>= λ r. ok r.user

    -- advfs_fileset_list behind its NULL tests; it returns 0, with the user data.
    unfoldable pub fileset_list : U → Result U
    unfolding bfsdir_extents list_from
    fileset_list user = bfsdir_extents vol domain >>= λ extents. list_from extents user
