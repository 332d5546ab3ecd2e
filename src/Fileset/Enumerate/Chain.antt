-- ===== src/Fileset/Enumerate/Chain.antt =====
-- What the search of advfs_fileset_list of src/fileset.c along a mcell chain finds.
use advfs_fuse.Base.{
  ℕ, zero, suc, ◌≤◌, ◌<◌, ◌≡◌, refl, ap, ◌∙◌, ◌≢◌, Option, none, some, ltb, ◌==◌, if◌then◌else◌,
  if_true, if_false, le→ltb, lt→ltb, eq→==, ne→==, Result, ok, err, ◌>>=◌, Errno,
}
use advfs_fuse.Ods.{Mcell, rec_data_sz}
use advfs_fuse.Bmt.{Rec, find_rec}
use advfs_fuse.Domain.{Domain}
use advfs_fuse.Extents.Chain.{rec_bytes}
use advfs_fuse.Filedata.{McellAt}
use advfs_fuse.Filedata.Records.{mcell_at, next_at}
use advfs_fuse.Dir.Mcells.{or_no_mcell}
use advfs_fuse.Fileset.Enumerate.{
  FilesetInfo, bsr_bfs_attr, bf_set_attr_sz, fileset_info, fileset_of_rec, try_fileset, fileset_or,
  fileset_chain,
}

-- A mcell with the attributes of a fileset, and one without: its first BSR_BFS_ATTR record counts,
-- if it is large enough.
pub data HasSet (mc : Mcell) : FilesetInfo → Type 0 where
  is_set :
      (r : Rec)
      → find_rec mc.records bsr_bfs_attr ≡ some r
      → bf_set_attr_sz ≤ rec_data_sz r.hdr
      → HasSet mc (fileset_info mc (rec_bytes mc r))

pub data NoSet (mc : Mcell) : Type 0 where
  no_rec : find_rec mc.records bsr_bfs_attr ≡ none → NoSet mc
  small :
      (r : Rec)
      → find_rec mc.records bsr_bfs_attr ≡ some r
      → rec_data_sz r.hdr < bf_set_attr_sz
      → NoSet mc

-- What the chain from a place on holds, within a number of hops: the first fileset, or none.
pub data ChainSet (domain : Domain) : ℕ → McellAt → Option FilesetInfo → Type 0 where
  unread :
      {hops : ℕ} {at : McellAt} (code : Errno)
      → mcell_at domain at ≡ err code
      → ChainSet domain hops at none
  hit :
      {hops : ℕ} {at : McellAt} {info : FilesetInfo} (mc : Mcell)
      → mcell_at domain at ≡ ok mc
      → HasSet mc info
      → ChainSet domain hops at (some info)
  last :
      {hops : ℕ} {at : McellAt} (mc : Mcell)
      → mcell_at domain at ≡ ok mc
      → NoSet mc
      → mc.next_mcid ≡ 0
      → ChainSet domain hops at none
  far :
      {at : McellAt} (mc : Mcell)
      → mcell_at domain at ≡ ok mc
      → NoSet mc
      → ChainSet domain zero at none
  next :
      {hops : ℕ} {at : McellAt} {found : Option FilesetInfo} (mc : Mcell)
      → mcell_at domain at ≡ ok mc
      → NoSet mc
      → mc.next_mcid ≢ 0
      → ChainSet domain hops (next_at at mc) found
      → ChainSet domain (suc hops) at found

HasSet-try : (mc : Mcell) (info : FilesetInfo) → HasSet mc info → try_fileset mc ≡ some info
unfolding try_fileset fileset_of_rec
HasSet-try mc info (is_set r e size) =
    ap (fileset_of_rec mc) e
    ∙ if_false (ltb (rec_data_sz r.hdr) bf_set_attr_sz) none _ (le→ltb _ _ size)

NoSet-try : (mc : Mcell) → NoSet mc → try_fileset mc ≡ none
unfolding try_fileset fileset_of_rec
NoSet-try mc (no_rec e) = ap (fileset_of_rec mc) e
NoSet-try mc (small r e size) =
    ap (fileset_of_rec mc) e
    ∙ if_true (ltb (rec_data_sz r.hdr) bf_set_attr_sz) none _ (lt→ltb _ _ size)

-- The search from a place on, its read included.
unfoldable pub search_at : ℕ → Domain → McellAt → Result (Option FilesetInfo)
search_at hops domain at =
    or_no_mcell (mcell_at domain at) >>= λ mc. fileset_chain hops domain at mc

search_read :
    (hops : ℕ) (domain : Domain) (at : McellAt) (r : Result Mcell) (mc : Option Mcell)
    → mcell_at domain at ≡ r
    → or_no_mcell r ≡ ok mc
    → search_at hops domain at ≡ fileset_chain hops domain at mc
unfolding search_at
search_read hops domain at r mc e f =
    ap (λ x. x >>= λ m. fileset_chain hops domain at m) (ap or_no_mcell e ∙ f)

got_mcell : (mc : Mcell) → or_no_mcell (ok mc) ≡ ok (some mc)
unfolding or_no_mcell
got_mcell mc = refl

no_mcell : (code : Errno) → or_no_mcell (err code) ≡ ok none
unfolding or_no_mcell
no_mcell code = refl

-- What follows a mcell without a fileset.
later : ℕ → Domain → McellAt → Mcell → Result (Option FilesetInfo)
later hops domain at mc =
    if mc.next_mcid == 0 then ok none else search_at hops domain (next_at at mc)

pub ChainSet-search :
    (domain : Domain) (hops : ℕ) (at : McellAt) (found : Option FilesetInfo)
    → ChainSet domain hops at found
    → search_at hops domain at ≡ ok found
unfolding fileset_chain fileset_or later search_at
ChainSet-search domain hops at found (unread code e) =
    search_read hops domain at (err code) none e (no_mcell code)
ChainSet-search domain zero at found (hit {info = info} mc e s) =
    search_read zero domain at (ok mc) (some mc) e (got_mcell mc)
    ∙ ap (λ o. fileset_or o (ok none)) (HasSet-try mc info s)
ChainSet-search domain (suc hops) at found (hit {info = info} mc e s) =
    search_read (suc hops) domain at (ok mc) (some mc) e (got_mcell mc)
    ∙ ap (λ o. fileset_or o (later hops domain at mc)) (HasSet-try mc info s)
ChainSet-search domain zero at found (last mc e n z) =
    search_read zero domain at (ok mc) (some mc) e (got_mcell mc)
    ∙ ap (λ o. fileset_or o (ok none)) (NoSet-try mc n)
ChainSet-search domain (suc hops) at found (last mc e n z) =
    search_read (suc hops) domain at (ok mc) (some mc) e (got_mcell mc)
    ∙ ap (λ o. fileset_or o (later hops domain at mc)) (NoSet-try mc n)
    ∙ if_true (mc.next_mcid == 0) (ok none) (search_at hops domain (next_at at mc))
        (eq→== mc.next_mcid 0 z)
ChainSet-search domain zero at found (far mc e n) =
    search_read zero domain at (ok mc) (some mc) e (got_mcell mc)
    ∙ ap (λ o. fileset_or o (ok none)) (NoSet-try mc n)
ChainSet-search domain (suc hops) at found (next mc e n nz rest) =
    search_read (suc hops) domain at (ok mc) (some mc) e (got_mcell mc)
    ∙ ap (λ o. fileset_or o (later hops domain at mc)) (NoSet-try mc n)
    ∙ if_false (mc.next_mcid == 0) (ok none) (search_at hops domain (next_at at mc))
        (ne→== mc.next_mcid 0 nz)
    ∙ ChainSet-search domain hops (next_at at mc) found rest
