-- ===== src/Extents/Chain/Links.antt =====
-- The chain of extent records of a bitfile, as links, and the map that a chain stands for.
use advfs_fuse.Base.{
  ◌≤◌, ℕ, zero, suc, ◌+◌, ◌≡◌, ◌≢◌, Bool, true, false, List, [], ◌∷◌, ◌++◌, none, some,
  if◌then◌else◌, length, ok, min,
}
use advfs_fuse.Ods.{
  Mcell, BmtPage, bsr_xtra_xtnts, bsr_shadow_xtnts, bmt_xtra_xtnts, bmt_shadow_xtnts, mcid_page,
  mcid_cell, xtra_x_cnt, xtra_xtnts, shadow_x_cnt, shadow_xtnts, XtntRec, xtnt_type, bsxmt_stripe,
  segment_size, prim_x_cnt, prim_xtnts, bmt_xtnts,
}
use advfs_fuse.Extents.Stripe.{stripe_interleave}
use advfs_fuse.Bmt.{Rec, get_mcell, find_rec}
use advfs_fuse.Extents.{Extent}
use advfs_fuse.Extents.Chain.{XtntSrc, is_domain, src_read_bmt_page, next_vd, rec_bytes}
use advfs_fuse.Extents.Count.{descriptors}

-- What one chain mcell contributes: a BSR_XTRA_XTNTS or a BSR_SHADOW_XTNTS record's descriptors.
pub record Link : Type 0 where
  pub shadow : Bool
  pub entries : List Extent

-- The link that a mcell on volume `vd` holds; XTRA comes before SHADOW, and every descriptor is
-- tagged with the volume of the mcell.
pub data Holds (mc : Mcell) (vd : ℕ) : Link → Type 0 where
  xtra :
      {l : Link} (r : Rec)
      → find_rec mc.records bsr_xtra_xtnts ≡ some r
      → l.shadow ≡ false
      → l.entries
        ≡ descriptors
            (xtra_xtnts (rec_bytes mc r))
            0
            (min (xtra_x_cnt (rec_bytes mc r)) bmt_xtra_xtnts)
            vd
      → Holds mc vd l
  shadow :
      {l : Link} (r : Rec)
      → find_rec mc.records bsr_xtra_xtnts ≡ none
      → find_rec mc.records bsr_shadow_xtnts ≡ some r
      → l.shadow ≡ true
      → l.entries
        ≡ descriptors
            (shadow_xtnts (rec_bytes mc r))
            0
            (min (shadow_x_cnt (rec_bytes mc r)) bmt_shadow_xtnts)
            vd
      → Holds mc vd l

-- The mcell with a given id on a volume.
pub record IsAt (src : XtntSrc) (vd mcid : ℕ) (mc : Mcell) : Type 0 where
  pub page : BmtPage
  pub read : src_read_bmt_page src vd (mcid_page mcid) ≡ ok page
  pub cell : get_mcell page (mcid_cell mcid) ≡ some mc

-- The links that are reached from a mcell id in at most `hops` hops.
pub data Chain (src : XtntSrc) : ℕ → ℕ → ℕ → List Link → Type 0 where
  ended : {hops vd mcid : ℕ} → mcid ≡ 0 → Chain src hops vd mcid []
  cut : {vd mcid : ℕ} → Chain src zero vd mcid []
  recordless :
      {hops vd mcid : ℕ} {mc : Mcell}
      → mcid ≢ 0
      → IsAt src vd mcid mc
      → find_rec mc.records bsr_xtra_xtnts ≡ none
      → find_rec mc.records bsr_shadow_xtnts ≡ none
      → Chain src (suc hops) vd mcid []
  link :
      {hops vd mcid : ℕ} {mc : Mcell} {l : Link} {ls : List Link}
      → mcid ≢ 0
      → IsAt src vd mcid mc
      → Holds mc vd l
      → Chain src hops (next_vd src mc.next_vd_index vd) mc.next_mcid ls
      → Chain src (suc hops) vd mcid (l ∷ ls)

abbrev pub any_shadow : List Link → Bool
any_shadow [] = false
any_shadow (l ∷ ls) = if l.shadow then true else any_shadow ls

abbrev pub entries_of : List Link → List Extent
entries_of [] = []
entries_of (l ∷ ls) = l.entries ++ entries_of ls

-- The links from the first shadow record on.
abbrev pub from_shadow : List Link → List Link
from_shadow [] = []
from_shadow (l ∷ ls) = if l.shadow then l ∷ ls else from_shadow ls

-- The extents that a primary record and its chain describe: the primary ones and all links' on V4;
-- on V3, where a shadow record occurs, those from the first shadow record on.
abbrev pub map_of : List Extent → List Link → List Extent
map_of prim ls = if any_shadow ls then entries_of (from_shadow ls) else prim ++ entries_of ls

-- The descriptors of a primary record.
abbrev pub primary : XtntRec → ℕ → List Extent
primary xr vd = descriptors (prim_xtnts xr) 0 (min (prim_x_cnt xr) bmt_xtnts) vd

-- Where each shadow record starts, counted from `n`.
abbrev pub starts_from : ℕ → List Link → List ℕ
starts_from n [] = []
starts_from n (l ∷ ls) =
    let later = starts_from (n + length l.entries) ls in if l.shadow then n ∷ later else later

-- The starts of the columns of a striped bitfile: each shadow record is one.
abbrev pub columns_of : List Link → List ℕ
columns_of ls = starts_from 0 (from_shadow ls)

-- A striped bitfile of a domain, with two columns or more.
abbrev pub IsStriped : XtntSrc → XtntRec → List Link → Type 0
IsStriped src xr ls =
    (xtnt_type xr ≡ bsxmt_stripe) × (is_domain src ≡ true) × (2 ≤ length (columns_of ls))

-- The map of a primary record with the links of its chain: interleaved where the bitfile is striped
-- over two columns or more, and as they stand where it is not.
pub data IsMap (src : XtntSrc) (vd : ℕ) (xr : XtntRec) (max : ℕ) (ls : List Link)
    (out : List Extent) : Type 0 where
  flat : ¬ IsStriped src xr ls → out ≡ map_of (primary xr vd) ls → IsMap src vd xr max ls out
  striped :
      IsStriped src xr ls
      → stripe_interleave true
          (map_of (primary xr vd) ls)
          (columns_of ls ++ length (map_of (primary xr vd) ls) ∷ [])
          (length (columns_of ls))
          (segment_size xr)
          max
        ≡ ok out
      → IsMap src vd xr max ls out
