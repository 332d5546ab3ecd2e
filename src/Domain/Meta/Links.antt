-- ===== src/Domain/Meta/Links.antt =====
-- The map that build_meta_extent_map of src/domain.c builds is the first 4096 descriptors of the
-- BSR_XTNTS record and the chain behind it.
use advfs_fuse.Base.{
  ℕ, zero, suc, ◌≤◌, ◌≡◌, refl, sym, ap, ◌∙◌, ◌≢◌, List, [], ◌∷◌, ◌++◌, Option, none, some, ltb,
  ◌==◌, if_true, if_false, eq→==, ne→==, length, take, arith, Result, stuck, ok, err, >>=-eq-ok,
  guard-eq-ok, eilseq, Errno, min,
}
use advfs_fuse.Ods.{
  Xtnt, Mcell, BmtPage, bsr_xtnts, bsr_xtra_xtnts, bsr_shadow_xtnts, bmt_xtnts, bmt_xtra_xtnts,
  bmt_shadow_xtnts, xtnt_rec_sz, rec_data_sz, chain_mcid, prim_x_cnt, prim_xtnts, xtra_x_cnt,
  xtra_xtnts, shadow_x_cnt, shadow_xtnts,
}
use advfs_fuse.Volume.{Volume}
use advfs_fuse.Bmt.{Rec, find_rec, get_mcell}
use advfs_fuse.Extents.Chain.{cell_or, rec_bytes}
use advfs_fuse.Extents.Chain.Map.{cell_or-eq-ok}
use advfs_fuse.Domain.Meta.{
  max_bmt_extents, meta_mcell, meta_extend, meta_loop, max_meta_hops, meta_from,
  build_meta_extent_map, meta_next, meta_round,
}
use native.Mathlib.Decide.{ℕ_discrete}
use advfs_fuse.Domain.Meta.Joined.{
  descs, joined, joined_to_bound, joined_all, flat, kept, all_entries,
}

-- The descriptors of a chain mcell, from its BSR_XTRA_XTNTS record or, without one, from its
-- BSR_SHADOW_XTNTS record: as many as the record says, and no more than it has room for.
pub data Holds (mc : Mcell) : List Xtnt → Type 0 where
  xtra :
      (r : Rec)
      → find_rec mc.records bsr_xtra_xtnts ≡ some r
      → Holds mc
          (descs (xtra_xtnts (rec_bytes mc r)) 0 (min bmt_xtra_xtnts (xtra_x_cnt (rec_bytes mc r))))
  shadow :
      (r : Rec)
      → find_rec mc.records bsr_xtra_xtnts ≡ none
      → find_rec mc.records bsr_shadow_xtnts ≡ some r
      → Holds mc (
          descs
            (shadow_xtnts (rec_bytes mc r))
            0
            (min bmt_shadow_xtnts (shadow_x_cnt (rec_bytes mc r))))

-- The descriptors of the BSR_XTNTS record itself.
abbrev pub primary : Mcell → Rec → List Xtnt
primary mc r = descs (prim_xtnts (rec_bytes mc r)) 0 (min bmt_xtnts (prim_x_cnt (rec_bytes mc r)))

-- All of a chain from a mcell id on, each mcell found through the caller's map or through the map
-- built from what comes before it. It ends at mcell id 0, at a mcell that cannot be had, at one
-- without extent records and after so many hops, and nowhere else.
pub data MetaChain (vol : Option Volume) (resolve : Option (List Xtnt))
    : ℕ → ℕ → List Xtnt → List (List Xtnt) → Type 0 where
  cut : {mcid : ℕ} {map : List Xtnt} → MetaChain vol resolve zero mcid map []
  ended :
      {hops mcid : ℕ} {map : List Xtnt} → mcid ≡ 0 → MetaChain vol resolve (suc hops) mcid map []
  unread :
      {hops mcid : ℕ} {map : List Xtnt} (code : Errno)
      → mcid ≢ 0
      → meta_mcell vol resolve map mcid ≡ err code
      → MetaChain vol resolve (suc hops) mcid map []
  recordless :
      {hops mcid : ℕ} {map : List Xtnt} (mc : Mcell)
      → mcid ≢ 0
      → meta_mcell vol resolve map mcid ≡ ok mc
      → find_rec mc.records bsr_xtra_xtnts ≡ none
      → find_rec mc.records bsr_shadow_xtnts ≡ none
      → MetaChain vol resolve (suc hops) mcid map []
  hop :
      {hops mcid : ℕ} {map ds : List Xtnt} {dss : List (List Xtnt)} (mc : Mcell)
      → mcid ≢ 0
      → meta_mcell vol resolve map mcid ≡ ok mc
      → Holds mc ds
      → MetaChain vol resolve hops mc.next_mcid (joined map ds) dss
      → MetaChain vol resolve (suc hops) mcid map (ds ∷ dss)

-- What one round of the chain loop adds.
extended :
    (mc : Mcell) (map map' : List Xtnt) (x s : Option Rec)
    → length map ≤ max_bmt_extents
    → find_rec mc.records bsr_xtra_xtnts ≡ x
    → find_rec mc.records bsr_shadow_xtnts ≡ s
    → meta_extend mc map x s ≡ some map'
    → (ds : List Xtnt) × Holds mc ds × (map' ≡ joined map ds)
unfolding meta_extend
extended mc map map' (some r) s h ex es e =
    let b = rec_bytes mc r in
    (_, xtra r ex, cc (e, kept (xtra_xtnts b) (xtra_x_cnt b) bmt_xtra_xtnts map h))
extended mc map map' none (some r) h ex es e =
    let b = rec_bytes mc r in
    (_, shadow r ex es, cc (e, kept (shadow_xtnts b) (shadow_x_cnt b) bmt_shadow_xtnts map h))
extended mc map map' none none h ex es e = cc

extended_none :
    (mc : Mcell) (map : List Xtnt) (x s : Option Rec)
    → find_rec mc.records bsr_xtra_xtnts ≡ x
    → find_rec mc.records bsr_shadow_xtnts ≡ s
    → meta_extend mc map x s ≡ none
    → (find_rec mc.records bsr_xtra_xtnts ≡ none) × (find_rec mc.records bsr_shadow_xtnts ≡ none)
unfolding meta_extend
extended_none mc map (some r) s ex es e = cc
extended_none mc map none (some r) ex es e = cc
extended_none mc map none none ex es e = (ex, es)

-- The chain loop.
abbrev Walked : Option Volume → Option (List Xtnt) → ℕ → ℕ → List Xtnt → List Xtnt → Type 0
Walked vol resolve hops mcid map out =
    (dss : List (List Xtnt)) × MetaChain vol resolve hops mcid map dss × (out ≡ joined_all map dss)

module _ (vol : Option Volume) (resolve : Option (List Xtnt)) (hops : ℕ) (out : List Xtnt) where
  module _ (go : ℕ → List Xtnt → Result (List Xtnt))
      (walk : (next : ℕ) (map : List Xtnt)
        → length map ≤ max_bmt_extents
        → go next map ≡ ok out
        → Walked vol resolve hops next map out)
      (mcid : ℕ) (map : List Xtnt) (nz : mcid ≢ 0) where
    meta_next-Walked :
        (mc : Mcell) (ext : Option (List Xtnt))
        → meta_mcell vol resolve map mcid ≡ ok mc
        → ((map' : List Xtnt)
            → ext ≡ some map'
            → (ds : List Xtnt) × Holds mc ds × (map' ≡ joined map ds))
        → (ext ≡ none
            → (find_rec mc.records bsr_xtra_xtnts ≡ none)
              × (find_rec mc.records bsr_shadow_xtnts ≡ none))
        → meta_next mc map ext go ≡ ok out
        → Walked vol resolve (suc hops) mcid map out
    unfolding meta_next
    meta_next-Walked mc none at holds nothing e =
        let (x, s) = nothing refl in ([], recordless mc nz at x s, cc)
    meta_next-Walked mc (some map') at holds nothing e =
        let (ds, h, j) = holds map' refl in
        let e' : go mc.next_mcid (joined map ds) ≡ ok out = cc in
        let (dss, chain, o) =
          walk mc.next_mcid (joined map ds) (joined_to_bound max_bmt_extents map ds) e' in
        (ds ∷ dss, hop mc nz at h chain, o)

    meta_round-Walked :
        (cell : Result Mcell)
        → length map ≤ max_bmt_extents
        → meta_mcell vol resolve map mcid ≡ cell
        → meta_round cell map go ≡ ok out
        → Walked vol resolve (suc hops) mcid map out
    unfolding meta_round
    meta_round-Walked stuck h at e = cc
    meta_round-Walked (err c) h at e = ([], unread c nz at, cc)
    meta_round-Walked (ok mc) h at e =
        meta_next-Walked mc
          (meta_extend mc map (find_rec mc.records bsr_xtra_xtnts)
            (find_rec mc.records bsr_shadow_xtnts))
          at (λ map' x. extended mc map map' _ _ h refl refl x)
          (λ x. extended_none mc map _ _ refl refl x) e

meta_loop-Walked :
    (vol : Option Volume) (resolve : Option (List Xtnt)) (hops mcid : ℕ) (map out : List Xtnt)
    → length map ≤ max_bmt_extents
    → meta_loop hops vol resolve mcid map ≡ ok out
    → Walked vol resolve hops mcid map out
unfolding meta_loop
meta_loop-Walked vol resolve zero mcid map out h e = ([], cut, cc)
meta_loop-Walked vol resolve (suc hops) mcid map out h e = elim (ℕ_discrete mcid 0) [
  | yes z ↦ ([], ended z, cc (e, if_true (mcid == 0) (ok map) _ (eq→== mcid 0 z)))
  | no nz ↦
      meta_round-Walked vol resolve hops out (λ next map'. meta_loop hops vol resolve next map')
        (λ next map' h' e'. meta_loop-Walked vol resolve hops next map' out h' e') mcid map nz
        (meta_mcell vol resolve map mcid) h refl
        (sym (if_false (mcid == 0) (ok map) _ (ne→== mcid 0 nz)) ∙ e)
]

-- The map that a BSR_XTNTS record and its chain stand for.
pub record MetaMap (vol : Option Volume) (pg0 : BmtPage) (cell : ℕ) (resolve : Option (List Xtnt))
    (map : List Xtnt) : Type 0 where
  pub mc : Mcell
  pub r : Rec
  pub at : get_mcell pg0 cell ≡ some mc
  pub has_xtnts : find_rec mc.records bsr_xtnts ≡ some r
  pub chained : List (List Xtnt)
  pub chain :
      MetaChain vol resolve max_meta_hops
        (chain_mcid (rec_bytes mc r))
        (joined [] (primary mc r))
        chained
  pub entries : map ≡ take max_bmt_extents (primary mc r ++ flat chained)

meta_from-MetaMap :
    (vol : Option Volume) (pg0 : BmtPage) (cell : ℕ) (resolve : Option (List Xtnt)) (mc : Mcell)
    (found : Option Rec) (map : List Xtnt)
    → get_mcell pg0 cell ≡ some mc
    → find_rec mc.records bsr_xtnts ≡ found
    → meta_from vol resolve mc found ≡ ok map
    → MetaMap vol pg0 cell resolve map
unfolding meta_from
meta_from-MetaMap vol pg0 cell resolve mc none map at f e = cc
meta_from-MetaMap vol pg0 cell resolve mc (some r) map at f e =
    let b = rec_bytes mc r in
    let e' = guard-eq-ok eilseq (ltb (rec_data_sz r.hdr) xtnt_rec_sz) _ e in
    let k = kept (prim_xtnts b) (prim_x_cnt b) bmt_xtnts [] (omega arith) in
    let (dss, chain, o) =
      meta_loop-Walked vol resolve max_meta_hops (chain_mcid b) (joined [] (primary mc r)) map
        (joined_to_bound max_bmt_extents [] (primary mc r))
        (sym (ap (meta_loop max_meta_hops vol resolve (chain_mcid b)) k) ∙ e') in
    record {
      mc = mc;
      r = r;
      at = at;
      has_xtnts = f;
      chained = dss;
      chain = chain;
      entries = o ∙ all_entries (primary mc r) dss;
    }

-- Where build_meta_extent_map returns a map, the mcell holds a BSR_XTNTS record, and the map is the
-- descriptors of that record followed by those of the chain behind it, in order, cut at the 4096
-- entries of the array. The chain goes on for up to 64 mcells, until a mcell id is 0, a mcell
-- cannot be had or holds no extent record; each mcell was found on its page through the caller's map or, without one, through the map built from the mcells
-- before it.
pub build_meta_extent_map-MetaMap :
    (vol : Option Volume) (pg0 : BmtPage) (cell : ℕ) (resolve : Option (List Xtnt))
    (map : List Xtnt)
    → build_meta_extent_map vol pg0 cell resolve ≡ ok map
    → MetaMap vol pg0 cell resolve map
unfolding build_meta_extent_map
build_meta_extent_map-MetaMap vol pg0 cell resolve map e =
    let (mc, from, at) =
      >>=-eq-ok (λ mc. meta_from vol resolve mc (find_rec mc.records bsr_xtnts))
        (cell_or eilseq pg0 cell) e in
    meta_from-MetaMap vol pg0 cell resolve mc (find_rec mc.records bsr_xtnts) map
      (cell_or-eq-ok eilseq pg0 cell mc at) refl from
