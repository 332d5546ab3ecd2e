-- ===== src/Extents/Chain/Read.antt =====
-- extents_read_core gives the map that the primary record and its chain stand for.
use advfs_fuse.Base.{
  ℕ, ◌≤◌, ◌≡◌, refl, sym, ap, ◌∙◌, ◌⊎◌, inl, inr, Bool, true, false, ◌&&◌, List, [], ◌∷◌, ◌++◌,
  Option, none, some, arith, leb, ltb, ◌==◌, length, ok, err, einval, eilseq, >>=-eq-ok,
  guard-eq-ok, Bool-cases, if_true, if_false, ltb→le, ==→eq, leb→le, le→leb, eq→==,
}
use mathlib.Core.List.{append_assoc, append-nil}
use advfs_fuse.Ods.{
  Mcell, BmtPage, bsr_xtnts, bsxmt_stripe, XtntRec, xtnt_type, chain_vd_index, chain_mcid,
  segment_size, prim_x_cnt, prim_xtnts, bmt_xtnts, rec_data_sz, xtnt_rec_sz,
}
use advfs_fuse.Bmt.{Rec, get_mcell, find_rec}
use advfs_fuse.Extents.{Extent, max_extents, append_extent, collect_array}
use advfs_fuse.Extents.Count.{append-eq-ok}
use advfs_fuse.Extents.Stripe.{stripe_interleave}
use advfs_fuse.Extents.Chain.{
  XtntSrc, next_vd, Walk, cell_or, walk_chain, copy_out, finish_map, read_from, max_chain_hops,
  is_domain, read_primary, extents_read_core, rec_bytes,
}
use advfs_fuse.Extents.Chain.Links.{
  Link, Chain, map_of, from_shadow, starts_from, primary, columns_of, IsStriped, IsMap, flat,
  striped,
}
use advfs_fuse.Extents.Chain.Walked.{collect-eq-ok}
use advfs_fuse.Extents.Chain.Map.{walk_chain-Walked, cell_or-eq-ok}

copy_out-eq-ok :
    (rest out : List Extent) (max : ℕ) (copied : List Extent)
    → copy_out rest out max ≡ ok copied
    → copied ≡ out ++ rest
unfolding copy_out
copy_out-eq-ok [] out max copied h = rw (append-nil out) cc
copy_out-eq-ok (e ∷ rest) out max copied h =
    let (out1, later, put) = >>=-eq-ok _ (append_extent out max e.bs_page e.vd_blk e.vd_index) h in
    copy_out-eq-ok rest out1 max copied later
    ∙ rw (append-eq-ok out max e.bs_page e.vd_blk e.vd_index put) (append_assoc out (e ∷ []) rest)

and_then : (many : Bool) (stripe : Bool) → stripe && many ≡ true → (stripe ≡ true) × (many ≡ true)
and_then many true e = (refl, e)
and_then many false e = cc

module _ (is_stripe : Bool) (seg max : ℕ) (w : Walk) (out : List Extent) where
  abbrev Interleaved : Type 0
  Interleaved =
      (is_stripe ≡ true)
      × (2 ≤ length w.col_start)
      × (stripe_interleave true w.raw (w.col_start ++ length w.raw ∷ []) (length w.col_start) seg
            max
          ≡ ok out)

  -- Striped data in at least two columns is interleaved; all else is the collected map itself.
  finish_map-eq-ok :
      finish_map is_stripe seg max w ≡ ok out
      → ((is_stripe && leb 2 (length w.col_start) ≡ false) × (out ≡ w.raw)) ⊎ Interleaved
  unfolding finish_map
  finish_map-eq-ok h = elim (Bool-cases (is_stripe && leb 2 (length w.col_start))) [
    | inl cols ↦
        let (on, many) = and_then (leb 2 (length w.col_start)) is_stripe cols in
        inr (
          on,
          leb→le 2 (length w.col_start) many,
          guard-eq-ok eilseq (seg == 0) _
              (sym (if_true (is_stripe && leb 2 (length w.col_start)) _ _ cols) ∙ h),
        )
    | inr plain ↦ inl (
      plain,
      copy_out-eq-ok w.raw [] max out
          (sym (if_false (is_stripe && leb 2 (length w.col_start)) _ _ plain) ∙ h),
    )
  ]

-- The links of the chain that a primary record starts.
abbrev pub LinksOf : XtntSrc → ℕ → XtntRec → List Link → Type 0
LinksOf src vd xr ls =
    Chain src max_chain_hops (next_vd src (chain_vd_index xr) vd) (chain_mcid xr) ls

-- Data that is not interleaved is not striped.
no_columns :
    (src : XtntSrc) (xr : XtntRec) (ls : List Link) (w : Walk)
    → (xtnt_type xr == bsxmt_stripe && is_domain src) && leb 2 (length w.col_start) ≡ false
    → (xtnt_type xr == bsxmt_stripe && is_domain src ≡ true → w.col_start ≡ columns_of ls)
    → ¬ IsStriped src xr ls
no_columns src xr ls w plain cols (ty, dom, many) =
    let t = eq→== (xtnt_type xr) bsxmt_stripe ty in
    let on : xtnt_type xr == bsxmt_stripe && is_domain src ≡ true = rw (t, dom) refl in
    let two : leb 2 (length w.col_start) ≡ true =
      le→leb 2 (length w.col_start) (rw (cols on) many) in
    let bad : true ≡ false = sym (ap (λ b. b && leb 2 (length w.col_start)) on ∙ two) ∙ plain in cc

regroup :
    (raw raw' : List Extent) (cols cols' : List ℕ) (seg max : ℕ) (out : List Extent)
    → raw ≡ raw'
    → cols ≡ cols'
    → stripe_interleave true raw (cols ++ length raw ∷ []) (length cols) seg max ≡ ok out
    → stripe_interleave true raw' (cols' ++ length raw' ∷ []) (length cols') seg max ≡ ok out
regroup raw raw' cols cols' seg max out r c h = rw (← r, ← c) h

read_from-IsMap :
    (src : XtntSrc) (vd max : ℕ) (xr : XtntRec) (out : List Extent)
    → read_from src vd max xr ≡ ok out
    → (ls : List Link) × LinksOf src vd xr ls × IsMap src vd xr max ls out
unfolding read_from
read_from-IsMap src vd max xr out h =
    let is_stripe = xtnt_type xr == bsxmt_stripe && is_domain src in
    let (raw, h1, collected) =
      >>=-eq-ok _ (collect_array (prim_xtnts xr) (prim_x_cnt xr) bmt_xtnts [] max_extents vd) h in
    let (raw_is, room) =
      collect-eq-ok (prim_xtnts xr) (prim_x_cnt xr) bmt_xtnts [] vd raw (omega arith) collected in
    let start : Walk = record { raw = raw; col_start = []; found_shadow = false } in
    let vd' = next_vd src (chain_vd_index xr) vd in
    let (w, finished, walk) =
      >>=-eq-ok _ (walk_chain max_chain_hops src is_stripe vd' (chain_mcid xr) start) h1 in
    let (ls, chain, walked) =
      walk_chain-Walked max_chain_hops src is_stripe vd' (chain_mcid xr) start w room walk in
    let collected_is : w.raw ≡ map_of (primary xr vd) ls =
      walked.raw_is ∙ ap (λ r. map_of r ls) raw_is in
    (
      ls,
      chain,
      elim (finish_map-eq-ok is_stripe (segment_size xr) max w out finished) [
        | inl (plain, e) ↦
            flat
              (λ striped_so.
                no_columns src xr ls w plain
                  (λ on. let c : w.col_start ≡ columns_of ls = walked.cols_are on in c) striped_so)
              (e ∙ collected_is)
        | inr (on, many, run) ↦
            let (is_type, in_dom) = and_then (is_domain src) (xtnt_type xr == bsxmt_stripe) on in
            let cols : w.col_start ≡ starts_from 0 (from_shadow ls) = walked.cols_are on in
            striped (==→eq (xtnt_type xr) bsxmt_stripe is_type, in_dom, rw (← cols) many)
              (regroup w.raw (map_of (primary xr vd) ls) w.col_start
                (starts_from 0 (from_shadow ls)) (segment_size xr) max out collected_is cols run)
      ],
    )

in_mcell :
    (src : XtntSrc) (vd max : ℕ) (out : List Extent) (mc : Mcell) (found : Option Rec)
    → find_rec mc.records bsr_xtnts ≡ found
    → read_primary src vd max mc found ≡ ok out
    → (r : Rec) × (find_rec mc.records bsr_xtnts ≡ some r)
      × (xtnt_rec_sz ≤ rec_data_sz r.hdr)
      × ((ls : List Link) × LinksOf src vd (rec_bytes mc r) ls
          × IsMap src vd (rec_bytes mc r) max ls out)
unfolding read_primary
in_mcell src vd max out mc none e h = cc
in_mcell src vd max out mc (some r) e h = elim (Bool-cases (ltb (rec_data_sz r.hdr) xtnt_rec_sz)) [
  | inl small ↦
      (let bad : err eilseq ≡ ok out =
          sym (if_true (ltb (rec_data_sz r.hdr) xtnt_rec_sz) _ _ small) ∙ h in
        cc)
  | inr fits ↦ (
    r,
    e,
    ltb→le (rec_data_sz r.hdr) xtnt_rec_sz fits,
    read_from-IsMap src vd max (rec_bytes mc r) out
        (guard-eq-ok eilseq (ltb (rec_data_sz r.hdr) xtnt_rec_sz) _ h),
  )
]

-- Where extents_read_core returns a map, the mcell holds a BSR_XTNTS record, and the map is the one
-- that this record and the links of its chain stand for: the primary descriptors and those of
-- all links; only those from the first shadow record on, where there is one; interleaved exactly where the
-- type is STRIPE, the source is a domain and there are two shadow records or more. Each
-- descriptor carries the volume of its mcell, and at most 512 links count.
pub extents_read_core-IsMap :
    (src : XtntSrc) (vd : ℕ) (pg : BmtPage) (cell max : ℕ) (out : List Extent)
    → extents_read_core src vd pg cell max ≡ ok out
    → (mc : Mcell) × (r : Rec) × (get_mcell pg cell ≡ some mc)
      × (find_rec mc.records bsr_xtnts ≡ some r)
      × (xtnt_rec_sz ≤ rec_data_sz r.hdr)
      × ((ls : List Link) × LinksOf src vd (rec_bytes mc r) ls
          × IsMap src vd (rec_bytes mc r) max ls out)
unfolding extents_read_core
extents_read_core-IsMap src vd pg cell max out h =
    let (mc, h1, celled) = >>=-eq-ok _ (cell_or einval pg cell) h in
    let (r, found, size, links) =
      in_mcell src vd max out mc (find_rec mc.records bsr_xtnts) refl h1 in
    (mc, r, cell_or-eq-ok einval pg cell mc celled, found, size, links)
