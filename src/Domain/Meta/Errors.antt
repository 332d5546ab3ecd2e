-- ===== src/Domain/Meta/Errors.antt =====
-- The errors of build_meta_extent_map of src/domain.c.
use advfs_fuse.Base.{
  ℕ, zero, suc, ◌≡◌, sym, ◌∙◌, inl, inr, List, Option, none, some, ltb, ◌==◌, if_true, if_false,
  Bool-cases, Result, stuck, ok, err, ◌>>=◌, eilseq, Errno,
}
use advfs_fuse.Ods.{
  Xtnt, Mcell, BmtPage, bsr_xtnts, bsr_xtra_xtnts, bsr_shadow_xtnts, xtnt_rec_sz, rec_data_sz,
  chain_mcid,
}
use advfs_fuse.Volume.{Volume}
use advfs_fuse.Bmt.{Rec, find_rec, get_mcell}
use advfs_fuse.Extents.Chain.{cell_or, rec_bytes}
use advfs_fuse.Domain.Meta.{
  meta_mcell, meta_extend, meta_loop, max_meta_hops, meta_from, build_meta_extent_map, meta_next,
  meta_round,
}

module _ (vol : Option Volume) (resolve : Option (List Xtnt)) (code : Errno) where
  round_eilseq :
      (go : ℕ → List Xtnt → Result (List Xtnt))
      → ((next : ℕ) (map : List Xtnt) → go next map ≡ err code → code ≡ eilseq)
      → (map : List Xtnt) (cell : Result Mcell) → meta_round cell map go ≡ err code
      → code ≡ eilseq
  unfolding meta_round meta_next
  round_eilseq go gone map stuck e = cc
  round_eilseq go gone map (err c) e = cc
  round_eilseq go gone map (ok mc) e =
      next_eilseq mc
        (meta_extend mc map (find_rec mc.records bsr_xtra_xtnts)
          (find_rec mc.records bsr_shadow_xtnts))
        e
    where
      next_eilseq :
          (mc : Mcell) (ext : Option (List Xtnt))
          → meta_next mc map ext go ≡ err code
          → code ≡ eilseq
      next_eilseq mc none e' = cc
      next_eilseq mc (some map') e' = gone mc.next_mcid map' e'

  loop_eilseq :
      (hops mcid : ℕ) (map : List Xtnt)
      → meta_loop hops vol resolve mcid map ≡ err code
      → code ≡ eilseq
  unfolding meta_loop
  loop_eilseq zero mcid map e = cc
  loop_eilseq (suc hops) mcid map e = elim (Bool-cases (mcid == 0)) [
    | inl z ↦ cc (e, if_true (mcid == 0) (ok map) _ z)
    | inr nz ↦
        round_eilseq (λ next map'. meta_loop hops vol resolve next map')
          (λ next map' h. loop_eilseq hops next map' h) map (meta_mcell vol resolve map mcid)
          (sym (if_false (mcid == 0) (ok map) _ nz) ∙ e)
  ]

  from_eilseq :
      (mc : Mcell) (found : Option Rec) → meta_from vol resolve mc found ≡ err code → code ≡ eilseq
  unfolding meta_from
  from_eilseq mc none e = cc
  from_eilseq mc (some r) e = elim (Bool-cases (ltb (rec_data_sz r.hdr) xtnt_rec_sz)) [
    | inl small ↦
        let refused : err eilseq ≡ err code =
          sym (if_true (ltb (rec_data_sz r.hdr) xtnt_rec_sz) (err eilseq) _ small) ∙ e in
        cc
    | inr room ↦
        loop_eilseq max_meta_hops (chain_mcid (rec_bytes mc r)) _
          (sym (if_false (ltb (rec_data_sz r.hdr) xtnt_rec_sz) (err eilseq) _ room) ∙ e)
  ]

  -- build_meta_extent_map fails with EILSEQ alone.
  pub build_meta_extent_map_errors :
      (pg0 : BmtPage) (cell : ℕ)
      → build_meta_extent_map vol pg0 cell resolve ≡ err code
      → code ≡ eilseq
  unfolding build_meta_extent_map cell_or
  build_meta_extent_map_errors pg0 cell e = started (get_mcell pg0 cell) e
    where
      started :
          (c : Option Mcell)
          → elim c [ none ↦ err eilseq | some mc ↦ ok mc ]
              >>= (λ mc. meta_from vol resolve mc (find_rec mc.records bsr_xtnts))
            ≡ err code
          → code ≡ eilseq
      started none e' = cc
      started (some mc) e' = from_eilseq mc (find_rec mc.records bsr_xtnts) e'
