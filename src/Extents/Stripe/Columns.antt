-- ===== src/Extents/Stripe/Columns.antt =====
-- Well-formed stripe columns, and how col_lookup moves along a run.
use advfs_fuse.Base.{
  ℕ, ◌+◌, ◌-◌, ◌*◌, ◌≤◌, ◌<◌, ◌≡◌, refl, false, List, [], ◌∷◌, arith, if◌then◌else◌, le→ltb, lt→leb,
}
use native.Mathlib.Decide.{dec_lt}
use advfs_fuse.Ods.{uint32_max, u32_mod, perm_hole, is_hole}
use advfs_fuse.Extents.{Extent}
use advfs_fuse.Extents.Lookup.{Place, hole, block, shift_place}
use advfs_fuse.Extents.Stripe.{ColumnRun, entry_run, col_lookup}

-- The place that col_lookup reports.
abbrev pub run_place : ColumnRun → Place
run_place r = if is_hole r.blk then hole r.blk else block r.blk r.vd

-- A mapped extent whose range ends at `end` stays below the hole markers.
abbrev pub Addressable : Extent → ℕ → Type 0
Addressable e end = is_hole e.vd_blk ≡ false → e.vd_blk + (end - e.bs_page) * 16 ≤ perm_hole

-- The extents of a column, in order, each with addressable blocks; the last one up to `limit`.
abbrev pub Chain : ℕ → Extent → List Extent → Type 0
Chain limit e [] = Addressable e limit
Chain limit e (f ∷ rest) = (e.bs_page ≤ f.bs_page) × Addressable e f.bs_page × Chain limit f rest

-- A column is empty, or it starts at page 0 and its extents are in order and addressable.
abbrev pub IsColumn : ℕ → List Extent → Type 0
IsColumn limit [] = Unit
IsColumn limit (e ∷ rest) = (e.bs_page ≡ 0) × Chain limit e rest

entry_run_shift :
    (e : Extent) (end bound xm j : ℕ)
    → e.bs_page ≤ xm
    → j < (entry_run e end xm).run
    → xm + j < bound
    → xm + j < u32_mod
    → Addressable e bound
    → run_place (entry_run e end (xm + j)) ≡ shift_place j (run_place (entry_run e end xm))
unfolding entry_run
entry_run_shift e end bound xm j le j_lt b small a = ground arith

pub col_lookup_last :
    (e : Extent) (xm : ℕ)
    → e.bs_page ≤ xm
    → xm < uint32_max
    → col_lookup (e ∷ []) xm ≡ entry_run e uint32_max xm
unfolding col_lookup
col_lookup_last e xm le lt = rw (le→ltb xm e.bs_page le, lt→leb uint32_max xm lt) refl

pub col_lookup_inside :
    (e f : Extent) (rest : List Extent) (xm : ℕ)
    → e.bs_page ≤ xm
    → xm < f.bs_page
    → col_lookup (e ∷ f ∷ rest) xm ≡ entry_run e f.bs_page xm
unfolding col_lookup
col_lookup_inside e f rest xm le lt = rw (le→ltb xm e.bs_page le, lt→leb f.bs_page xm lt) refl

pub col_lookup_past :
    (e f : Extent) (rest : List Extent) (xm : ℕ)
    → f.bs_page ≤ xm
    → col_lookup (e ∷ f ∷ rest) xm ≡ col_lookup (f ∷ rest) xm
unfolding col_lookup
col_lookup_past e f rest xm le = ground arith

entry_run-run : (e : Extent) (end xm : ℕ) → (entry_run e end xm).run ≡ end - xm
unfolding entry_run
entry_run-run e end xm = ground arith

Chain-shift :
    (e : Extent) (rest : List Extent) (limit xm j : ℕ)
    → e.bs_page ≤ xm
    → xm + j < limit
    → limit ≤ uint32_max
    → Chain limit e rest
    → j < (col_lookup (e ∷ rest) xm).run
    → run_place (col_lookup (e ∷ rest) (xm + j))
      ≡ shift_place j (run_place (col_lookup (e ∷ rest) xm))
Chain-shift e [] limit xm j le b small c j_lt =
    let here = col_lookup_last e xm le (omega arith) in
    rw (here, col_lookup_last e (xm + j) (omega arith) (omega arith))
      (entry_run_shift e uint32_max limit xm j le (rw here at j_lt) b (omega arith) c)
Chain-shift e (f ∷ rest) limit xm j le b small c j_lt = elim (dec_lt xm f.bs_page) [
  | yes inside ↦
      let here = col_lookup_inside e f rest xm le inside in
      let short = rw here at j_lt in
      let within : xm + j < f.bs_page = omega (arith, entry_run-run e f.bs_page xm) in
      rw (here, col_lookup_inside e f rest (xm + j) (omega arith) within)
        (entry_run_shift e f.bs_page f.bs_page xm j le short within (omega arith) c.1)
  | no past ↦
      let here = col_lookup_past e f rest xm (omega arith) in
      rw (here, col_lookup_past e f rest (xm + j) (omega arith))
        (Chain-shift f rest limit xm j (omega arith) b small c.2 (rw here at j_lt))
]

-- Within the run that col_lookup reports, the pages of a well-formed column follow one another.
pub col_lookup_shift :
    (col : List Extent) (limit xm j : ℕ)
    → xm + j < limit
    → limit ≤ uint32_max
    → IsColumn limit col
    → j < (col_lookup col xm).run
    → run_place (col_lookup col (xm + j)) ≡ shift_place j (run_place (col_lookup col xm))
col_lookup_shift [] limit xm j b small c j_lt = unfold col_lookup in refl
col_lookup_shift (e ∷ rest) limit xm j b small c j_lt =
    Chain-shift e rest limit xm j (omega arith) b small c.1 j_lt

-- A run has a page at least, and its block fits 32 bits.
pub col_lookup_bounds :
    (col : List Extent) (xm : ℕ)
    → (0 < (col_lookup col xm).run) × ((col_lookup col xm).blk < u32_mod)
unfolding col_lookup
col_lookup_bounds [] xm = omega arith
col_lookup_bounds (e ∷ []) xm = ground arith
col_lookup_bounds (e ∷ f ∷ rest) xm = ground (arith, col_lookup_bounds (f ∷ rest) xm)
