-- ===== src/Extents/Stripe/Loop.antt =====
-- The interleaving loop: the invariant that the flat map is right for the pages mapped so far, and
-- that every round keeps it.
use advfs_fuse.Base.{
  ℕ, ◌+◌, ◌-◌, ◌%◌, ◌≤◌, ◌<◌, ◌≡◌, refl, sym, ◌∙◌, true, List, [], ◌∷◌, ◌++◌, Option, none, some,
  arith, All, All-concat, get_last?, lt→ltb, le→ltb,
}
use mathlib.Core.Path.{subst}
use native.Mathlib.Nat.{mod-lt}
use native.Mathlib.Decide.{dec_lt}
use advfs_fuse.Ods.{uint32_max, u32_mod}
use advfs_fuse.Extents.{Extent, extent}
use advfs_fuse.Extents.Lookup.{Place, shift_place, entry_place}
use advfs_fuse.Extents.Stripe.{
  ColumnRun, col_lookup, column, page_col, page_xm, round_pages, merges,
}
use advfs_fuse.Extents.Stripe.Columns.{run_place, IsColumn, col_lookup_shift, col_lookup_bounds}
use advfs_fuse.Extents.Stripe.Flat.{
  find_upto, Before, find_upto-concat, find_upto_extend, find_upto-get_last?,
}
use advfs_fuse.Extents.Stripe.Pages.{page_xm_shift, page_xm-le, page_col-lt}

-- Where a file page lies, by looking its column page up in its column.
abbrev pub file_run : List Extent → List ℕ → ℕ → ℕ → ℕ → ColumnRun
file_run raw col_start ncols segment_size f =
    col_lookup (column raw col_start (page_col ncols segment_size f)) (page_xm ncols segment_size f)

abbrev pub file_place : List Extent → List ℕ → ℕ → ℕ → ℕ → Place
file_place raw col_start ncols segment_size f =
    run_place (file_run raw col_start ncols segment_size f)

round_pages_bounds :
    (segment_size total fpage run : ℕ)
    → fpage < total
    → fpage % segment_size < segment_size
    → 0 < run
    → (0 < round_pages segment_size total fpage run)
      × (round_pages segment_size total fpage run ≤ run)
      × (fpage % segment_size + round_pages segment_size total fpage run ≤ segment_size)
      × (fpage + round_pages segment_size total fpage run ≤ total)
unfolding round_pages
round_pages_bounds segment_size total fpage run h m r = ground arith

entry_place-extent :
    (r : ColumnRun) (fpage p : ℕ)
    → fpage ≤ p
    → entry_place (extent fpage r.blk r.vd) p ≡ shift_place (p - fpage) (run_place r)
entry_place-extent r fpage p le = ground arith

merges-some :
    (o : Option Extent) (fpage : ℕ) (r : ColumnRun)
    → merges o fpage r ≡ true
    → (prev : Extent) × (o ≡ some prev)
unfolding merges
merges-some none fpage r h = cc
merges-some (some prev) fpage r h = (prev, refl)

-- The entry that a run is merged with gives its pages the places of the run.
merges_place :
    (prev : Extent) (fpage p : ℕ) (r : ColumnRun)
    → merges (some prev) fpage r ≡ true
    → prev.bs_page ≤ fpage
    → prev.vd_blk < u32_mod
    → fpage ≤ p
    → fpage < u32_mod
    → entry_place prev p ≡ shift_place (p - fpage) (run_place r)
unfolding merges
merges_place prev fpage p r h le wide at small = ground arith

All-get_last? :
    (P : Extent → Type 0) (out : List Extent) {x : Extent}
    → All P out
    → get_last? out ≡ some x
    → P x
All-get_last? P [] h e = cc
All-get_last? P (y ∷ []) h e = subst P (cc) h.0
All-get_last? P (y ∷ z ∷ rest) h e = All-get_last? P (z ∷ rest) h.1 e

Before-mono : (n m : ℕ) (out : List Extent) → n ≤ m → Before n out → Before m out
Before-mono n m [] le b = tt
Before-mono n m (e ∷ rest) le b = (omega arith, Before-mono n m rest le b.1)

strict_mono :
    (n m : ℕ) (out : List Extent)
    → n ≤ m
    → All (λ e. e.bs_page < n) out
    → All (λ e. e.bs_page < m) out
strict_mono n m [] le b = tt
strict_mono n m (e ∷ rest) le b = (omega arith, strict_mono n m rest le b.1)

module _ (raw : List Extent) (col_start : List ℕ) (ncols segment_size : ℕ) where
  -- The map built so far is right for the pages below `fpage`.
  pub record IsFlat (fpage : ℕ) (out : List Extent) : Type 0 where
    pub before : Before fpage out
    pub strict : All (λ e. e.bs_page < fpage) out
    pub wide : All (λ e. e.vd_blk < u32_mod) out
    pub maps :
        (p : ℕ)
        → p < fpage
        → (e : Extent) × (find_upto out fpage p ≡ some e)
          × (entry_place e p ≡ file_place raw col_start ncols segment_size p)

module _ (raw : List Extent) (col_start : List ℕ) (ncols segment_size total : ℕ) (cols : 0 < ncols)
    (seg : 0 < segment_size) (small : total ≤ uint32_max) where
  abbrev pub run_at : ℕ → ColumnRun
  run_at f = file_run raw col_start ncols segment_size f

  abbrev pub next_page : ℕ → ℕ
  next_page f = f + round_pages segment_size total f (run_at f).run

  pub next_page_bounds : (f : ℕ) → f < total → (f < next_page f) × (next_page f ≤ total)
  next_page_bounds f h = omega (
    arith,
    round_pages_bounds segment_size total f (run_at f).run h (mod-lt f seg)
        (col_lookup_bounds _ _).0,
  )

  module _ (columns : (c : ℕ) → c < ncols → IsColumn total (column raw col_start c)) where
    -- The pages of one round lie where the run of its first page says.
    round_places :
        (f p : ℕ)
        → f < total
        → f ≤ p
        → p < next_page f
        → file_place raw col_start ncols segment_size p ≡ shift_place (p - f) (run_place (run_at f))
    round_places f p h le lt =
        let n =
          round_pages_bounds segment_size total f (run_at f).run h (mod-lt f seg)
            (col_lookup_bounds _ _).0 in
        let j = p - f in
        let back : f + j ≡ p = omega arith in
        let (same_col, same_xm) =
          page_xm_shift ncols segment_size cols seg f j (omega (arith, n)) (omega (arith, n)) in
        subst
          (λ q.
            file_place raw col_start ncols segment_size q ≡ shift_place j (run_place (run_at f)))
          back
          (rw (same_col, same_xm)
            (col_lookup_shift _ total _ j
              (omega (arith, page_xm-le ncols segment_size cols seg f (omega arith))) small
              (columns _ (page_col-lt ncols segment_size cols seg f)) (omega (arith, n))))

    append_maps :
        (f : ℕ) (out : List Extent)
        → f < total
        → IsFlat raw col_start ncols segment_size f out
        → (p : ℕ) → p < next_page f
        → (e : Extent) × (find_upto
              (out ++ extent f (run_at f).blk (run_at f).vd ∷ [])
              (next_page f)
              p
            ≡ some e)
          × (entry_place e p ≡ file_place raw col_start ncols segment_size p)
    append_maps f out h inv p lt =
        let x = extent f (run_at f).blk (run_at f).vd in
        let found = find_upto-concat out x (next_page f) p inv.before in
        elim (dec_lt p f) [
          | yes old ↦
              let (e, was, right) = inv.maps p old in (e, found ∙ rw (lt→ltb p f old) was, right)
          | no new ↦ (
            x,
            found ∙ rw (le→ltb p f (omega arith), lt→ltb p (next_page f) lt) refl,
            entry_place-extent (run_at f) f p (omega arith)
                ∙ sym (round_places f p h (omega arith) lt),
          )
        ]

    pub append-IsFlat :
        (f : ℕ) (out : List Extent)
        → f < total
        → IsFlat raw col_start ncols segment_size f out
        → IsFlat raw col_start ncols segment_size
            (next_page f)
            (out ++ extent f (run_at f).blk (run_at f).vd ∷ [])
    append-IsFlat f out h inv = record {
      before =
          All-concat _ out _
            (Before-mono f (next_page f) out (omega (arith, next_page_bounds f h)) inv.before)
            (omega (arith, next_page_bounds f h));
      strict =
          All-concat (λ (e : Extent). e.bs_page < next_page f) out _
            (strict_mono f (next_page f) out (omega (arith, next_page_bounds f h)) inv.strict)
            (omega (arith, next_page_bounds f h));
      wide = All-concat _ out _ inv.wide (col_lookup_bounds _ _).1;
      maps = λ p lt. append_maps f out h inv p lt;
    }

    merge_maps :
        (f : ℕ) (out : List Extent)
        → f < total
        → merges (get_last? out) f (run_at f) ≡ true
        → IsFlat raw col_start ncols segment_size f out
        → (p : ℕ) → p < next_page f
        → (e : Extent) × (find_upto out (next_page f) p ≡ some e)
          × (entry_place e p ≡ file_place raw col_start ncols segment_size p)
    merge_maps f out h merged inv p lt = elim (dec_lt p f) [
      | yes old ↦
          let (e, found, right) = inv.maps p old in
          (
            e,
            find_upto_extend out f (next_page f) p e (omega (arith, next_page_bounds f h)) found,
            right,
          )
      | no new ↦
          let (prev, is_last) = merges-some (get_last? out) f (run_at f) merged in
          (
            prev,
            find_upto-get_last? out (next_page f) p is_last
                (Before-mono f p out (omega arith) inv.before) lt,
            merges_place prev f p (run_at f) (rw is_last at merged)
                  (All-get_last? (λ e. e.bs_page ≤ f) out inv.before is_last)
                  (All-get_last? (λ e. e.vd_blk < u32_mod) out inv.wide is_last) (omega arith)
                  (omega arith)
                ∙ sym (round_places f p h (omega arith) lt),
          )
    ]

    pub merge-IsFlat :
        (f : ℕ) (out : List Extent)
        → f < total
        → merges (get_last? out) f (run_at f) ≡ true
        → IsFlat raw col_start ncols segment_size f out
        → IsFlat raw col_start ncols segment_size (next_page f) out
    merge-IsFlat f out h merged inv = record {
      before = Before-mono f (next_page f) out (omega (arith, next_page_bounds f h)) inv.before;
      strict = strict_mono f (next_page f) out (omega (arith, next_page_bounds f h)) inv.strict;
      wide = inv.wide;
      maps = λ p lt. merge_maps f out h merged inv p lt;
    }
