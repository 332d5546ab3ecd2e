-- ===== src/Extents/Stripe/Interleave.antt =====
-- The interleaving loop as a whole: it ends, and the map that it builds is the round-robin
-- arrangement of the columns.
use advfs_fuse.Base.{
  ℕ, zero, suc, ◌+◌, ◌%◌, ◌≤◌, ◌<◌, ◌≡◌, refl, sym, ◌∙◌, ◌≢◌, inl, inr, true, false, List, [], ◌∷◌,
  ◌++◌, some, arith, All, get_last?, length, length-append, Bool-cases, lt→ltb, le→ltb, Result, ok,
  err, stuck, ◌>>=◌, >>=-eq-ok,
}
use native.Mathlib.Nat.{mod-eq_of_lt}
use native.Mathlib.Decide.{dec_lt}
use advfs_fuse.Ods.{uint32_max, u32_mod, xtnt_term}
use advfs_fuse.Extents.{Extent, extent, append_extent}
use advfs_fuse.Extents.Count.{append-eq-ok, append-ne-stuck, append_room}
use advfs_fuse.Extents.Lookup.{find_extent, entry_place}
use advfs_fuse.Extents.Stripe.{ColumnRun, column, merges, interleave_loop, page_col, page_xm}
use advfs_fuse.Extents.Stripe.Pages.{page_of, page_of-page_xm, page_col-lt, page_xm-le}
use advfs_fuse.Extents.Stripe.Placed.{PlacedIn, col_lookup-PlacedIn}
use mathlib.Core.Path.{subst}
use advfs_fuse.Extents.Stripe.Columns.{IsColumn}
use advfs_fuse.Extents.Stripe.Flat.{find_extent-concat}
use advfs_fuse.Extents.Stripe.Loop.{
  file_place, IsFlat, run_at, next_page, next_page_bounds, append-IsFlat, merge-IsFlat,
}

bind-ne-stuck :
    (m : Result (List Extent)) (k : List Extent → Result (List Extent))
    → m ≢ stuck
    → ((x : List Extent) → k x ≢ stuck)
    → (m >>= k) ≢ stuck
bind-ne-stuck (ok x) k a b = b x
bind-ne-stuck (err e) k a b = λ h. cc
bind-ne-stuck stuck k a b = a

-- `out` is a flat map of a striped file of `total` pages: mapped entries and holes that start below
-- `total`, then the terminator at `total`. Each file page is one page `xm` of one column `c` in the
-- round-robin arrangement, and its entry puts it where that column has that page.
pub record IsStripeMap (raw : List Extent) (col_start : List ℕ) (ncols segment_size total : ℕ)
    (out : List Extent) : Type 0 where
  pub body : List Extent
  pub ends : out ≡ body ++ extent total xtnt_term 0 ∷ []
  pub starts : All (λ e. e.bs_page < total) body
  pub maps :
      (p : ℕ)
      → p < total
      → (c : ℕ) × (xm : ℕ) × (e : Extent) × (c < ncols)
        × (p ≡ page_of ncols segment_size c xm)
        × (find_extent out p ≡ some e)
        × PlacedIn (column raw col_start c) xm (entry_place e p)

module _ (raw : List Extent) (col_start : List ℕ) (ncols segment_size total : ℕ) (cols : 0 < ncols)
    (seg : 0 < segment_size) (small : total ≤ uint32_max) (max : ℕ) where
  abbrev pub loop : ℕ → ℕ → List Extent → Result (List Extent)
  loop fuel f out = interleave_loop fuel raw col_start ncols segment_size total max f out

  abbrev at : ℕ → ColumnRun
  at f = run_at raw col_start ncols segment_size total cols seg small f

  abbrev next : ℕ → ℕ
  next f = next_page raw col_start ncols segment_size total cols seg small f

  bounds : (f : ℕ) → f < total → (f < next f) × (next f ≤ total)
  bounds = next_page_bounds raw col_start ncols segment_size total cols seg small

  next-no_wrap : (f : ℕ) → f < total → next f % u32_mod ≡ next f
  next-no_wrap f h = mod-eq_of_lt (omega (arith, bounds f h))

  loop_done :
      (fuel f : ℕ) (out : List Extent)
      → total ≤ f
      → loop (suc fuel) f out ≡ append_extent out max total xtnt_term 0
  unfolding interleave_loop
  loop_done fuel f out h = rw (le→ltb f total h) refl

  loop_merge :
      (fuel f : ℕ) (out : List Extent)
      → f < total
      → merges (get_last? out) f (at f) ≡ true
      → loop (suc fuel) f out ≡ loop fuel (next f) out
  unfolding interleave_loop
  loop_merge fuel f out h m = rw (lt→ltb f total h, m, next-no_wrap f h) refl

  loop_append :
      (fuel f : ℕ) (out : List Extent)
      → f < total
      → merges (get_last? out) f (at f) ≡ false
      → loop (suc fuel) f out
        ≡ (append_extent out max f (at f).blk (at f).vd >>= λ out'. loop fuel (next f) out')
  unfolding interleave_loop
  loop_append fuel f out h m = rw (lt→ltb f total h, m, next-no_wrap f h) refl

  loop_out_of_fuel : (f : ℕ) (out out' : List Extent) → loop zero f out ≢ ok out'
  unfolding interleave_loop
  loop_out_of_fuel f out out' h = cc

  pub loop-ne-stuck :
      (fuel f : ℕ) (out : List Extent) → f ≤ total → total < f + fuel → loop fuel f out ≢ stuck
  loop-ne-stuck zero f out le room h = absurd (omega arith)
  loop-ne-stuck (suc fuel) f out le room h = elim (dec_lt f total) [
    | no done ↦
        append-ne-stuck out max total xtnt_term 0 (sym (loop_done fuel f out (omega arith)) ∙ h)
    | yes more ↦
        let rest = λ (out' : List Extent).
          loop-ne-stuck fuel (next f) out' (omega (arith, bounds f more))
            (omega (arith, bounds f more)) in
        elim (Bool-cases (merges (get_last? out) f (at f))) [
          | inl m ↦ rest out (sym (loop_merge fuel f out more m) ∙ h)
          | inr m ↦
              bind-ne-stuck (append_extent out max f (at f).blk (at f).vd)
                (λ out'. loop fuel (next f) out') (append-ne-stuck out max f (at f).blk (at f).vd)
                rest (sym (loop_append fuel f out more m) ∙ h)
        ]
  ]

  -- With room for an entry of every page and for the terminator the loop succeeds.
  pub loop_total :
      (fuel f : ℕ) (out : List Extent)
      → f ≤ total
      → total < f + fuel
      → total < max
      → length out ≤ f
      → (out' : List Extent) × (loop fuel f out ≡ ok out')
  loop_total zero f out le room fits short = absurd (omega arith)
  loop_total (suc fuel) f out le room fits short = elim (dec_lt f total) [
    | no done ↦ (
      _,
      loop_done fuel f out (omega arith) ∙ append_room out max total xtnt_term 0 (omega arith),
    )
    | yes more ↦
        let rest = λ (out' : List Extent) (s : length out' ≤ next f).
          loop_total fuel (next f) out' (omega (arith, bounds f more))
            (omega (arith, bounds f more)) fits s in
        elim (Bool-cases (merges (get_last? out) f (at f))) [
          | inl m ↦
              let (out', e) = rest out (omega (arith, bounds f more)) in
              (out', loop_merge fuel f out more m ∙ e)
          | inr m ↦
              let grown = out ++ extent f (at f).blk (at f).vd ∷ [] in
              let (out', e) = rest grown (
                omega
                  (arith, bounds f more, length-append out (extent f (at f).blk (at f).vd ∷ []))) in
              (
                out',
                loop_append fuel f out more m
                    ∙ rw (append_room out max f (at f).blk (at f).vd (omega arith)) e,
              )
        ]
  ]

  module _ (columns : (c : ℕ) → c < ncols → IsColumn total (column raw col_start c)) where
    -- A page that lies where col_lookup reports it.
    placed :
        (p : ℕ) (e : Extent)
        → p < total
        → entry_place e p ≡ file_place raw col_start ncols segment_size p
        → (c : ℕ) × (xm : ℕ) × (c < ncols)
          × (p ≡ page_of ncols segment_size c xm)
          × PlacedIn (column raw col_start c) xm (entry_place e p)
    placed p e h right =
        let c = page_col ncols segment_size p in
        let xm = page_xm ncols segment_size p in
        let few : c < ncols = page_col-lt ncols segment_size cols seg p in
        let below = page_xm-le ncols segment_size cols seg p (omega arith) in
        (
          c,
          xm,
          few,
          sym (page_of-page_xm ncols segment_size cols seg p (omega arith)),
          subst (PlacedIn (column raw col_start c) xm) (sym right) (
              col_lookup-PlacedIn (column raw col_start c) total xm (omega (arith, below)) small
                (columns c few)),
        )

    IsFlat-IsStripeMap :
        (f : ℕ) (out out' : List Extent)
        → f ≡ total
        → IsFlat raw col_start ncols segment_size f out
        → out' ≡ out ++ extent total xtnt_term 0 ∷ []
        → IsStripeMap raw col_start ncols segment_size total out'
    IsFlat-IsStripeMap f out out' e inv grown = record {
      body = out;
      ends = grown;
      starts = rw e at inv.strict;
      maps = λ p h.
          let (x, found, right) = inv.maps p (omega arith) in
          let (c, xm, few, is_page, place) = placed p x h right in
          (
            c,
            xm,
            x,
            few,
            is_page,
            rw (grown, find_extent-concat out total 0 p) (rw e at found),
            place,
          );
    }

    pub loop-IsStripeMap :
        (fuel f : ℕ) (out out' : List Extent)
        → f ≤ total
        → IsFlat raw col_start ncols segment_size f out
        → loop fuel f out ≡ ok out'
        → IsStripeMap raw col_start ncols segment_size total out'
    loop-IsStripeMap zero f out out' le inv h = absurd (loop_out_of_fuel f out out' h)
    loop-IsStripeMap (suc fuel) f out out' le inv h = elim (dec_lt f total) [
      | no done ↦
          IsFlat-IsStripeMap f out out' (omega arith) inv
            (append-eq-ok out max total xtnt_term 0 (sym (loop_done fuel f out (omega arith)) ∙ h))
      | yes more ↦ elim (Bool-cases (merges (get_last? out) f (at f))) [
        | inl m ↦
            loop-IsStripeMap fuel (next f) out out' (bounds f more).1
              (merge-IsFlat raw col_start ncols segment_size total cols seg small columns f out more
                m inv)
              (sym (loop_merge fuel f out more m) ∙ h)
        | inr m ↦
            let (grown, rest, appended) =
              >>=-eq-ok (λ x. loop fuel (next f) x) (append_extent out max f (at f).blk (at f).vd)
                (sym (loop_append fuel f out more m) ∙ h) in
            loop-IsStripeMap fuel (next f) grown out' (bounds f more).1
              (rw (append-eq-ok out max f (at f).blk (at f).vd appended) (
                append-IsFlat raw col_start ncols segment_size total cols seg small columns f out
                  more inv))
              rest
      ]
    ]
