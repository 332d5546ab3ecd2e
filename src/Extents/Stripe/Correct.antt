-- ===== src/Extents/Stripe/Correct.antt =====
-- advfs_extents_stripe_interleave as its callers see it.
use advfs_fuse.Base.{
  ℕ, suc, ◌≤◌, ◌<◌, ◌≡◌, refl, sym, ◌∙◌, ◌≢◌, Bool, true, List, [], arith, le→ltb, pos-==-zero, ok,
  stuck,
}
use native.Mathlib.Decide.{dec_le}
use advfs_fuse.Ods.{uint32_max}
use advfs_fuse.Extents.{Extent}
use advfs_fuse.Extents.Stripe.{
  column, interleave_loop, total_from, stripe_interleave, max_stripe_cols,
}
use advfs_fuse.Extents.Stripe.Columns.{IsColumn}
use advfs_fuse.Extents.Stripe.Loop.{IsFlat}
use advfs_fuse.Extents.Stripe.Interleave.{IsStripeMap, loop-ne-stuck, loop_total, loop-IsStripeMap}

-- The arguments that the function accepts.
pub record AreValid (ncols segment_size max : ℕ) : Type 0 where
  pub some_cols : 0 < ncols
  pub few_cols : ncols ≤ max_stripe_cols
  pub some_pages : 0 < segment_size
  pub some_room : 0 < max

module _ (raw : List Extent) (col_start : List ℕ) (ncols segment_size max : ℕ) where
  abbrev pub total_pages : ℕ
  total_pages = total_from raw col_start 0 ncols 0

  interleave_lem :
      AreValid ncols segment_size max
      → total_pages ≤ uint32_max
      → stripe_interleave true raw col_start ncols segment_size max
        ≡ interleave_loop (suc total_pages) raw col_start ncols segment_size total_pages max 0 []
  unfolding stripe_interleave
  interleave_lem v h =
      rw
        (
          le→ltb ncols 1 v.some_cols,
          le→ltb max_stripe_cols ncols v.few_cols,
          le→ltb uint32_max total_pages h,
          pos-==-zero segment_size v.some_pages,
          pos-==-zero max v.some_room,
        )
        refl

  interleave_too_large :
      ¬ (total_pages ≤ uint32_max)
      → (out : List Extent) → stripe_interleave true raw col_start ncols segment_size max ≢ ok out
  unfolding stripe_interleave
  interleave_too_large large out h = ground arith

  IsFlat-start : IsFlat raw col_start ncols segment_size 0 []
  IsFlat-start = record { before = tt; strict = tt; wide = tt; maps = λ p h. absurd (omega arith) }

  -- For 1 to 16 columns, a segment size and a capacity that are not 0, and columns that are each
  -- empty or start at page 0 with ordered, addressable extents: whenever
  -- advfs_extents_stripe_interleave succeeds, its output is a flat map of the file. Every file page
  -- below the total page count is one page of one column under the round-robin arrangement, is found
  -- by the reader's lookup, and lies where the extent of that column that covers the page puts it,
  -- or in a hole if the column is empty; the entries before the last start below the
  -- total, and the last is the terminator at the total.
  pub stripe_interleave-IsStripeMap :
      (out : List Extent)
      → AreValid ncols segment_size max
      → ((c : ℕ) → c < ncols → IsColumn total_pages (column raw col_start c))
      → stripe_interleave true raw col_start ncols segment_size max ≡ ok out
      → IsStripeMap raw col_start ncols segment_size total_pages out
  stripe_interleave-IsStripeMap out v columns h = elim (dec_le total_pages uint32_max) [
    | no large ↦ absurd (interleave_too_large large out h)
    | yes small ↦
        loop-IsStripeMap raw col_start ncols segment_size total_pages v.some_cols v.some_pages small
          max columns (suc total_pages) 0 [] out (omega arith) IsFlat-start
          (sym (interleave_lem v small) ∙ h)
  ]

  -- With valid arguments, a total that fits 32 bits and a capacity above the total,
  -- advfs_extents_stripe_interleave succeeds, whatever the columns hold.
  pub stripe_interleave_total :
      AreValid ncols segment_size max
      → total_pages ≤ uint32_max
      → total_pages < max
      → (out : List Extent) × (stripe_interleave true raw col_start ncols segment_size max ≡ ok out)
  stripe_interleave_total v small fits =
      let (out, e) =
        loop_total raw col_start ncols segment_size total_pages v.some_cols v.some_pages small max
          (suc total_pages) 0 [] (omega arith) (omega arith) fits (omega arith) in
      (out, interleave_lem v small ∙ e)

  guarded :
      (pointers : Bool)
      → stripe_interleave pointers raw col_start ncols segment_size max ≡ stuck
      → AreValid ncols segment_size max × (total_pages ≤ uint32_max) × (pointers ≡ true)
  unfolding stripe_interleave
  guarded pointers h = ground arith

  -- The loop of advfs_extents_stripe_interleave ends on every input: total + 1 rounds are enough.
  pub stripe_interleave-ne-stuck :
      (pointers : Bool) → stripe_interleave pointers raw col_start ncols segment_size max ≢ stuck
  stripe_interleave-ne-stuck pointers h =
      let (v, small, given) = guarded pointers h in
      loop-ne-stuck raw col_start ncols segment_size total_pages v.some_cols v.some_pages small max
        (suc total_pages) 0 [] (omega arith) (omega arith)
        (sym (interleave_lem v small) ∙ rw given at h)
