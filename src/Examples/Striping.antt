-- ===== src/Examples/Striping.antt =====
-- Two stripe columns of four pages each, in segments of two pages; the first has two extents.
use advfs_fuse.Base.{
  ℕ, zero, suc, ◌<◌, ◌≡◌, refl, ◌≢◌, ◌↔◌, true, List, [], ◌∷◌, some, arith, ok, stuck,
}
use advfs_fuse.Ods.{Bytes, xtnt_term}
use advfs_fuse.Runs.{Covers}
use advfs_fuse.Extents.{Extent, extent, page_count}
use advfs_fuse.Extents.Lookup.{find_extent, extent_start, extent_stops, find_extent-iff-Covers}
use advfs_fuse.Extents.Stripe.{
  stripe_interleave, column, total_from, page_col, page_xm, interleave_loop,
}
use advfs_fuse.Extents.Stripe.Pages.{page_of, page_of-page_xm}
use advfs_fuse.Extents.Stripe.Columns.{IsColumn}
use advfs_fuse.Extents.Stripe.Interleave.{IsStripeMap}
use advfs_fuse.Extents.Stripe.Correct.{
  AreValid, stripe_interleave-IsStripeMap, stripe_interleave_total, stripe_interleave-ne-stuck,
}

abbrev raw : List Extent
raw =
    extent 0 160 1
    ∷ extent 2 400 1
    ∷ extent 4 xtnt_term 1
    ∷ extent 0 320 2
    ∷ extent 4 xtnt_term 2
    ∷ []

abbrev starts : List ℕ
starts = 0 ∷ 3 ∷ 5 ∷ []

abbrev flat : List Extent
flat = extent 0 160 1 ∷ extent 2 320 2 ∷ extent 4 400 1 ∷ extent 6 352 2 ∷ extent 8 xtnt_term 0 ∷ []

interleaves : stripe_interleave true raw starts 2 2 100 ≡ ok flat
unfolding stripe_interleave total_from interleave_loop page_count
interleaves = refl

valid : AreValid 2 2 100
valid = omega arith

total_eight : total_from raw starts 0 2 0 ≡ 8
unfolding total_from page_count
total_eight = refl

columns_at : (t c : ℕ) → t ≡ 8 → c < 2 → IsColumn t (column raw starts c)
unfolding column
columns_at t zero e h =
    (refl, (omega arith, (λ _. omega arith), (omega arith, (λ _. omega arith), λ f. cc f)))
columns_at t (suc zero) e h = (refl, (omega arith, (λ _. omega arith), λ f. cc f))
columns_at t (suc (suc c)) e h = absurd (omega arith)

stripe_interleave-IsStripeMap_example :
    IsStripeMap raw starts 2 2 (total_from raw starts 0 2 0) flat
stripe_interleave-IsStripeMap_example =
    stripe_interleave-IsStripeMap raw starts 2 2 100 flat valid
      (λ c h. columns_at (total_from raw starts 0 2 0) c total_eight h) interleaves

stripe_interleave_total_example :
    (out : List Extent) × (stripe_interleave true raw starts 2 2 100 ≡ ok out)
stripe_interleave_total_example =
    stripe_interleave_total raw starts 2 2 100 valid (omega (arith, total_eight))
      (omega (arith, total_eight))

stripe_interleave-ne-stuck_example : stripe_interleave true raw starts 2 2 3 ≢ stuck
stripe_interleave-ne-stuck_example = stripe_interleave-ne-stuck raw starts 2 2 3 true

page_of-page_xm_example : page_of 2 2 (page_col 2 2 7) (page_xm 2 2 7) ≡ 7
page_of-page_xm_example = page_of-page_xm 2 2 (omega arith) (omega arith) 7 (omega arith)

find_extent-iff-Covers_example :
    (find_extent flat 5 ≡ some (extent 4 400 1))
    ↔ Covers extent_start extent_stops flat 5 (extent 4 400 1)
find_extent-iff-Covers_example = find_extent-iff-Covers flat 5 (extent 4 400 1) (omega arith)

abbrev zeros : Bytes
zeros = λ _. 0
