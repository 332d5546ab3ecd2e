-- ===== src/Extents/Stripe/Pages.antt =====
-- The mapping of file pages to stripe columns.
use advfs_fuse.Base.{ℕ, ◌+◌, ◌*◌, ◌/◌, ◌%◌, ◌≤◌, ◌<◌, ◌≡◌, refl, ap, ◌∙◌, arith}
use native.Mathlib.Nat.{mul-le-mul_right, div-le_self, mod-lt}
use advfs_fuse.Ods.{u32_mod}
use advfs_fuse.Extents.Stripe.{page_col, page_xm}

-- The file page that column `col` holds at its page `xm`.
abbrev pub page_of : ℕ → ℕ → ℕ → ℕ → ℕ
page_of ncols segment_size col xm =
    (xm / segment_size * ncols + col) * segment_size + xm % segment_size

div_unique : (a r d : ℕ) → r < d → (a * d + r) / d ≡ a
div_unique a r d h = grind arith

mod_unique : (a r d : ℕ) → r < d → (a * d + r) % d ≡ r
mod_unique a r d h = grind arith

div_mod : (n d : ℕ) → n ≡ n / d * d + n % d
div_mod n d = grind arith

module _ (ncols segment_size : ℕ) (cols : 0 < ncols) (seg : 0 < segment_size) where
  pub page_col-lt : (f : ℕ) → page_col ncols segment_size f < ncols
  unfolding page_col
  page_col-lt f = mod-lt (f / segment_size) cols

  -- The column-relative page is no larger than the file page, so it does not wrap.
  page_xm_exact :
      (f : ℕ)
      → f < u32_mod
      → page_xm ncols segment_size f ≡ f / segment_size / ncols * segment_size + f % segment_size
  unfolding page_xm
  page_xm_exact f h = omega (
    arith,
    div_mod f segment_size,
    mul-le-mul_right segment_size (div-le_self (f / segment_size) ncols),
  )

  pub page_xm-le : (f : ℕ) → f < u32_mod → page_xm ncols segment_size f ≤ f
  page_xm-le f h = omega (
    arith,
    page_xm_exact f h,
    div_mod f segment_size,
    mul-le-mul_right segment_size (div-le_self (f / segment_size) ncols),
  )

  -- A file page is found again from its column and its page in that column.
  pub page_of-page_xm :
      (f : ℕ)
      → f < u32_mod
      → page_of ncols segment_size (page_col ncols segment_size f) (page_xm ncols segment_size f)
        ≡ f
  unfolding page_col
  page_of-page_xm f h =
      let a = f / segment_size / ncols in
      let r = f % segment_size in
      let small = mod-lt f seg in
      rw
        (
          page_xm_exact f h,
          div_unique a r segment_size small,
          mod_unique a r segment_size small,
          ← div_mod (f / segment_size) ncols,
          ← div_mod f segment_size,
        )
        refl

  page_of_div :
      (col xm : ℕ)
      → page_of ncols segment_size col xm / segment_size ≡ xm / segment_size * ncols + col
  page_of_div col xm = div_unique _ (xm % segment_size) segment_size (mod-lt xm seg)

  page_of_mod : (col xm : ℕ) → page_of ncols segment_size col xm % segment_size ≡ xm % segment_size
  page_of_mod col xm = mod_unique _ (xm % segment_size) segment_size (mod-lt xm seg)

  -- Every page of every column is the place of the file page `page_of`.
  pub page_col-page_of :
      (col xm : ℕ)
      → col < ncols
      → page_of ncols segment_size col xm < u32_mod
      → (page_col ncols segment_size (page_of ncols segment_size col xm) ≡ col)
        × (page_xm ncols segment_size (page_of ncols segment_size col xm) ≡ xm)
  page_col-page_of col xm c h =
      let a = xm / segment_size in
      let r = xm % segment_size in
      let q = page_of_div col xm in
      let small = mod-lt xm seg in
      (
        unfold page_col in rw (q, mod_unique a col ncols c) refl,
        rw
            (
              page_xm_exact (page_of ncols segment_size col xm) h,
              q,
              page_of_mod col xm,
              div_unique a col ncols c,
              ← div_mod xm segment_size,
            )
            refl,
      )

  shift_sum : (f j : ℕ) → f + j ≡ f / segment_size * segment_size + (f % segment_size + j)
  shift_sum f j = omega (arith, div_mod f segment_size)

  shift_div :
      (f j : ℕ) → f % segment_size + j < segment_size → (f + j) / segment_size ≡ f / segment_size
  shift_div f j r =
      ap (λ x. x / segment_size) (shift_sum f j)
      ∙ div_unique (f / segment_size) (f % segment_size + j) segment_size r

  shift_mod :
      (f j : ℕ)
      → f % segment_size + j < segment_size
      → (f + j) % segment_size ≡ f % segment_size + j
  shift_mod f j r =
      ap (λ x. x % segment_size) (shift_sum f j)
      ∙ mod_unique (f / segment_size) (f % segment_size + j) segment_size r

  -- Within a segment, consecutive file pages are consecutive pages of one column.
  pub page_xm_shift :
      (f j : ℕ)
      → f % segment_size + j < segment_size
      → f + j < u32_mod
      → (page_col ncols segment_size (f + j) ≡ page_col ncols segment_size f)
        × (page_xm ncols segment_size (f + j) ≡ page_xm ncols segment_size f + j)
  unfolding page_col
  page_xm_shift f j r h =
      let q = shift_div f j r in
      (
        rw q refl,
        rw (page_xm_exact (f + j) h, page_xm_exact f (omega arith), q, shift_mod f j r)
            (omega arith),
      )
