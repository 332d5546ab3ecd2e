-- ===== src/Extents/Count.antt =====
-- collect_array and advfs_extents_page_count against what they compute.
use advfs_fuse.Base.{
  ℕ, zero, suc, ◌+◌, ◌≤◌, ◌<◌, ◌≡◌, refl, ap, ◌∙◌, ◌⊎◌, inl, inr, List, [], ◌∷◌, ◌++◌, some, arith,
  ltb, if◌then◌else◌, le→leb, lt→leb, stuck, ◌≢◌, All, All-concat, length, length-append, ok, err,
  eoverflow, min,
}
use mathlib.Core.List.{append-nil, append_assoc}
use native.Mathlib.Decide.{dec_le}
use advfs_fuse.Ods.{Bytes, u32_mod, xtnt_term, read_xtnt}
use advfs_fuse.Extents.{
  Extent, extent, append_extent, collect_from, collect_array, page_cand, page_count_from,
  page_count,
}

min_if : (a b : ℕ) → (if ltb b a then b else a) ≡ min a b
min_if a b = ground arith

pub append-eq-ok :
    (out : List Extent) (max b k v : ℕ) {out' : List Extent}
    → append_extent out max b k v ≡ ok out'
    → out' ≡ out ++ extent b k v ∷ []
unfolding append_extent
append-eq-ok out max b k v h = ground arith

pub append-ne-stuck : (out : List Extent) (max b k v : ℕ) → append_extent out max b k v ≢ stuck
unfolding append_extent
append-ne-stuck out max b k v h = ground arith

pub append_room :
    (out : List Extent) (max b k v : ℕ)
    → length out < max
    → append_extent out max b k v ≡ ok (out ++ extent b k v ∷ [])
unfolding append_extent
append_room out max b k v h = rw (lt→leb max (length out) h) refl

append_full :
    (out : List Extent) (max b k v : ℕ)
    → max ≤ length out
    → append_extent out max b k v ≡ err eoverflow
unfolding append_extent
append_full out max b k v h = rw (le→leb max (length out) h) refl

-- Descriptors i, i + 1, ..., `left` of them, on volume `vd`.
abbrev pub descriptors : Bytes → ℕ → ℕ → ℕ → List Extent
descriptors xtnts i zero vd = []
descriptors xtnts i (suc left) vd =
    extent (read_xtnt xtnts i).bs_page (read_xtnt xtnts i).vd_blk vd
    ∷ descriptors xtnts (i + 1) left vd

pub length-descriptors :
    (xtnts : Bytes) (i left vd : ℕ) → length (descriptors xtnts i left vd) ≡ left
length-descriptors xtnts i zero vd = refl
length-descriptors xtnts i (suc left) vd = ap suc (length-descriptors xtnts (i + 1) left vd)

collect_from_ok :
    (xtnts : Bytes) (i left : ℕ) (out : List Extent) (max vd : ℕ)
    → length out + left ≤ max
    → collect_from xtnts i left out max vd ≡ ok (out ++ descriptors xtnts i left vd)
unfolding collect_from
collect_from_ok xtnts i zero out max vd h = rw append-nil refl
collect_from_ok xtnts i (suc left) out max vd h =
    let x = read_xtnt xtnts i in
    let e = extent x.bs_page x.vd_blk vd in
    rw (append_room out max x.bs_page x.vd_blk vd (omega arith)) (
      collect_from_ok xtnts (i + 1) left (out ++ e ∷ []) max vd
        (omega (arith, length-append out (e ∷ [])))
      ∙ ap ok (append_assoc out (e ∷ []) (descriptors xtnts (i + 1) left vd)))

collect_from_overflow :
    (xtnts : Bytes) (i left : ℕ) (out : List Extent) (max vd : ℕ)
    → length out ≤ max
    → max < length out + left
    → collect_from xtnts i left out max vd ≡ err eoverflow
unfolding collect_from
collect_from_overflow xtnts i zero out max vd le h = absurd (omega arith)
collect_from_overflow xtnts i (suc left) out max vd le h =
    let x = read_xtnt xtnts i in
    let e = extent x.bs_page x.vd_blk vd in
    elim (dec_le max (length out)) [
      | yes full ↦ rw (append_full out max x.bs_page x.vd_blk vd full) refl
      | no room ↦ rw (append_room out max x.bs_page x.vd_blk vd (omega arith)) (
          collect_from_overflow xtnts (i + 1) left (out ++ e ∷ []) max vd
            (omega (arith, length-append out (e ∷ []))) (omega (arith, length-append out (e ∷ []))))
    ]

-- collect_array, into an array that holds at most `max` entries: it appends the first
-- min(x_cnt, x_max) descriptors, tagged with `vd`, if they fit, and gives EOVERFLOW if not.
pub collect_array_lem :
    (xtnts : Bytes) (x_cnt x_max : ℕ) (out : List Extent) (max vd : ℕ)
    → length out ≤ max
    → ((length out + min x_cnt x_max ≤ max)
        × (collect_array xtnts x_cnt x_max out max vd
            ≡ ok (out ++ descriptors xtnts 0 (min x_cnt x_max) vd)))
      ⊎ ((max < length out + min x_cnt x_max)
          × (collect_array xtnts x_cnt x_max out max vd ≡ err eoverflow))
unfolding collect_array
collect_array_lem xtnts x_cnt x_max out max vd le =
    rw (min_if x_cnt x_max) (elim (dec_le (length out + min x_cnt x_max) max) [
      | yes fits ↦ inl (fits, collect_from_ok xtnts 0 (min x_cnt x_max) out max vd fits)
      | no over ↦
          inr (
            omega arith,
            collect_from_overflow xtnts 0 (min x_cnt x_max) out max vd le (omega arith),
          )
    ])

-- One round of the loop of advfs_extents_page_count.
abbrev larger : ℕ → Extent → ℕ
larger m e = if ltb m (page_cand e) then page_cand e else m

larger_bounds :
    (m : ℕ) (e : Extent)
    → (m ≤ larger m e)
      × (page_cand e ≤ larger m e)
      × ((larger m e ≡ m) ⊎ (larger m e ≡ page_cand e))
larger_bounds m e = ground arith

page_count_from-ge : (m : ℕ) (es : List Extent) → m ≤ page_count_from m es
unfolding page_count_from
page_count_from-ge m [] = omega arith
page_count_from-ge m (e ∷ rest) =
    omega (arith, page_count_from-ge (larger m e) rest, larger_bounds m e)

page_count_from-All : (m : ℕ) (es : List Extent) → All (λ e. page_cand e ≤ page_count_from m es) es
unfolding page_count_from
page_count_from-All m [] = tt
page_count_from-All m (e ∷ rest) = (
  omega (arith, page_count_from-ge (larger m e) rest, larger_bounds m e),
  page_count_from-All (larger m e) rest,
)

page_count_from-le :
    (m : ℕ) (es : List Extent) (t : ℕ)
    → m ≤ t
    → All (λ e. page_cand e ≤ t) es
    → page_count_from m es ≤ t
unfolding page_count_from
page_count_from-le m [] t h a = h
page_count_from-le m (e ∷ rest) t h a =
    page_count_from-le (larger m e) rest t (ground (arith, a.0)) a.1

-- advfs_extents_page_count is the least number of pages that no entry exceeds: it is at least the
-- count of each entry (its start for TERM and PERM_HOLE, one more for a mapped run), and at most
-- any bound on these.
pub page_count_least :
    (es : List Extent)
    → All (λ e. page_cand e ≤ page_count (some es)) es
      × ((t : ℕ) → All (λ e. page_cand e ≤ t) es → page_count (some es) ≤ t)
unfolding page_count
page_count_least es = (page_count_from-All 0 es, λ t a. page_count_from-le 0 es t (omega arith) a)

All-last : (P : Extent → Type 0) (es : List Extent) {x : Extent} → All P (es ++ x ∷ []) → P x
All-last P [] h = h.0
All-last P (e ∷ rest) h = All-last P rest h.1

starts-cand :
    (es : List Extent) (t : ℕ)
    → t < u32_mod
    → All (λ e. e.bs_page < t) es
    → All (λ e. page_cand e ≤ t) es
unfolding page_cand
starts-cand [] t h a = tt
starts-cand (e ∷ rest) t h a = (ground (arith, a.0), starts-cand rest t h a.1)

-- For a map that ends in a terminator above all starts, the page count is the terminator's start.
pub page_count-terminator :
    (body : List Extent) (t vd : ℕ)
    → t < u32_mod
    → All (λ e. e.bs_page < t) body
    → page_count (some (body ++ extent t xtnt_term vd ∷ [])) ≡ t
page_count-terminator body t vd small starts =
    let es = body ++ extent t xtnt_term vd ∷ [] in
    let (above, least) = page_count_least es in
    let term : page_cand (extent t xtnt_term vd) ≡ t = unfold page_cand in refl in
    omega (
      arith,
      term,
      All-last (λ e. page_cand e ≤ page_count (some es)) body above,
      least t (
          All-concat (λ e. page_cand e ≤ t) body _ (starts-cand body t small starts)
            (omega (arith, term))),
    )
