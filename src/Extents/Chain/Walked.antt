-- ===== src/Extents/Chain/Walked.antt =====
-- The chain loop follows the links, and collects the map that they stand for.
use advfs_fuse.Base.{
  ℕ, ◌≤◌, ◌≡◌, refl, sym, ap, ◌∙◌, inl, inr, Bool, true, false, ◌||◌, List, [], ◌∷◌, ◌++◌, none,
  some, arith, leb, if◌then◌else◌, length, length-append, Result, stuck, ok, err, eilseq, >>=-eq-ok,
  guard-eq-ok, ltb, min,
}
use advfs_fuse.Ods.{
  Bytes, Mcell, bsr_xtra_xtnts, bsr_shadow_xtnts, bmt_xtra_xtnts, bmt_shadow_xtnts, rec_data_sz,
  xtra_x_cnt, xtra_xtnts, shadow_x_cnt, shadow_xtnts,
}
use advfs_fuse.Bmt.{Rec, find_rec}
use advfs_fuse.Extents.{Extent, max_extents, collect_array}
use advfs_fuse.Extents.Stripe.{max_stripe_cols}
use advfs_fuse.Extents.Chain.{
  rec_bytes, Walk, put_raw, take_xtra, take_shadow, discard_stubs, start_column,
}
use advfs_fuse.Extents.Chain.Links.{Link, Holds, xtra, shadow}
use advfs_fuse.Extents.Count.{descriptors, collect_array_lem, length-descriptors}

-- What the loop variables are after a link.
abbrev pub base_raw : Walk → Link → List Extent
base_raw w l = if l.shadow then (if w.found_shadow then w.raw else []) else w.raw

pub record Takes (is_stripe : Bool) (w : Walk) (l : Link) (w' : Walk) : Type 0 where
  pub raw_is : w'.raw ≡ base_raw w l ++ l.entries
  pub found_is : w'.found_shadow ≡ (w.found_shadow || l.shadow)
  pub cols_are :
      is_stripe ≡ true
      → w'.col_start ≡ (if l.shadow then w.col_start ++ length (base_raw w l) ∷ [] else w.col_start)
  pub room : length w'.raw ≤ max_extents

pub collect-eq-ok :
    (xtnts : Bytes) (cnt most : ℕ) (out : List Extent) (vd : ℕ) (out' : List Extent)
    → length out ≤ max_extents
    → collect_array xtnts cnt most out max_extents vd ≡ ok out'
    → (out' ≡ out ++ descriptors xtnts 0 (min cnt most) vd) × (length out' ≤ max_extents)
collect-eq-ok xtnts cnt most out vd out' le h =
    let ds = descriptors xtnts 0 (min cnt most) vd in
    elim (collect_array_lem xtnts cnt most out max_extents vd le) [
      | inl (fits, e) ↦
          let outs : out' ≡ out ++ ds = cc in
          (
            outs,
            rw outs
                (omega (arith, length-append out ds, length-descriptors xtnts 0 (min cnt most) vd)),
          )
      | inr (over, e) ↦ cc
    ]

put_raw-eq-ok :
    (w w' : Walk) (collected : Result (List Extent))
    → put_raw w collected ≡ ok w'
    → (raw : List Extent) × (collected ≡ ok raw) × (w' ≡ record w { raw = raw })
unfolding put_raw
put_raw-eq-ok w w' (ok raw) h = (raw, refl, cc)
put_raw-eq-ok w w' (err e) h = cc
put_raw-eq-ok w w' stuck h = cc

-- What is collected behind `b`, where `b` is `w` as the kind of the record prepares it.
put_raw-Takes :
    (is_stripe : Bool) (w b w' : Walk) (l : Link) (xtnts : Bytes) (cnt most vd : ℕ)
    → b.raw ≡ base_raw w l
    → b.found_shadow ≡ (w.found_shadow || l.shadow)
    → (is_stripe ≡ true
        → b.col_start
          ≡ (if l.shadow then w.col_start ++ length (base_raw w l) ∷ [] else w.col_start))
    → l.entries ≡ descriptors xtnts 0 (min cnt most) vd
    → length b.raw ≤ max_extents
    → put_raw b (collect_array xtnts cnt most b.raw max_extents vd) ≡ ok w'
    → Takes is_stripe w l w'
put_raw-Takes is_stripe w b w' l xtnts cnt most vd raws founds cols es le h =
    let (out, collected, e) =
      put_raw-eq-ok b w' (collect_array xtnts cnt most b.raw max_extents vd) h in
    let (out_is, out_le) = collect-eq-ok xtnts cnt most b.raw vd out le collected in
    record {
      raw_is = ap (λ v. v.raw) e ∙ out_is ∙ rw (raws, es) refl;
      found_is = ap (λ v. v.found_shadow) e ∙ founds;
      cols_are = λ s. ap (λ v. v.col_start) e ∙ cols s;
      room = rw (ap (λ v. v.raw) e) out_le;
    }

or-eq-false : (b : Bool) → b ≡ (b || false)
or-eq-false true = refl
or-eq-false false = refl

-- An XTRA record's descriptors go behind the rest.
pub take_xtra-Takes :
    (is_stripe : Bool) (w w' : Walk) (mc : Mcell) (r : Rec) (vd : ℕ)
    → length w.raw ≤ max_extents
    → find_rec mc.records bsr_xtra_xtnts ≡ some r
    → take_xtra w mc r vd ≡ ok w'
    → (l : Link) × Holds mc vd l × Takes is_stripe w l w'
unfolding take_xtra
take_xtra-Takes is_stripe w w' mc r vd le found h =
    let xs = xtra_xtnts (rec_bytes mc r) in
    let cnt = xtra_x_cnt (rec_bytes mc r) in
    let es = descriptors xs 0 (min cnt bmt_xtra_xtnts) vd in
    let l : Link = record { shadow = false; entries = es } in
    let put = guard-eq-ok eilseq (ltb (rec_data_sz r.hdr) 4) _ h in
    (
      l,
      xtra r found refl refl,
      put_raw-Takes is_stripe w w w' l xs cnt bmt_xtra_xtnts vd refl (or-eq-false w.found_shadow)
          (λ _. refl) refl le put,
    )

abbrev Prepared : Walk → Walk → Bool → Type 0
Prepared w w' is_stripe =
    (w'.raw ≡ w.raw)
    × (w'.found_shadow ≡ w.found_shadow)
    × (is_stripe ≡ true → w'.col_start ≡ w.col_start ++ length w.raw ∷ [])

column_if :
    (full is_stripe : Bool) (w w' : Walk)
    → (if full
        then (if is_stripe then err eilseq else ok w)
        else ok (record w { col_start = w.col_start ++ length w.raw ∷ [] }))
      ≡ ok w'
    → Prepared w w' is_stripe
column_if true true w w' h = cc
column_if true false w w' h =
    let e : w ≡ w' = cc in (sym (ap (λ v. v.raw) e), sym (ap (λ v. v.found_shadow) e), λ s. cc)
column_if false is_stripe w w' h =
    let e : record w { col_start = w.col_start ++ length w.raw ∷ [] } ≡ w' = cc in
    (sym (ap (λ v. v.raw) e), sym (ap (λ v. v.found_shadow) e), λ _. sym (ap (λ v. v.col_start) e))

-- A SHADOW record starts a column, and the first one replaces the stubs.
start_column-eq-ok :
    (is_stripe : Bool) (w w' : Walk) → start_column is_stripe w ≡ ok w' → Prepared w w' is_stripe
unfolding start_column
start_column-eq-ok is_stripe w w' h =
    column_if (leb max_stripe_cols (length w.col_start)) is_stripe w w' h

discarded :
    (w : Walk) (found : Bool)
    → w.found_shadow ≡ found
    → ((if found then w else record w { raw = []; found_shadow = true }).raw
        ≡ (if found then w.raw else []))
      × ((if found then w else record w { raw = []; found_shadow = true }).found_shadow
          ≡ (found || true))
      × ((if found then w else record w { raw = []; found_shadow = true }).col_start ≡ w.col_start)
discarded w true e = (refl, e, refl)
discarded w false e = (refl, refl, refl)

discard_stubs_lem :
    (w : Walk)
    → ((discard_stubs w).raw ≡ (if w.found_shadow then w.raw else []))
      × ((discard_stubs w).found_shadow ≡ (w.found_shadow || true))
      × ((discard_stubs w).col_start ≡ w.col_start)
unfolding discard_stubs
discard_stubs_lem w = discarded w w.found_shadow refl

kept_room :
    (b : Bool) (raw : List Extent)
    → length raw ≤ max_extents
    → length (if b then raw else []) ≤ max_extents
kept_room true raw le = le
kept_room false raw le = omega arith

pub take_shadow-Takes :
    (is_stripe : Bool) (w w' : Walk) (mc : Mcell) (r : Rec) (vd : ℕ)
    → length w.raw ≤ max_extents
    → find_rec mc.records bsr_xtra_xtnts ≡ none
    → find_rec mc.records bsr_shadow_xtnts ≡ some r
    → take_shadow is_stripe w mc r vd ≡ ok w'
    → (l : Link) × Holds mc vd l × Takes is_stripe w l w'
unfolding take_shadow
take_shadow-Takes is_stripe w w' mc r vd le no_xtra found h =
    let xs = shadow_xtnts (rec_bytes mc r) in
    let cnt = shadow_x_cnt (rec_bytes mc r) in
    let es = descriptors xs 0 (min cnt bmt_shadow_xtnts) vd in
    let l : Link = record { shadow = true; entries = es } in
    let (b, put, started) =
      >>=-eq-ok _ (start_column is_stripe (discard_stubs w))
        (guard-eq-ok eilseq (ltb (rec_data_sz r.hdr) 8) _ h) in
    let (raws, founds, cols) = start_column-eq-ok is_stripe (discard_stubs w) b started in
    let (raw_is, found_is, cols_are) = discard_stubs_lem w in
    (
      l,
      shadow r no_xtra found refl refl,
      put_raw-Takes is_stripe w b w' l xs cnt bmt_shadow_xtnts vd (raws ∙ raw_is)
          (founds ∙ found_is) (λ s. cols s ∙ rw (raw_is, cols_are) refl) refl
          (rw (raws ∙ raw_is) (kept_room w.found_shadow w.raw le)) put,
    )
