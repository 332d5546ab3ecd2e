-- ===== src/Bmt/Records.antt =====
-- advfs_bmt_find_rec against the chain of records in an mcell, its bounds, and its agreement with
-- advfs_bmt_next_rec.
use advfs_fuse.Base.{
  ℕ, zero, suc, ◌+◌, ◌*◌, ◌≤◌, ◌<◌, ◌≡◌, refl, sym, ap, ◌∙◌, ◌≢◌, ◌↔◌, ◌⊎◌, inl, inr, some, arith,
}
use mathlib.Core.Path.{subst}
use native.Mathlib.Decide.{ℕ_discrete, dec_le}
use advfs_fuse.Ods.{
  Bytes, read_u32, bsr_nil, bsc_r_sz, rec_bcnt, rec_type, rec_next_off, rec_data_sz,
}
use advfs_fuse.Bmt.{
  Rec, Scan, found, absent, scan_records, scan_rounds, scan_result, find_rec, next_rec,
}

-- A record lies at `p`: its header is inside the area and not nil, its count covers the header, and
-- it ends inside the area.
pub record IsRec (b : Bytes) (p : ℕ) : Type 0 where
  pub room : p + 4 ≤ bsc_r_sz
  pub present : rec_type (read_u32 b p) ≢ bsr_nil
  pub covers_hdr : 4 ≤ rec_bcnt (read_u32 b p)
  pub ends : p + rec_bcnt (read_u32 b p) ≤ bsc_r_sz

abbrev pub next_at : Bytes → ℕ → ℕ
next_at b p = p + rec_next_off (rec_bcnt (read_u32 b p))

-- Walking the records from `p`, the first of the type is at `q`.
pub data First (b : Bytes) (type : ℕ) : ℕ → ℕ → Type 0 where
  here : {p q : ℕ} → IsRec b p → rec_type (read_u32 b p) ≡ type → p ≡ q → First b type p q
  skip :
      {p q : ℕ}
      → IsRec b p
      → rec_type (read_u32 b p) ≢ type
      → First b type (next_at b p) q
      → First b type p q

next_off-le : (n : ℕ) → 4 ≤ n → 4 ≤ rec_next_off n
unfolding rec_next_off
next_off-le n h = omega arith

found-ne-absent : {r : Rec} → found r ≡ absent → ⊥
found-ne-absent h = cc

Scan-record : {r s : Rec} → found r ≡ found s → r ≡ s
Scan-record h = cc

data_sz_bounds :
    (h p : ℕ) → 4 ≤ rec_bcnt h → p + rec_bcnt h ≤ bsc_r_sz → p + 4 + rec_data_sz h ≤ bsc_r_sz
unfolding rec_data_sz
data_sz_bounds h p a c = ground arith

module _ (b : Bytes) (type : ℕ) where
  IsRec-cases : (p : ℕ) → IsRec b p ⊎ (¬ IsRec b p)
  IsRec-cases p = elim (dec_le (p + 4) bsc_r_sz) [
    | no f ↦ inr (λ v. f v.room)
    | yes room ↦ elim (ℕ_discrete (rec_type (read_u32 b p)) bsr_nil) [
      | yes nil ↦ inr (λ v. v.present nil)
      | no present ↦ elim (dec_le 4 (rec_bcnt (read_u32 b p))) [
        | no f ↦ inr (λ v. f v.covers_hdr)
        | yes covers ↦ elim (dec_le (p + rec_bcnt (read_u32 b p)) bsc_r_sz) [
          | no f ↦ inr (λ v. f v.ends)
          | yes ends ↦
              inl (record { room = room; present = present; covers_hdr = covers; ends = ends })
        ]
      ]
    ]
  ]

  scan_hit :
      (k p : ℕ)
      → IsRec b p
      → rec_type (read_u32 b p) ≡ type
      → scan_records (suc k) b type p ≡ found (record { offset = p; hdr = read_u32 b p })
  unfolding scan_records
  scan_hit k p v t = ground arith

  scan_skip :
      (k p : ℕ)
      → IsRec b p
      → rec_type (read_u32 b p) ≢ type
      → scan_records (suc k) b type p ≡ scan_records k b type (next_at b p)
  unfolding scan_records
  scan_skip k p v t = ground arith

  scan_outside : (k p : ℕ) → ¬ IsRec b p → scan_records (suc k) b type p ≡ absent
  unfolding scan_records
  scan_outside k p h = ground arith

  scan_sound :
      (k p : ℕ) (r : Rec)
      → scan_records k b type p ≡ found r
      → (r.hdr ≡ read_u32 b r.offset) × First b type p r.offset
  scan_sound zero p r h = absurd (unfold scan_records in cc h)
  scan_sound (suc k) p r h = elim (IsRec-cases p) [
    | inr outside ↦ absurd (found-ne-absent (sym h ∙ scan_outside k p outside))
    | inl v ↦ elim (ℕ_discrete (rec_type (read_u32 b p)) type) [
      | yes t ↦
          let e = Scan-record (sym (scan_hit k p v t) ∙ h) in
          (
            subst (λ (x : Rec). x.hdr ≡ read_u32 b x.offset) e refl,
            here v t (ap (λ (x : Rec). x.offset) e),
          )
      | no t ↦
          let (e, c) = scan_sound k (next_at b p) r (sym (scan_skip k p v t) ∙ h) in (e, skip v t c)
    ]
  ]

  scan_complete :
      (k p q : ℕ)
      → bsc_r_sz < p + 4 * k
      → First b type p q
      → scan_records k b type p ≡ found (record { offset = q; hdr = read_u32 b q })
  scan_complete zero p q m (here v t e) = absurd (omega arith)
  scan_complete zero p q m (skip v t c) = absurd (omega arith)
  scan_complete (suc k) p q m (here v t e) = rw (← e) (scan_hit k p v t)
  scan_complete (suc k) p q m (skip v t c) =
      scan_skip k p v t
      ∙ scan_complete k (next_at b p) q (omega (arith, next_off-le _ v.covers_hdr)) c

  scan_outcome : (o : Scan) (r : Rec) → scan_result o ≡ some r → o ≡ found r
  unfolding scan_result
  scan_outcome o r h = ground arith

  -- advfs_bmt_find_rec returns a record exactly when it is the first record of that type in the
  -- chain of well-formed records that starts at the front of the record area, and the header that
  -- it hands out is the one at that offset. The loop never needs more than 68 rounds.
  pub find_rec-iff-First :
      (r : Rec)
      → (find_rec b type ≡ some r) ↔ ((r.hdr ≡ read_u32 b r.offset) × First b type 0 r.offset)
  unfolding find_rec
  find_rec-iff-First r = (
    λ h. scan_sound scan_rounds 0 r (scan_outcome _ r h),
    λ (e, c).
        rw (scan_complete scan_rounds 0 r.offset (omega arith) c) (unfold scan_result in rw e),
  )

  First-IsRec : {p q : ℕ} → First b type p q → IsRec b q × (rec_type (read_u32 b q) ≡ type)
  First-IsRec (here v t e) = subst (λ x. IsRec b x × (rec_type (read_u32 b x) ≡ type)) e (v, t)
  First-IsRec (skip v t c) = First-IsRec c

  -- The data of a record that advfs_bmt_find_rec returns lies inside the 268 bytes of the area, and
  -- the record has the type asked for, which is not nil.
  pub find_rec_bounds :
      (r : Rec)
      → find_rec b type ≡ some r
      → (r.offset + 4 + rec_data_sz r.hdr ≤ bsc_r_sz) × (rec_type r.hdr ≡ type) × (type ≢ bsr_nil)
  find_rec_bounds r h =
      let (e, c) = (find_rec-iff-First r).0 h in
      let (v, t) = First-IsRec c in
      rw e (data_sz_bounds _ r.offset v.covers_hdr v.ends, t, λ n. v.present (t ∙ n))

  First-tail :
      {p q : ℕ} → First b type p q → rec_type (read_u32 b p) ≢ type → First b type (next_at b p) q
  First-tail (here v t e) n = absurd (n t)
  First-tail (skip v t c) n = c

  First-head : {p q : ℕ} → First b type p q → IsRec b p
  First-head (here v t e) = v
  First-head (skip v t c) = v

  next_rec_lem : (p : ℕ) → IsRec b p → IsRec b (next_at b p) → next_rec b p ≡ some (next_at b p)
  unfolding next_rec
  next_rec_lem p v w = ground arith

  next_rec-next_at : (p n : ℕ) → next_rec b p ≡ some n → n ≡ next_at b p
  unfolding next_rec
  next_rec-next_at p n h = ground arith

  -- Stepping over a record of another type with advfs_bmt_next_rec loses nothing: the first record
  -- of the type, seen from the record at `p`, is the one seen from the header that the step
  -- returns, and there is none if the step returns NULL.
  pub First-next_rec :
      (p q : ℕ)
      → IsRec b p
      → rec_type (read_u32 b p) ≢ type
      → First b type p q ↔ ((n : ℕ) × (next_rec b p ≡ some n) × First b type n q)
  First-next_rec p q v t = (
    λ c. (next_at b p, next_rec_lem p v (First-head (First-tail c t)), First-tail c t),
    λ (n, e, c). skip v t (subst (λ m. First b type m q) (next_rec-next_at p n e) c),
  )

module _ (b b' : Bytes) (type : ℕ) (same : (i : ℕ) → i < bsc_r_sz → b i ≡ b' i) where
  read_local : (p : ℕ) → p + 4 ≤ bsc_r_sz → read_u32 b p ≡ read_u32 b' p
  read_local p h = omega (
    arith,
    same p (omega arith),
    same (p + 1) (omega arith),
    same (p + 2) (omega arith),
    same (p + 3) (omega arith),
  )

  scan_local : (k p : ℕ) → scan_records k b type p ≡ scan_records k b' type p
  unfolding scan_records
  scan_local zero p = refl
  scan_local (suc k) p = elim (dec_le (p + 4) bsc_r_sz) [
    | yes room ↦
        rw (read_local p room, scan_local k (p + rec_next_off (rec_bcnt (read_u32 b' p)))) refl
    | no out ↦ ground arith
  ]

-- advfs_bmt_find_rec depends on the 268 bytes of the record area and on nothing behind them.
pub find_rec_local :
    (b b' : Bytes) (type : ℕ)
    → ((i : ℕ) → i < bsc_r_sz → b i ≡ b' i)
    → find_rec b type ≡ find_rec b' type
unfolding find_rec
find_rec_local b b' type same = ap scan_result (scan_local b b' type same scan_rounds 0)
