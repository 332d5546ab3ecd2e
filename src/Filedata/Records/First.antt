-- ===== src/Filedata/Records/First.antt =====
-- The search of a mcell chain finds the first mcell with the record, within 16 hops.
use advfs_fuse.Base.{
  ℕ, zero, suc, ◌+◌, ◌<◌, ◌≤◌, min, arith, ltb, lt→ltb, le→ltb, ◌≡◌, refl, sym, ap, ◌∙◌, ◌≢◌, ◌↔◌,
  ◌⊎◌, inl, inr, List, Option, none, some, ◌==◌, if◌then◌else◌, if_true, if_false, eq→==, ne→==,
  Result, ok, err, ◌>>=◌, >>=-eq-ok, enodata,
}
use native.Mathlib.Decide.{ℕ_discrete, dec_lt}
use advfs_fuse.Ods.{Bytes, Mcell, bsr_xtnts, rec_data_sz}
use advfs_fuse.Bmt.{Rec, find_rec}
use advfs_fuse.Domain.{Domain}
use advfs_fuse.Extents.{Extent}
use advfs_fuse.Extents.Chain.{extents_read_dom, rec_bytes}
use advfs_fuse.Filedata.{McellAt}
use advfs_fuse.Filedata.Records.{
  mcell_at, next_at, copy_rec, Copied, search_chain, find_rec_in_chain, search_extents,
  read_file_extents, max_hops,
}

-- The first mcell with a record of type `rec_type` on the chain from `at`, at most `hops` hops on.
pub data FirstIn (domain : Domain) (rec_type : ℕ)
    : ℕ → McellAt → McellAt → Mcell → Rec → Type 0 where
  here :
      {hops : ℕ} {at : McellAt} {mc : Mcell} {r : Rec}
      → mcell_at domain at ≡ ok mc
      → find_rec mc.records rec_type ≡ some r
      → FirstIn domain rec_type hops at at mc r
  later :
      {hops : ℕ} {at at' : McellAt} {mc mc' : Mcell} {r : Rec}
      → mcell_at domain at ≡ ok mc
      → find_rec mc.records rec_type ≡ none
      → mc.next_mcid ≢ 0
      → FirstIn domain rec_type hops (next_at at mc) at' mc' r
      → FirstIn domain rec_type (suc hops) at at' mc' r

-- The body of both loops once the mcell is read; `go` is the next round.
found_or_next :
    {A : Type 0} (domain : Domain) (rec_type hops : ℕ) (at : McellAt) (mc : Mcell) (t : A)
    (use_rec : Rec → Result A) (go : Result A)
    → (found : Option Rec) → mcell_at domain at ≡ ok mc
    → find_rec mc.records rec_type ≡ found
    → (elim found [ some r ↦ use_rec r | none ↦ if mc.next_mcid == 0 then err enodata else go ])
      ≡ ok t
    → ((r : Rec) × (find_rec mc.records rec_type ≡ some r) × (use_rec r ≡ ok t))
      ⊎ ((find_rec mc.records rec_type ≡ none) × (mc.next_mcid ≢ 0) × (go ≡ ok t))
found_or_next domain rec_type hops at mc t use_rec go (some r) at_mc e h = inl (r, e, h)
found_or_next domain rec_type hops at mc t use_rec go none at_mc e h =
    elim (ℕ_discrete mc.next_mcid 0) [
      | yes nil ↦
          (let bad : err enodata ≡ ok t =
              sym (if_true (mc.next_mcid == 0) _ _ (eq→== mc.next_mcid 0 nil)) ∙ h in
            cc)
      | no on ↦ inr (e, on, sym (if_false (mc.next_mcid == 0) _ _ (ne→== mc.next_mcid 0 on)) ∙ h)
    ]

found_or_stop :
    {A : Type 0} (mc : Mcell) (rec_type : ℕ) (t : A) (use_rec : Rec → Result A) (found : Option Rec)
    → find_rec mc.records rec_type ≡ found
    → (elim found [ some r ↦ use_rec r | none ↦ err enodata ]) ≡ ok t
    → (r : Rec) × (find_rec mc.records rec_type ≡ some r) × (use_rec r ≡ ok t)
found_or_stop mc rec_type t use_rec (some r) e h = (r, e, h)
found_or_stop mc rec_type t use_rec none e h = cc

search_chain-FirstIn :
    (hops : ℕ) (domain : Domain) (at : McellAt) (rec_type : ℕ) (buf : Bytes) (buf_sz : ℕ)
    (c : Copied)
    → search_chain hops domain at rec_type buf buf_sz ≡ ok c
    → (at' : McellAt) × (mc : Mcell) × (r : Rec) × FirstIn domain rec_type hops at at' mc r
      × (c ≡ copy_rec mc r buf buf_sz)
unfolding search_chain
search_chain-FirstIn zero domain at rec_type buf buf_sz c h =
    let (mc, h1, at_mc) = >>=-eq-ok _ (mcell_at domain at) h in
    let (r, found, e) =
      found_or_stop mc rec_type c (λ r. ok (copy_rec mc r buf buf_sz))
        (find_rec mc.records rec_type) refl h1 in
    (at, mc, r, here at_mc found, cc)
search_chain-FirstIn (suc hops) domain at rec_type buf buf_sz c h =
    let (mc, h1, at_mc) = >>=-eq-ok _ (mcell_at domain at) h in
    elim (found_or_next domain rec_type hops at mc c (λ r. ok (copy_rec mc r buf buf_sz))
      (search_chain hops domain (next_at at mc) rec_type buf buf_sz) (find_rec mc.records rec_type)
      at_mc refl h1) [
        | inl (r, found, e) ↦ (at, mc, r, here at_mc found, cc)
        | inr (missing, on, e) ↦
            let (at', mc', r, first, same) =
              search_chain-FirstIn hops domain (next_at at mc) rec_type buf buf_sz c e in
            (at', mc', r, later at_mc missing on first, same)
      ]

pub run_here :
    {A : Type 0} (mc : Mcell) (r : Rec) (use_rec : Mcell → Rec → Result A) (go : Mcell → Result A)
    (read : Result Mcell) (find : Mcell → Option Rec)
    → read ≡ ok mc
    → find mc ≡ some r
    → (read >>= λ m. elim (find m) [ some x ↦ use_rec m x | none ↦ go m ]) ≡ use_rec mc r
run_here mc r use_rec go read find e f = rw (e, f) refl

pub run_next :
    {A : Type 0} (mc : Mcell) (use_rec : Mcell → Rec → Result A) (go : Mcell → Result A)
    (read : Result Mcell) (find : Mcell → Option Rec)
    → read ≡ ok mc
    → find mc ≡ none
    → (read >>= λ m. elim (find m) [ some x ↦ use_rec m x | none ↦ go m ]) ≡ go mc
run_next mc use_rec go read find e f = rw (e, f) refl

-- The mcell that is first on the chain is found.
FirstIn-search_chain :
    {domain : Domain} {rec_type : ℕ} (buf : Bytes) (buf_sz : ℕ) {hops : ℕ} {at at' : McellAt}
    {mc : Mcell} {r : Rec}
    → FirstIn domain rec_type hops at at' mc r
    → search_chain hops domain at rec_type buf buf_sz ≡ ok (copy_rec mc r buf buf_sz)
unfolding search_chain
FirstIn-search_chain {domain} {rec_type = ty} buf buf_sz {hops = zero} (here e f) =
    run_here _ _ (λ m r. ok (copy_rec m r buf buf_sz)) _ (mcell_at domain _)
      (λ m. find_rec m.records ty) e f
FirstIn-search_chain {domain} {rec_type = ty} buf buf_sz {hops = suc n} (here e f) =
    run_here _ _ (λ m r. ok (copy_rec m r buf buf_sz)) _ (mcell_at domain _)
      (λ m. find_rec m.records ty) e f
FirstIn-search_chain {domain} {rec_type = ty} buf buf_sz {hops = suc n} (later {mc} e f on first) =
    run_next mc (λ m r. ok (copy_rec m r buf buf_sz)) _ (mcell_at domain _)
      (λ m. find_rec m.records ty) e f
    ∙ if_false (mc.next_mcid == 0) _ _ (ne→== mc.next_mcid 0 on)
    ∙ FirstIn-search_chain buf buf_sz first

-- What a copy of a record's data into a buffer of `buf_sz` bytes gives: as many bytes as the record
-- has and the buffer takes, from behind the record's header on, and nothing else of the buffer.
pub record IsCopy (mc : Mcell) (r : Rec) (buf : Bytes) (buf_sz : ℕ) (c : Copied) : Type 0 where
  pub size_is : c.size ≡ min buf_sz (rec_data_sz r.hdr)
  pub data_is :
      (i : ℕ) → i < min buf_sz (rec_data_sz r.hdr) → c.bytes i ≡ mc.records (r.offset + 4 + i)
  pub rest_is : (i : ℕ) → min buf_sz (rec_data_sz r.hdr) ≤ i → c.bytes i ≡ buf i

module _ (mc : Mcell) (r : Rec) (buf : Bytes) (buf_sz : ℕ) where
  copy_rec-size : (copy_rec mc r buf buf_sz).size ≡ min buf_sz (rec_data_sz r.hdr)
  unfolding copy_rec
  copy_rec-size = ground arith

  copy_rec-IsCopy : IsCopy mc r buf buf_sz (copy_rec mc r buf buf_sz)
  unfolding copy_rec
  copy_rec-IsCopy = record {
    size_is = copy_rec-size;
    data_is = λ i h.
        let n = (copy_rec mc r buf buf_sz).size in
        if_true (ltb i n) (rec_bytes mc r i) (buf i) (lt→ltb i n (omega (arith, copy_rec-size, h)));
    rest_is = λ i h.
        let n = (copy_rec mc r buf buf_sz).size in
        if_false (ltb i n) (rec_bytes mc r i) (buf i)
          (le→ltb i n (omega (arith, copy_rec-size, h)));
  }

  -- There is only one such copy.
  IsCopy-copy_rec : (c : Copied) → IsCopy mc r buf buf_sz c → c ≡ copy_rec mc r buf buf_sz
  IsCopy-copy_rec c k =
      let there = copy_rec-IsCopy in
      let same : (i : ℕ) → c.bytes i ≡ (copy_rec mc r buf buf_sz).bytes i = λ i.
        elim (dec_lt i (min buf_sz (rec_data_sz r.hdr))) [
          | yes h ↦ k.data_is i h ∙ sym (there.data_is i h)
          | no h ↦ k.rest_is i (omega arith) ∙ sym (there.rest_is i (omega arith))
        ] in
      let size_same : c.size ≡ (copy_rec mc r buf buf_sz).size = k.size_is ∙ sym there.size_is in
      λ j. record { bytes = λ i. same i j; size = size_same j }

-- find_rec_in_chain succeeds exactly where a mcell on the chain, at most 16 hops behind the primary
-- one and across volumes, holds a record of the type: it copies the data of the first such record,
-- cut at the size of the buffer, and leaves the rest of the buffer as it was.
pub find_rec_in_chain-iff-FirstIn :
    (domain : Domain) (at : McellAt) (rec_type : ℕ) (buf : Bytes) (buf_sz : ℕ) (c : Copied)
    → (find_rec_in_chain domain at rec_type buf buf_sz ≡ ok c) ↔ (
        (at' : McellAt) × (mc : Mcell) × (r : Rec) × FirstIn domain rec_type max_hops at at' mc r
        × IsCopy mc r buf buf_sz c)
unfolding find_rec_in_chain
find_rec_in_chain-iff-FirstIn domain at rec_type buf buf_sz c = (
  λ h.
      let (at', mc, r, first, same) =
        search_chain-FirstIn max_hops domain at rec_type buf buf_sz c h in
      (at', mc, r, first, rw same (copy_rec-IsCopy mc r buf buf_sz)),
  λ (at', mc, r, first, copied).
      FirstIn-search_chain buf buf_sz first
      ∙ ap ok (sym (IsCopy-copy_rec mc r buf buf_sz c copied)),
)

search_extents-FirstIn :
    (hops : ℕ) (domain : Domain) (at : McellAt) (max : ℕ) (out : List Extent)
    → search_extents hops domain at max ≡ ok out
    → (at' : McellAt) × (mc : Mcell) × (r : Rec) × FirstIn domain bsr_xtnts hops at at' mc r
      × (extents_read_dom (some domain) at'.vd at'.page at'.cell max ≡ ok out)
unfolding search_extents
search_extents-FirstIn zero domain at max out h =
    let (mc, h1, at_mc) = >>=-eq-ok _ (mcell_at domain at) h in
    let (r, found, e) =
      found_or_stop mc bsr_xtnts out (λ r. extents_read_dom (some domain) at.vd at.page at.cell max)
        (find_rec mc.records bsr_xtnts) refl h1 in
    (at, mc, r, here at_mc found, e)
search_extents-FirstIn (suc hops) domain at max out h =
    let (mc, h1, at_mc) = >>=-eq-ok _ (mcell_at domain at) h in
    elim (found_or_next domain bsr_xtnts hops at mc out
      (λ r. extents_read_dom (some domain) at.vd at.page at.cell max)
      (search_extents hops domain (next_at at mc) max) (find_rec mc.records bsr_xtnts) at_mc refl
      h1) [
        | inl (r, found, e) ↦ (at, mc, r, here at_mc found, e)
        | inr (missing, on, e) ↦
            let (at', mc', r, first, same) =
              search_extents-FirstIn hops domain (next_at at mc) max out e in
            (at', mc', r, later at_mc missing on first, same)
      ]

FirstIn-search_extents :
    {domain : Domain} (max : ℕ) {hops : ℕ} {at at' : McellAt} {mc : Mcell} {r : Rec}
    → FirstIn domain bsr_xtnts hops at at' mc r
    → search_extents hops domain at max
      ≡ extents_read_dom (some domain) at'.vd at'.page at'.cell max
unfolding search_extents
FirstIn-search_extents {domain} max {hops = zero} {at} (here e f) =
    run_here _ _ (λ m r. extents_read_dom (some domain) at.vd at.page at.cell max) _
      (mcell_at domain at) (λ m. find_rec m.records bsr_xtnts) e f
FirstIn-search_extents {domain} max {hops = suc n} {at} (here e f) =
    run_here _ _ (λ m r. extents_read_dom (some domain) at.vd at.page at.cell max) _
      (mcell_at domain at) (λ m. find_rec m.records bsr_xtnts) e f
FirstIn-search_extents {domain} max {hops = suc n} {at} (later {mc} e f on first) =
    run_next mc (λ m r. extents_read_dom (some domain) at.vd at.page at.cell max) _
      (mcell_at domain at) (λ m. find_rec m.records bsr_xtnts) e f
    ∙ if_false (mc.next_mcid == 0) _ _ (ne→== mc.next_mcid 0 on)
    ∙ FirstIn-search_extents max first

-- read_file_extents returns a map exactly where a mcell on the chain, at most 16 hops behind the
-- primary one and across volumes, holds a BSR_XTNTS record, and advfs_extents_read_dom returns
-- that map for the first such mcell.
pub read_file_extents-iff-FirstIn :
    (domain : Domain) (at : McellAt) (max : ℕ) (out : List Extent)
    → (read_file_extents domain at max ≡ ok out) ↔ (
        (at' : McellAt) × (mc : Mcell) × (r : Rec) × FirstIn domain bsr_xtnts max_hops at at' mc r
        × (extents_read_dom (some domain) at'.vd at'.page at'.cell max ≡ ok out))
unfolding read_file_extents
read_file_extents-iff-FirstIn domain at max out = (
  λ h. search_extents-FirstIn max_hops domain at max out h,
  λ (at', mc, r, first, e). FirstIn-search_extents max first ∙ e,
)
