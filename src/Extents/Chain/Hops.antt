-- ===== src/Extents/Chain/Hops.antt =====
-- The two ways in which a round of the chain loop ends.
use advfs_fuse.Base.{ℕ, ◌≤◌, ◌≡◌, refl, Bool, Option, none, some, length, ok, >>=-eq-ok}
use advfs_fuse.Ods.{Mcell, bsr_xtra_xtnts, bsr_shadow_xtnts}
use advfs_fuse.Bmt.{Rec, find_rec}
use advfs_fuse.Extents.{max_extents}
use advfs_fuse.Extents.Chain.{Walk, stop, follow, take_xtra, take_shadow, hop_records, hop_mcell}
use advfs_fuse.Extents.Chain.Links.{Link, Holds}
use advfs_fuse.Extents.Chain.Walked.{Takes, take_xtra-Takes, take_shadow-Takes}

hop_records-Takes :
    (is_stripe : Bool) (w w' : Walk) (mc : Mcell) (vd : ℕ) (fx fs : Option Rec)
    → length w.raw ≤ max_extents
    → find_rec mc.records bsr_xtra_xtnts ≡ fx
    → find_rec mc.records bsr_shadow_xtnts ≡ fs
    → hop_records is_stripe w mc vd fx fs ≡ ok (follow w')
    → (l : Link) × Holds mc vd l × Takes is_stripe w l w'
unfolding hop_records
hop_records-Takes is_stripe w w' mc vd (some r) fs le ex es h =
    let (v, same, taken) = >>=-eq-ok _ (take_xtra w mc r vd) h in
    let e : v ≡ w' = cc in take_xtra-Takes is_stripe w w' mc r vd le ex cc
hop_records-Takes is_stripe w w' mc vd none (some r) le ex es h =
    let (v, same, taken) = >>=-eq-ok _ (take_shadow is_stripe w mc r vd) h in
    let e : v ≡ w' = cc in take_shadow-Takes is_stripe w w' mc r vd le ex es cc
hop_records-Takes is_stripe w w' mc vd none none le ex es h = cc

pub hop_mcell-Takes :
    (is_stripe : Bool) (w w' : Walk) (mc : Mcell) (vd : ℕ)
    → length w.raw ≤ max_extents
    → hop_mcell is_stripe w mc vd ≡ ok (follow w')
    → (l : Link) × Holds mc vd l × Takes is_stripe w l w'
unfolding hop_mcell
hop_mcell-Takes is_stripe w w' mc vd le h =
    hop_records-Takes is_stripe w w' mc vd (find_rec mc.records bsr_xtra_xtnts)
      (find_rec mc.records bsr_shadow_xtnts) le refl refl h

stop_records :
    (is_stripe : Bool) (w w' : Walk) (mc : Mcell) (vd : ℕ) (fx fs : Option Rec)
    → hop_records is_stripe w mc vd fx fs ≡ ok (stop w')
    → (fx ≡ none) × (fs ≡ none) × (w' ≡ w)
unfolding hop_records
stop_records is_stripe w w' mc vd (some r) fs h =
    let (v, same, taken) = >>=-eq-ok _ (take_xtra w mc r vd) h in cc
stop_records is_stripe w w' mc vd none (some r) h =
    let (v, same, taken) = >>=-eq-ok _ (take_shadow is_stripe w mc r vd) h in cc
stop_records is_stripe w w' mc vd none none h = (refl, refl, cc)

pub hop_mcell-stop :
    (is_stripe : Bool) (w w' : Walk) (mc : Mcell) (vd : ℕ)
    → hop_mcell is_stripe w mc vd ≡ ok (stop w')
    → (find_rec mc.records bsr_xtra_xtnts ≡ none)
      × (find_rec mc.records bsr_shadow_xtnts ≡ none)
      × (w' ≡ w)
unfolding hop_mcell
hop_mcell-stop is_stripe w w' mc vd h =
    stop_records is_stripe w w' mc vd (find_rec mc.records bsr_xtra_xtnts)
      (find_rec mc.records bsr_shadow_xtnts) h
