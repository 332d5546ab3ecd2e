-- ===== src/Domain/Attached.antt =====
-- The volume table of an open domain of src/domain.c gives the volumes back.
use advfs_fuse.Base.{
  ℕ, zero, suc, ◌≡◌, refl, ap, ◌∙◌, ◌≢◌, List, [], ◌∷◌, Option, some, ◌==◌, if_true, if_false,
  eq→==, ne→==, All, ok, get_elem?,
}
use advfs_fuse.Volume.{Volume}
use advfs_fuse.Domain.{AdvId, DomainVd, Domain, find_vd_in, find_vd, domain_vd_vol, vd_or_primary}
use advfs_fuse.Domain.Open.{domain_open_multi}
use advfs_fuse.Domain.Attach.{VdOf, Attached, nil, cons, AllDistinct}
use advfs_fuse.Domain.Opened.{domain_open_multi-OpenOn}

-- The entry at a slot is the one found under its index.
slot_found :
    (vds : List DomainVd) (i : ℕ) (d : DomainVd)
    → AllDistinct vds
    → get_elem? vds i ≡ some d
    → find_vd_in vds d.vd_index ≡ some d
unfolding find_vd_in
slot_found [] i d distinct e = cc
slot_found (x ∷ vds) zero d distinct e =
    let p : x ≡ d = cc in
    rw (← p) (if_true (x.vd_index == x.vd_index) (some x) _ (eq→== x.vd_index x.vd_index refl))
slot_found (x ∷ vds) (suc i) d distinct e =
    if_false (x.vd_index == d.vd_index) (some x) _
      (ne→== x.vd_index d.vd_index (apart vds i distinct.0 e))
    ∙ slot_found vds i d distinct.1 e
  where
    apart :
        (rest : List DomainVd) (j : ℕ)
        → All (λ y. x.vd_index ≢ y.vd_index) rest
        → get_elem? rest j ≡ some d
        → x.vd_index ≢ d.vd_index
    apart [] j all h = λ z. cc
    apart (y ∷ rest) zero all h = λ z. all.0 cc
    apart (y ∷ rest) (suc j) all h = apart rest j all.1 h

-- The entry of the volume at a slot.
pub slot_of :
    {version page : ℕ} {id : AdvId} (vols : List (Option Volume)) (vds : List DomainVd) (i : ℕ)
    (vol : Option Volume)
    → Attached version page id vols vds
    → get_elem? vols i ≡ some vol
    → (d : DomainVd) × (get_elem? vds i ≡ some d) × VdOf version page id vol d
slot_of vols vds i vol nil e = cc
slot_of (x ∷ vols) (d ∷ vds) zero vol (cons v rest) e =
    let p : x ≡ vol = cc in (_, refl, rw (← p) v)
slot_of vols vds (suc i) vol (cons v rest) e = slot_of _ _ i vol rest e

found_vol :
    (domain : Domain) (d : DomainVd)
    → d.vd_index ≢ 0
    → find_vd_in domain.vds d.vd_index ≡ some d
    → domain_vd_vol domain d.vd_index ≡ d.vol
unfolding domain_vd_vol vd_or_primary
found_vol domain d n e =
    ap (λ o. vd_or_primary domain o d.vd_index) (past_alias domain.vds d.vd_index n ∙ e)
  where
    past_alias : (vds : List DomainVd) (i : ℕ) → i ≢ 0 → find_vd vds i ≡ find_vd_in vds i
    past_alias [] i n = unfold find_vd find_vd_in in refl
    past_alias (x ∷ vds) i n = unfold find_vd in if_false (i == 0) (some x) _ (ne→== i 0 n)

-- In a domain that advfs_domain_open_multi has opened, the volume that was passed as the i-th
-- argument stands in slot i, and advfs_domain_vd_vol returns it for its index there.
pub domain_open_multi_finds :
    (vols : List (Option Volume)) (domain : Domain) (i : ℕ) (vol : Option Volume)
    → domain_open_multi vols ≡ ok domain
    → get_elem? vols i ≡ some vol
    → (d : DomainVd) × (get_elem? domain.vds i ≡ some d)
      × VdOf domain.ods_version domain.bmt_page domain.domain_id vol d
      × (domain_vd_vol domain d.vd_index ≡ vol)
domain_open_multi_finds vols domain i vol e at =
    let opened = domain_open_multi-OpenOn vols domain e in
    let (d, slot, v) = slot_of vols domain.vds i vol opened.attached at in
    (
      d,
      slot,
      v,
      found_vol domain d v.index (slot_found domain.vds i d opened.distinct slot) ∙ v.vol_is,
    )
