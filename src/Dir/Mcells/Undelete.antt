-- ===== src/Dir/Mcells/Undelete.antt =====
-- advfs_dir_has_undelete and the mcell chain.
use advfs_fuse.Base.{
  ℕ, zero, suc, ◌≡◌, refl, sym, ap, ◌∙◌, ◌⊎◌, inl, inr, ◌↔◌, Bool, true, false, Option, none, some,
  ◌==◌, if_true, if_false, eq→==, ne→==, Bool-cases, Result, stuck, ok, err, ◌>>=◌, >>=-eq-ok,
}
use native.Mathlib.Decide.{ℕ_discrete}
use advfs_fuse.Ods.{Mcell}
use advfs_fuse.Volume.{Volume}
use advfs_fuse.Bmt.{Rec, find_rec}
use advfs_fuse.Domain.{Domain}
use advfs_fuse.Filedata.{McellAt}
use advfs_fuse.Filedata.Records.{mcell_at, next_at}
use advfs_fuse.Filedata.Records.First.{FirstIn, here, later}
use advfs_fuse.Dir.Mcells.{
  has_undelete_rec, or_no_mcell, undelete_loop, dir_has_undelete, max_xtnts_hops, bmtr_fs_undel_dir,
}

abbrev Undelete : ℕ → Domain → McellAt → Type 0
Undelete hops domain at =
    (at' : McellAt) × (mc : Mcell) × (r : Rec) × FirstIn domain bmtr_fs_undel_dir hops at at' mc r

has_rec :
    (mc : Mcell)
    → has_undelete_rec mc ≡ true
    → (r : Rec) × (find_rec mc.records bmtr_fs_undel_dir ≡ some r)
unfolding has_undelete_rec
has_rec mc h = by_found (find_rec mc.records bmtr_fs_undel_dir) h
  where
    by_found :
        (found : Option Rec)
        → (elim found [ some r ↦ true | none ↦ false ]) ≡ true
        → (r : Rec) × (found ≡ some r)
    by_found none e = cc
    by_found (some r) e = (r, refl)

no_rec : (mc : Mcell) → has_undelete_rec mc ≡ false → find_rec mc.records bmtr_fs_undel_dir ≡ none
unfolding has_undelete_rec
no_rec mc h = by_found (find_rec mc.records bmtr_fs_undel_dir) h
  where
    by_found :
        (found : Option Rec) → (elim found [ some r ↦ true | none ↦ false ]) ≡ false → found ≡ none
    by_found none e = refl
    by_found (some r) e = cc

rec_found :
    (mc : Mcell) (r : Rec)
    → find_rec mc.records bmtr_fs_undel_dir ≡ some r
    → has_undelete_rec mc ≡ true
unfolding has_undelete_rec
rec_found mc r e = ap (λ f. elim f [ some x ↦ true | none ↦ false ]) e

rec_missing :
    (mc : Mcell) → find_rec mc.records bmtr_fs_undel_dir ≡ none → has_undelete_rec mc ≡ false
unfolding has_undelete_rec
rec_missing mc e = ap (λ f. elim f [ some x ↦ true | none ↦ false ]) e

read_again :
    (read : Result Mcell) (found : Option Mcell)
    → or_no_mcell read ≡ ok found
    → (found ≡ none) ⊎ ((mc : Mcell) × (found ≡ some mc) × (read ≡ ok mc))
unfolding or_no_mcell
read_again stuck found h = cc
read_again (err e) found h = inl cc
read_again (ok mc) found h = inr (mc, cc, refl)

ok-ne : ok false ≡ ok true → ⊥
ok-ne h = cc

loop_none :
    (hops : ℕ) (domain : Domain) (at : McellAt) → undelete_loop hops domain at none ≡ ok false
unfolding undelete_loop
loop_none zero domain at = refl
loop_none (suc hops) domain at = refl

undelete_loop-Undelete :
    (hops : ℕ) (domain : Domain) (at : McellAt) (mc : Mcell)
    → mcell_at domain at ≡ ok mc
    → undelete_loop hops domain at (some mc) ≡ ok true
    → Undelete hops domain at
unfolding undelete_loop
undelete_loop-Undelete zero domain at mc at_mc h =
    let (r, found) = has_rec mc cc in (at, mc, r, here at_mc found)
undelete_loop-Undelete (suc hops) domain at mc at_mc h = elim (Bool-cases (has_undelete_rec mc)) [
  | inl has ↦ let (r, found) = has_rec mc has in (at, mc, r, here at_mc found)
  | inr lacks ↦ elim (ℕ_discrete mc.next_mcid 0) [
    | yes nil ↦ absurd (
        ok-ne (
          sym (if_true (mc.next_mcid == 0) _ _ (eq→== mc.next_mcid 0 nil))
          ∙ sym (if_false (has_undelete_rec mc) _ _ lacks)
          ∙ h))
    | no on ↦
        let (found, h1, e) =
          >>=-eq-ok (λ f. undelete_loop hops domain (next_at at mc) f)
            (or_no_mcell (mcell_at domain (next_at at mc)))
            (sym (if_false (mc.next_mcid == 0) (ok false) _ (ne→== mc.next_mcid 0 on))
              ∙ sym (if_false (has_undelete_rec mc) (ok true) _ lacks)
              ∙ h) in
        elim (read_again (mcell_at domain (next_at at mc)) found e) [
          | inl missing ↦ absurd (
              ok-ne (
                sym (loop_none hops domain (next_at at mc))
                ∙ ap (undelete_loop hops domain (next_at at mc)) (sym missing)
                ∙ h1))
          | inr (next_mc, is, read) ↦
              let (at', mc', r, first) =
                undelete_loop-Undelete hops domain (next_at at mc) next_mc read
                  (ap (undelete_loop hops domain (next_at at mc)) (sym is) ∙ h1) in
              (at', mc', r, later at_mc (no_rec mc lacks) on first)
        ]
  ]
]

bind_ok :
    (read : Result Mcell) (mc : Mcell) (k : Mcell → Result Bool) → read ≡ ok mc → read >>= k ≡ k mc
bind_ok read mc k e = rw e refl

tolerated :
    (read : Result Mcell) (k : Option Mcell → Result Bool)
    → read >>= (λ m. k (some m)) ≡ ok true
    → or_no_mcell read >>= k ≡ ok true
unfolding or_no_mcell
tolerated stuck k h = cc
tolerated (err e) k h = cc
tolerated (ok mc) k h = h

FirstIn-undelete_loop :
    {domain : Domain} {hops : ℕ} {at at' : McellAt} {mc : Mcell} {r : Rec}
    → FirstIn domain bmtr_fs_undel_dir hops at at' mc r
    → mcell_at domain at >>= (λ m. undelete_loop hops domain at (some m)) ≡ ok true
unfolding undelete_loop
FirstIn-undelete_loop {domain} {hops = zero} {at} {mc = mc} {r} (here e f) =
    bind_ok (mcell_at domain at) mc _ e ∙ ap ok (rec_found mc r f)
FirstIn-undelete_loop {domain} {hops = suc n} {at} {mc = mc} {r} (here e f) =
    bind_ok (mcell_at domain at) mc _ e ∙ if_true (has_undelete_rec mc) _ _ (rec_found mc r f)
FirstIn-undelete_loop {domain} {hops = suc n} {at} (later {mc} e f on first) =
    bind_ok (mcell_at domain at) mc _ e
    ∙ if_false (has_undelete_rec mc) _ _ (rec_missing mc f)
    ∙ if_false (mc.next_mcid == 0) _ _ (ne→== mc.next_mcid 0 on)
    ∙ tolerated (mcell_at domain (next_at at mc)) (undelete_loop n domain (next_at at mc))
        (FirstIn-undelete_loop first)

-- advfs_dir_has_undelete answers 1 exactly if a mcell on the directory's chain, at most 16 hops
-- behind the primary one and across volumes, holds a BMTR_FS_UNDEL_DIR record.
pub has_undelete-iff-FirstIn :
    (vol : Volume) (domain : Domain) (at : McellAt)
    → (dir_has_undelete (some vol) (some domain) at ≡ ok true) ↔ (
        (at' : McellAt) × (mc : Mcell) × (r : Rec) × FirstIn domain bmtr_fs_undel_dir max_xtnts_hops
          at at' mc r)
unfolding dir_has_undelete
has_undelete-iff-FirstIn vol domain at = (
  λ h.
      (let (mc, h1, at_mc) =
          >>=-eq-ok (λ m. undelete_loop max_xtnts_hops domain at (some m)) (mcell_at domain at) h in
        undelete_loop-Undelete max_xtnts_hops domain at mc at_mc h1),
  λ (at', mc, r, first). FirstIn-undelete_loop first,
)
