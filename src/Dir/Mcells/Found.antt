-- ===== src/Dir/Mcells/Found.antt =====
-- find_xtnts_mcell finds the mcell that read_file_extents of src/filedata.c reads from.
use advfs_fuse.Base.{
  ℕ, zero, suc, ◌≡◌, refl, sym, ◌∙◌, ◌≢◌, ◌↔◌, Option, none, some, ◌==◌, if_true, if_false, eq→==,
  ne→==, Result, ok, err, ◌>>=◌, >>=-eq-ok, enodata,
}
use native.Mathlib.Decide.{ℕ_discrete}
use advfs_fuse.Ods.{Mcell, bsr_xtnts}
use advfs_fuse.Bmt.{Rec, find_rec}
use advfs_fuse.Domain.{Domain}
use advfs_fuse.Filedata.{McellAt}
use advfs_fuse.Filedata.Records.{mcell_at, next_at}
use advfs_fuse.Filedata.Records.First.{FirstIn, here, later, run_here, run_next}
use advfs_fuse.Dir.Mcells.{xtnts_loop, find_xtnts_mcell, max_xtnts_hops}

-- A round from its mcell on.
abbrev from_mcell : ℕ → Domain → McellAt → Result McellAt
from_mcell hops domain at = mcell_at domain at >>= λ mc. elim (find_rec mc.records bsr_xtnts) [
  | some r ↦ ok at
  | none ↦ xtnts_loop hops domain at mc
]

abbrev First : ℕ → Domain → McellAt → McellAt → Type 0
First hops domain at at' = (mc : Mcell) × (r : Rec) × FirstIn domain bsr_xtnts hops at at' mc r

loop-step :
    (hops : ℕ) (domain : Domain) (at : McellAt) (mc : Mcell)
    → mc.next_mcid ≢ 0
    → xtnts_loop (suc hops) domain at mc ≡ from_mcell hops domain (next_at at mc)
unfolding xtnts_loop
loop-step hops domain at mc on = if_false (mc.next_mcid == 0) _ _ (ne→== mc.next_mcid 0 on)

loop-end :
    (hops : ℕ) (domain : Domain) (at : McellAt) (mc : Mcell)
    → mc.next_mcid ≡ 0
    → xtnts_loop hops domain at mc ≡ err enodata
unfolding xtnts_loop
loop-end zero domain at mc nil = refl
loop-end (suc hops) domain at mc nil = if_true (mc.next_mcid == 0) _ _ (eq→== mc.next_mcid 0 nil)

loop-none :
    (domain : Domain) (at : McellAt) (mc : Mcell) → xtnts_loop zero domain at mc ≡ err enodata
unfolding xtnts_loop
loop-none domain at mc = refl

-- What a round makes of the record that it finds; `again` is the next round.
round-First :
    (hops : ℕ) (domain : Domain) (at at' : McellAt) (mc : Mcell) (found : Option Rec)
    (go : Result McellAt)
    → (go ≡ ok at' → find_rec mc.records bsr_xtnts ≡ none → First hops domain at at')
    → mcell_at domain at ≡ ok mc
    → find_rec mc.records bsr_xtnts ≡ found
    → (elim found [ some r ↦ ok at | none ↦ go ]) ≡ ok at'
    → First hops domain at at'
round-First hops domain at at' mc (some r) go again at_mc found h =
    let same : at ≡ at' = cc in (mc, r, rw (← same) (here at_mc found))
round-First hops domain at at' mc none go again at_mc found h = again h found

from_mcell-First :
    (hops : ℕ) (domain : Domain) (at at' : McellAt)
    → from_mcell hops domain at ≡ ok at'
    → First hops domain at at'
from_mcell-First zero domain at at' h =
    let (mc, h1, at_mc) =
      >>=-eq-ok
        (λ m. elim (find_rec m.records bsr_xtnts) [
          | some r ↦ ok at
          | none ↦ xtnts_loop zero domain at m
        ])
        (mcell_at domain at) h in
    round-First zero domain at at' mc (find_rec mc.records bsr_xtnts) (xtnts_loop zero domain at mc)
      (λ go missing. let bad : err enodata ≡ ok at' = sym (loop-none domain at mc) ∙ go in cc) at_mc
      refl h1
from_mcell-First (suc hops) domain at at' h =
    let (mc, h1, at_mc) =
      >>=-eq-ok
        (λ m. elim (find_rec m.records bsr_xtnts) [
          | some r ↦ ok at
          | none ↦ xtnts_loop (suc hops) domain at m
        ])
        (mcell_at domain at) h in
    round-First (suc hops) domain at at' mc (find_rec mc.records bsr_xtnts)
      (xtnts_loop (suc hops) domain at mc)
      (λ go missing. elim (ℕ_discrete mc.next_mcid 0) [
        | yes nil ↦
            let bad : err enodata ≡ ok at' = sym (loop-end (suc hops) domain at mc nil) ∙ go in cc
        | no on ↦
            let (mc', r, first) =
              from_mcell-First hops domain (next_at at mc) at'
                (sym (loop-step hops domain at mc on) ∙ go) in
            (mc', r, later at_mc missing on first)
      ])
      at_mc refl h1

FirstIn-from_mcell :
    {domain : Domain} {hops : ℕ} {at at' : McellAt} {mc : Mcell} {r : Rec}
    → FirstIn domain bsr_xtnts hops at at' mc r
    → from_mcell hops domain at ≡ ok at'
FirstIn-from_mcell {domain} {hops} {at} (here e f) =
    run_here _ _ (λ m r. ok at) (λ m. xtnts_loop hops domain at m) (mcell_at domain at)
      (λ m. find_rec m.records bsr_xtnts) e f
FirstIn-from_mcell {domain} {hops = suc n} {at} (later {mc} e f on first) =
    run_next mc (λ m r. ok at) (λ m. xtnts_loop (suc n) domain at m) (mcell_at domain at)
      (λ m. find_rec m.records bsr_xtnts) e f
    ∙ loop-step n domain at mc on
    ∙ FirstIn-from_mcell first

-- find_xtnts_mcell returns a place exactly if it is that of the first mcell with a BSR_XTNTS record
-- on the chain, at most 16 hops behind the primary mcell and across volumes: the mcell that
-- read_file_extents of src/filedata.c reads the map from.
pub find_xtnts_mcell-iff-FirstIn :
    (domain : Domain) (at at' : McellAt)
    → (find_xtnts_mcell domain at ≡ ok at')
      ↔ ((mc : Mcell) × (r : Rec) × FirstIn domain bsr_xtnts max_xtnts_hops at at' mc r)
unfolding find_xtnts_mcell
find_xtnts_mcell-iff-FirstIn domain at at' = (
  λ h. from_mcell-First max_xtnts_hops domain at at' h,
  λ (mc, r, first). FirstIn-from_mcell first,
)
