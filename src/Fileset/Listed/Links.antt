-- ===== src/Fileset/Listed/Links.antt =====
-- The loop of advfs_domain_list_filesets of src/domain.c along the chain behind the BFSDIR.
use advfs_fuse.Base.{
  ℕ, zero, suc, ◌≡◌, refl, ap, ◌∙◌, inl, inr, false, Bool-cases, if_true, if_false, Option, none,
  some, List, [], ◌==◌, if◌then◌else◌, Result, ok, ◌>>=◌,
}
use advfs_fuse.Ods.{Mcell}
use advfs_fuse.Domain.{Domain}
use advfs_fuse.Fileset.Enumerate.{FilesetInfo, FilesetCb, try_fileset}
use advfs_fuse.Fileset.Enumerate.Report.{cons_found, report_sets}
use advfs_fuse.Fileset.Listed.{chain_mcell, Listed, list_one, list_link, list_chain}

-- The filesets that the mcells of a chain have, within some links; a link that leads to no mcell
-- ends it.
pub data ChainSets (domain : Domain) : ℕ → ℕ → List FilesetInfo → Type 0 where
  out_of_hops : {chain : ℕ} → ChainSets domain zero chain []
  last : {hops : ℕ} → ChainSets domain (suc hops) zero []
  broken :
      {hops chain : ℕ}
      → (chain == 0) ≡ false
      → chain_mcell domain chain ≡ ok none
      → ChainSets domain (suc hops) chain []
  link :
      {hops chain : ℕ} {sets : List FilesetInfo} (mc : Mcell)
      → (chain == 0) ≡ false
      → chain_mcell domain chain ≡ ok (some mc)
      → ChainSets domain hops mc.next_mcid sets
      → ChainSets domain (suc hops) chain (cons_found (try_fileset mc) sets)

module _ {U : Type 0} (cb : FilesetCb U) (domain : Domain) where
  -- The same step where the rest may fail.
  chain_step :
      (o : Option FilesetInfo) (st : Listed U) (go : Listed U → Result (Listed U))
      (sets : List FilesetInfo)
      → st.stop ≡ false
      → ((st' : Listed U)
          → st'.stop ≡ false
          → (end : Listed U) × (go st' ≡ ok end) × (end.user ≡ (report_sets cb sets st'.user).user))
      → (end : Listed U) × ((let st' = list_one cb o st in if st'.stop then ok st' else go st')
          ≡ ok end)
        × (end.user ≡ (report_sets cb (cons_found o sets) st.user).user)
  unfolding list_one
  chain_step none st go sets e rest =
      let (end, g, r) = rest st e in (end, if_false st.stop (ok st) (go st) e ∙ g, r)
  chain_step (some info) st go sets e rest = elim (Bool-cases (cb info st.user).stop) [
    | inl s ↦ (list_one cb (some info) st, if_true (cb info st.user).stop _ _ s, rw s refl)
    | inr s ↦
        let (end, g, r) = rest (list_one cb (some info) st) s in
        (end, if_false (cb info st.user).stop _ _ s ∙ g, rw s r)
  ]

  -- What follows the read of a link.
  followed : ℕ → Listed U → Result (Option Mcell) → Result (Listed U)
  followed hops st mc =
      mc >>= λ found. list_link cb (λ c st'. list_chain cb hops domain c st') found st

  abbrev pub Ends : Result (Listed U) → Listed U → List FilesetInfo → Type 0
  Ends r st sets = (end : Listed U) × (r ≡ ok end) × (end.user ≡ (report_sets cb sets st.user).user)

  at_end : (hops : ℕ) (st : Listed U) → list_chain cb hops domain zero st ≡ ok st
  unfolding list_chain
  at_end zero st = refl
  at_end (suc hops) st = refl

  no_hops : (chain : ℕ) (st : Listed U) → list_chain cb zero domain chain st ≡ ok st
  unfolding list_chain
  no_hops chain st = refl

  linked :
      (hops chain : ℕ) (st : Listed U) (mc : Option Mcell)
      → (chain == 0) ≡ false
      → chain_mcell domain chain ≡ ok mc
      → list_chain cb (suc hops) domain chain st ≡ followed hops st (ok mc)
  unfolding list_chain followed
  linked hops chain st mc nz m = if_false (chain == 0) (ok st) _ nz ∙ ap (followed hops st) m

  not_followed : (hops : ℕ) (st : Listed U) → followed hops st (ok none) ≡ ok st
  unfolding list_link followed
  not_followed hops st = refl

  follow :
      (hops : ℕ) (st : Listed U) (mc : Mcell) (sets : List FilesetInfo)
      → st.stop ≡ false
      → ((st' : Listed U)
          → st'.stop ≡ false
          → Ends (list_chain cb hops domain mc.next_mcid st') st' sets)
      → Ends (followed hops st (ok (some mc))) st (cons_found (try_fileset mc) sets)
  unfolding list_link followed
  follow hops st mc sets e rest =
      chain_step (try_fileset mc) st (λ st'. list_chain cb hops domain mc.next_mcid st') sets e rest

  pub list_chain-Ends :
      (hops chain : ℕ) (sets : List FilesetInfo) (st : Listed U)
      → st.stop ≡ false
      → ChainSets domain hops chain sets
      → Ends (list_chain cb hops domain chain st) st sets
  list_chain-Ends hops chain sets st e out_of_hops = (st, no_hops chain st, refl)
  list_chain-Ends (suc hops) chain sets st e last = (st, at_end (suc hops) st, refl)
  list_chain-Ends (suc hops) chain sets st e (broken nz b) =
      (st, linked hops chain st none nz b ∙ not_followed hops st, refl)
  list_chain-Ends (suc hops) chain all st e (link {sets = sets} mc nz m later) =
      let (end, g, r) =
        follow hops st mc sets e (λ st' e'. list_chain-Ends hops mc.next_mcid sets st' e' later) in
      (end, linked hops chain st (some mc) nz m ∙ g, r)
