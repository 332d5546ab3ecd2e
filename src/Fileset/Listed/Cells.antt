-- ===== src/Fileset/Listed/Cells.antt =====
-- The loop of advfs_domain_list_filesets of src/domain.c over the mcells of BMT page 0.
use advfs_fuse.Base.{
  ℕ, zero, suc, ◌+◌, ◌<◌, ◌≤◌, ◌≡◌, ◌≢◌, refl, sym, ap, ◌∙◌, inl, inr, false, Bool-cases, if_false,
  Option, none, some, List, [], if◌then◌else◌, if_both, arith,
}
use advfs_fuse.Ods.{BmtPage}
use advfs_fuse.Bmt.{get_mcell}
use advfs_fuse.Fileset.Enumerate.{FilesetInfo, FilesetCb}
use advfs_fuse.Fileset.Enumerate.Report.{cons_found, report_sets}
use advfs_fuse.Fileset.Listed.{try_cell, Listed, list_one, list_cells}

-- The filesets that the mcells of a page have.
abbrev pub page_sets : ℕ → BmtPage → ℕ → List FilesetInfo
page_sets zero pg i = []
page_sets (suc left) pg i = cons_found (try_cell (get_mcell pg i)) (page_sets left pg (i + 1))

module _ {U : Type 0} (cb : FilesetCb U) where
  -- What a loop does with a find before it goes on with `go`.
  abbrev step : Option FilesetInfo → Listed U → (Listed U → Listed U) → Listed U
  step o st go = let st' = list_one cb o st in if st'.stop then st' else go st'

  step-report :
      (o : Option FilesetInfo) (st : Listed U) (go : Listed U → Listed U) (sets : List FilesetInfo)
      → st.stop ≡ false
      → ((st' : Listed U) → st'.stop ≡ false → (go st').user ≡ (report_sets cb sets st'.user).user)
      → (step o st go).user ≡ (report_sets cb (cons_found o sets) st.user).user
  unfolding list_one
  step-report none st go sets e rest = ap (λ l. l.user) (if_false st.stop st (go st) e) ∙ rest st e
  step-report (some info) st go sets e rest = elim (Bool-cases (cb info st.user).stop) [
    | inl s ↦ rw s refl
    | inr s ↦
        let r = cb info st.user in
        let st' = list_one cb (some info) st in
        ap (λ l. l.user) (if_false r.stop st' (go st') s)
        ∙ rest st' s
        ∙ sym (ap (λ w. w.user) (if_false r.stop r (report_sets cb sets r.user) s))
  ]

  pub list_cells-report :
      (left : ℕ) (pg : BmtPage) (i : ℕ) (st : Listed U)
      → st.stop ≡ false
      → (list_cells cb left pg i st).user ≡ (report_sets cb (page_sets left pg i) st.user).user
  unfolding list_cells
  list_cells-report zero pg i st e = refl
  list_cells-report (suc left) pg i st e =
      step-report (try_cell (get_mcell pg i)) st (λ st'. list_cells cb left pg (i + 1) st')
        (page_sets left pg (i + 1)) e (λ st' e'. list_cells-report left pg (i + 1) st' e')

  step_more :
      (o : Option FilesetInfo) (st : Listed U) (go : Listed U → Listed U)
      → ((st' : Listed U) → st'.found ≤ (go st').found)
      → st.found ≤ (step o st go).found
  unfolding list_one
  step_more none st go more =
      if_both (λ (l : Listed U). st.found ≤ l.found) st.stop _ _ (omega arith) (more st)
  step_more (some info) st go more =
      let m = more (list_one cb (some info) st) in
      if_both (λ (l : Listed U). st.found ≤ l.found) (cb info st.user).stop _ _ (omega arith)
        (omega (arith, m))

  list_cells_more :
      (left : ℕ) (pg : BmtPage) (i : ℕ) (st : Listed U)
      → st.found ≤ (list_cells cb left pg i st).found
  unfolding list_cells
  list_cells_more zero pg i st = omega arith
  list_cells_more (suc left) pg i st =
      step_more (try_cell (get_mcell pg i)) st (λ st'. list_cells cb left pg (i + 1) st')
        (λ st'. list_cells_more left pg (i + 1) st')

  -- A find is counted.
  step_found :
      (o : Option FilesetInfo) (st : Listed U) (go : Listed U → Listed U) (sets : List FilesetInfo)
      → st.stop ≡ false
      → ((st' : Listed U) → st'.found ≤ (go st').found)
      → (sets ≢ [] → st.found < (go st).found)
      → cons_found o sets ≢ []
      → st.found < (step o st go).found
  unfolding list_one
  step_found none st go sets e more rest ne =
      let f = rest ne in let g = if_false st.stop st (go st) e in rw g f
  step_found (some info) st go sets e more rest ne =
      let m = more (list_one cb (some info) st) in
      if_both (λ (l : Listed U). st.found < l.found) (cb info st.user).stop _ _ (omega arith)
        (omega (arith, m))

  pub list_cells_found :
      (left : ℕ) (pg : BmtPage) (i : ℕ) (st : Listed U)
      → st.stop ≡ false
      → page_sets left pg i ≢ []
      → st.found < (list_cells cb left pg i st).found
  unfolding list_cells
  list_cells_found zero pg i st e ne = absurd (ne refl)
  list_cells_found (suc left) pg i st e ne =
      step_found (try_cell (get_mcell pg i)) st (λ st'. list_cells cb left pg (i + 1) st')
        (page_sets left pg (i + 1)) e (λ st'. list_cells_more left pg (i + 1) st')
        (λ n. list_cells_found left pg (i + 1) st e n) ne

  step_none :
      (o : Option FilesetInfo) (st : Listed U) (go : Listed U → Listed U) (sets : List FilesetInfo)
      → st.stop ≡ false
      → (sets ≡ [] → go st ≡ st)
      → cons_found o sets ≡ []
      → step o st go ≡ st
  unfolding list_one
  step_none none st go sets e rest n = if_false st.stop st (go st) e ∙ rest n
  step_none (some info) st go sets e rest n = cc

  pub list_cells_none :
      (left : ℕ) (pg : BmtPage) (i : ℕ) (st : Listed U)
      → st.stop ≡ false
      → page_sets left pg i ≡ []
      → list_cells cb left pg i st ≡ st
  unfolding list_cells
  list_cells_none zero pg i st e n = refl
  list_cells_none (suc left) pg i st e n =
      step_none (try_cell (get_mcell pg i)) st (λ st'. list_cells cb left pg (i + 1) st')
        (page_sets left pg (i + 1)) e (λ m. list_cells_none left pg (i + 1) st e m) n
