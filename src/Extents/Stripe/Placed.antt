-- ===== src/Extents/Stripe/Placed.antt =====
-- What a stripe column of src/extents.c says of one of its pages, and that col_lookup reports it.
use advfs_fuse.Base.{ℕ, ◌≤◌, ◌<◌, ◌≡◌, refl, sym, false, List, [], ◌∷◌, arith}
use mathlib.Core.Path.{subst}
use native.Mathlib.Decide.{dec_lt}
use advfs_fuse.Runs.{Covers, here, last, later}
use advfs_fuse.Ods.{uint32_max, u32_mod, xtnt_term}
use advfs_fuse.Extents.{Extent}
use advfs_fuse.Extents.Lookup.{Place, hole, extent_start, entry_place}
use advfs_fuse.Extents.Stripe.{entry_run, col_lookup}
use advfs_fuse.Extents.Stripe.Columns.{
  run_place, Addressable, Chain, IsColumn, col_lookup_last, col_lookup_inside, col_lookup_past,
}

-- The extent of a column that a page lies in: from its start up to the start of the next one, and the
-- last one without end, also where it is a hole.
abbrev pub InColumn : List Extent → ℕ → Extent → Type 0
InColumn col xm e = Covers extent_start (λ _. false) col xm e

-- Where page `xm` of a column lies: where its extent puts it, and in a hole if the column is empty.
pub data PlacedIn : List Extent → ℕ → Place → Type 0 where
  in_extent :
      {col : List Extent} {xm : ℕ} (e : Extent)
      → InColumn col xm e
      → PlacedIn col xm (entry_place e xm)
  no_extents : {xm : ℕ} → PlacedIn [] xm (hole xtnt_term)

entry_run_place :
    (e : Extent) (end bound xm : ℕ)
    → e.bs_page ≤ xm
    → xm < bound
    → xm < u32_mod
    → Addressable e bound
    → run_place (entry_run e end xm) ≡ entry_place e xm
unfolding entry_run
entry_run_place e end bound xm le b small a = ground arith

-- The extent of a well-formed column whose place col_lookup reports.
found_in :
    (e : Extent) (rest : List Extent) (limit xm : ℕ)
    → e.bs_page ≤ xm
    → xm < limit
    → limit ≤ uint32_max
    → Chain limit e rest
    → (x : Extent) × InColumn (e ∷ rest) xm x
      × (run_place (col_lookup (e ∷ rest) xm) ≡ entry_place x xm)
found_in e [] limit xm le b small c = (
  e,
  last le refl,
  rw (col_lookup_last e xm le (omega arith))
      (entry_run_place e uint32_max limit xm le b (omega arith) c),
)
found_in e (f ∷ rest) limit xm le b small c = elim (dec_lt xm f.bs_page) [
  | yes inside ↦ (
    e,
    here le inside,
    rw (col_lookup_inside e f rest xm le inside)
        (entry_run_place e f.bs_page f.bs_page xm le inside (omega arith) c.1),
  )
  | no past ↦
      let (x, covers, place) = found_in f rest limit xm (omega arith) b small c.2 in
      (x, later covers, rw (col_lookup_past e f rest xm (omega arith)) place)
]

-- col_lookup reports the place of a page of a well-formed column.
pub col_lookup-PlacedIn :
    (col : List Extent) (limit xm : ℕ)
    → xm < limit
    → limit ≤ uint32_max
    → IsColumn limit col
    → PlacedIn col xm (run_place (col_lookup col xm))
col_lookup-PlacedIn [] limit xm b small c = unfold col_lookup in no_extents
col_lookup-PlacedIn (e ∷ rest) limit xm b small c =
    let (x, covers, place) = found_in e rest limit xm (omega arith) b small c.1 in
    subst (PlacedIn (e ∷ rest) xm) (sym place) (in_extent x covers)
