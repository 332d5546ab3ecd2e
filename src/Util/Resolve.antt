-- ===== src/Util/Resolve.antt =====
-- advfs_bmt_resolve_page against the description of a BMT extent map by the ranges it covers.
use advfs_fuse.Base.{
  ℕ, ◌+◌, ◌-◌, ◌*◌, ◌/◌, ◌≤◌, ◌<◌, ◌≡◌, refl, ◌↔◌, Bool, true, List, [], ◌∷◌, Option, none, some,
  arith, ◌==◌, ok, All,
}
use advfs_fuse.Runs.{Covers, IsSorted, find_covering, find_covering-Covers, Covers-find_covering}
use advfs_fuse.Ods.{u32_mod, uint32_max, xtnt_term, perm_hole, Xtnt}
use advfs_fuse.Util.{find_bmt_entry, bmt_entry_page, bmt_resolve_page}

abbrev pub xtnt_start : Xtnt → ℕ
xtnt_start e = e.bs_page

abbrev pub is_term : Xtnt → Bool
is_term e = e.vd_blk == xtnt_term

-- The fields of a descriptor are 32 bits wide.
abbrev pub IsXtnt : Xtnt → Type 0
IsXtnt e = (e.bs_page < u32_mod) × (e.vd_blk < u32_mod)

-- BMT page `page` is stored at volume page `vol_page`: a mapped entry of the map covers it, and the
-- block that it falls on is addressable.
pub record Resolves (map : List Xtnt) (page vol_page : ℕ) : Type 0 where
  pub entry : Xtnt
  pub covers : Covers xtnt_start is_term map page entry
  pub starts : entry.bs_page ≤ page
  pub mapped : entry.vd_blk < perm_hole
  pub fits : entry.vd_blk + (page - entry.bs_page) * 16 ≤ uint32_max
  pub at_page : vol_page ≡ (entry.vd_blk + (page - entry.bs_page) * 16) / 16

find_bmt_entry-covering :
    (map : List Xtnt) (page : ℕ)
    → find_bmt_entry map page ≡ find_covering xtnt_start is_term map page
unfolding find_bmt_entry find_covering
find_bmt_entry-covering [] page = refl
find_bmt_entry-covering (e ∷ []) page = refl
find_bmt_entry-covering (e ∷ f ∷ rest) page =
    ground (arith, find_bmt_entry-covering (f ∷ rest) page)

Covers-le :
    {map : List Xtnt} {page : ℕ} {e : Xtnt}
    → Covers xtnt_start is_term map page e
    → e.bs_page ≤ page
Covers-le (Covers.here a b) = a
Covers-le (Covers.last a b) = a
Covers-le (Covers.later c) = Covers-le c

Covers-IsXtnt :
    {map : List Xtnt} {page : ℕ} {e : Xtnt}
    → Covers xtnt_start is_term map page e
    → All IsXtnt map
    → IsXtnt e
Covers-IsXtnt (Covers.here a b) w = w.0
Covers-IsXtnt (Covers.last a b) w = w.0
Covers-IsXtnt (Covers.later c) w = Covers-IsXtnt c w.1

-- What the code behind the loop makes of an entry.
entry_page-ok :
    (e : Xtnt) (page v : ℕ)
    → e.bs_page ≤ page
    → page < u32_mod
    → IsXtnt e
    → bmt_entry_page (some e) page ≡ ok v
    → (e.vd_blk < perm_hole)
      × (e.vd_blk + (page - e.bs_page) * 16 ≤ uint32_max)
      × (v ≡ (e.vd_blk + (page - e.bs_page) * 16) / 16)
unfolding bmt_entry_page
entry_page-ok e page v le small w h = ground arith

entry_page-exact :
    (e : Xtnt) (page v : ℕ)
    → e.bs_page ≤ page
    → page < u32_mod
    → e.vd_blk < perm_hole
    → e.vd_blk + (page - e.bs_page) * 16 ≤ uint32_max
    → v ≡ (e.vd_blk + (page - e.bs_page) * 16) / 16
    → bmt_entry_page (some e) page ≡ ok v
unfolding bmt_entry_page
entry_page-exact e page v le small mapped fits at_page = ground arith

entry_page-some :
    (o : Option Xtnt) (page v : ℕ) → bmt_entry_page o page ≡ ok v → (e : Xtnt) × (o ≡ some e)
unfolding bmt_entry_page
entry_page-some none page v h = cc
entry_page-some (some e) page v h = (e, refl)

module _ (e : Xtnt) (rest : List Xtnt) (page v : ℕ) (wide : All IsXtnt (e ∷ rest))
    (small : page < u32_mod) where
  resolve_page_sound :
      bmt_resolve_page true (some (e ∷ rest)) page ≡ ok v → Resolves (e ∷ rest) page v
  unfolding bmt_resolve_page
  resolve_page_sound h =
      let (x, found) = entry_page-some (find_bmt_entry (e ∷ rest) page) page v h in
      let c =
        find_covering-Covers xtnt_start is_term (e ∷ rest) page
          (rw (find_bmt_entry-covering (e ∷ rest) page) at found) in
      let (mapped, fits, at_page) =
        entry_page-ok x page v (Covers-le c) small (Covers-IsXtnt c wide) (rw found at h) in
      record {
        entry = x;
        covers = c;
        starts = Covers-le c;
        mapped = mapped;
        fits = fits;
        at_page = at_page;
      }

  resolve_page_complete :
      IsSorted xtnt_start is_term (e ∷ rest)
      → Resolves (e ∷ rest) page v
      → bmt_resolve_page true (some (e ∷ rest)) page ≡ ok v
  unfolding bmt_resolve_page
  resolve_page_complete s r =
      rw
        (
          find_bmt_entry-covering (e ∷ rest) page,
          Covers-find_covering xtnt_start is_term s r.covers,
        )
        (entry_page-exact r.entry page v r.starts small r.mapped r.fits r.at_page)

  -- On a sorted, non-empty map of 32-bit descriptors, advfs_bmt_resolve_page succeeds with a
  -- volume page exactly when the map stores the BMT page there: some mapped entry covers the page,
  -- its block for that page is at most UINT32_MAX, and the result is that block divided by 16.
  pub resolve_page-iff-Resolves :
      IsSorted xtnt_start is_term (e ∷ rest)
      → (bmt_resolve_page true (some (e ∷ rest)) page ≡ ok v) ↔ Resolves (e ∷ rest) page v
  resolve_page-iff-Resolves s = (resolve_page_sound, resolve_page_complete s)
