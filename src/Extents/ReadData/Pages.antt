-- ===== src/Extents/ReadData/Pages.antt =====
-- What a domain read of one page returns, for each kind of extent that covers the page.
use advfs_fuse.Base.{
  ℕ, ◌+◌, ◌-◌, ◌*◌, ◌/◌, ◌%◌, ◌≤◌, ◌<◌, ◌≡◌, refl, ap, ◌∙◌, ◌≢◌, ◌⊎◌, inl, inr, true, false, ◌||◌,
  List, [], ◌∷◌, none, some, arith, le→ltb, ne→==, eq→==, lt→ltb, ◌↔◌, ok, ◌>>=◌,
}
use native.Mathlib.Nat.{mod-eq_of_lt}
use advfs_fuse.Runs.{Covers}
use advfs_fuse.Ods.{Bytes, u32_mod, u64_mod, uint32_max, pgsz, xtnt_term, perm_hole}
use advfs_fuse.Volume.{Volume, read_page, vol_pread}
use advfs_fuse.Volume.Read.{Delivers, vol_pread_exact, vol_pread_delivers}
use advfs_fuse.Domain.{Domain, domain_vd_vol}
use advfs_fuse.Extents.{Extent}
use advfs_fuse.Extents.Lookup.{find_extent, extent_start, extent_stops}
use advfs_fuse.Extents.ReadData.{PageRead, zero_page, read_block_page, read_found, read_data_dom}

-- An extent that maps blocks: neither a hole marker nor the block 0 of a clone stub.
pub record IsMapped (e : Extent) : Type 0 where
  pub not_term : e.vd_blk ≢ xtnt_term
  pub not_perm : e.vd_blk ≢ perm_hole
  pub not_stub : e.vd_blk ≢ 0

read_found_mapped :
    (domain : Domain) (e : Extent) (vol : Volume) (page : ℕ) (buf : Bytes)
    → IsMapped e
    → domain_vd_vol domain e.vd_index ≡ some vol
    → read_found none (some domain) (some e) page buf ≡ read_block_page vol e page buf
unfolding read_found
read_found_mapped domain e vol page buf m v =
    rw
      (
        ne→== e.vd_blk perm_hole m.not_perm,
        ne→== e.vd_blk 0 m.not_stub,
        ne→== e.vd_blk xtnt_term m.not_term,
        v,
      )
      refl

-- The bytes of volume page `vol_page`, in exact arithmetic.
abbrev pub HoldsPage : Volume → ℕ → Bytes → Type 0
HoldsPage vol vol_page bytes =
    (i : ℕ) → i < pgsz → bytes i ≡ vol.content (vol.part_offset + vol_page * pgsz + i)

-- The page lies inside the volume, and the system delivers its bytes.
pub record IsReadable (vol : Volume) (vol_page : ℕ) : Type 0 where
  pub inside : (vol_page + 1) * pgsz ≤ vol.size_bytes
  pub no_wrap : vol.part_offset + vol.size_bytes < u64_mod
  pub delivers : Delivers vol pgsz (vol_page * pgsz)

read_page_exact :
    (vol : Volume) (vol_page : ℕ) (buf : Bytes)
    → vol_page * pgsz < u64_mod
    → read_page (some vol) vol_page buf ≡ vol_pread vol buf pgsz (vol_page * pgsz)
unfolding read_page
read_page_exact vol vol_page buf h = ap (λ o. vol_pread vol buf pgsz o) (mod-eq_of_lt h)

-- advfs_volume_read_page on a page inside the volume delivers that page of the file.
pub read_page-HoldsPage :
    (vol : Volume) (vol_page : ℕ) (buf : Bytes)
    → IsReadable vol vol_page
    → (b : Bytes) × (read_page (some vol) vol_page buf ≡ ok b) × HoldsPage vol vol_page b
read_page-HoldsPage vol vol_page buf r =
    let (b, e) =
      vol_pread_delivers vol buf pgsz (vol_page * pgsz) (omega (arith, r.inside)) r.delivers.1 in
    let (inside, front, behind) = vol_pread_exact vol buf pgsz (vol_page * pgsz) b r.delivers.0 e in
    let abs : (vol.part_offset + vol_page * pgsz) % u64_mod ≡ vol.part_offset + vol_page * pgsz =
      mod-eq_of_lt (omega (arith, r.inside, r.no_wrap)) in
    (
      b,
      read_page_exact vol vol_page buf (omega (arith, r.inside, r.no_wrap)) ∙ e,
      λ i lt. front i lt ∙ ap (λ x. vol.content (x + i)) abs,
    )

read_block_page_exact :
    (vol : Volume) (e : Extent) (page : ℕ) (buf : Bytes)
    → e.bs_page ≤ page
    → page < u32_mod
    → e.vd_blk + (page - e.bs_page) * 16 ≤ uint32_max
    → read_block_page vol e page buf ≡ (
        read_page (some vol) ((e.vd_blk + (page - e.bs_page) * 16) / 16) buf >>= λ b.
        ok (record { bytes = b; is_perm_hole = false }))
unfolding read_block_page
read_block_page_exact vol e page buf le small fits =
    let off : (page + u32_mod - e.bs_page) % u32_mod ≡ page - e.bs_page = omega arith in
    let blk : (e.vd_blk + (page - e.bs_page) * 16) % u64_mod ≡ e.vd_blk + (page - e.bs_page) * 16 =
      mod-eq_of_lt (omega arith) in
    rw (off, blk, le→ltb uint32_max _ fits) refl

Covers-le :
    {m : List Extent} {page : ℕ} {e : Extent}
    → Covers extent_start extent_stops m page e
    → e.bs_page ≤ page
Covers-le (Covers.here a b) = a
Covers-le (Covers.last a b) = a
Covers-le (Covers.later c) = Covers-le c

read_data_dom-found :
    (domain : Domain) (m : List Extent) (page : ℕ) (buf : Bytes) {e : Extent}
    → find_extent m page ≡ some e
    → read_data_dom (some domain) m page buf ≡ read_found none (some domain) (some e) page buf
read_data_dom-found domain [] page buf f = absurd (unfold find_extent in cc f)
read_data_dom-found domain (x ∷ rest) page buf f =
    unfold read_data_dom in ap (λ o. read_found none (some domain) o page buf) f

-- A page whose extent the lookup finds, with the extent mapped, its volume attached, its block
-- addressable and the volume page readable: the read succeeds with the 8192 bytes of volume page
-- (vd_blk + 16 * (page - bs_page)) / 16 of the extent's own volume, and reports no permanent hole.
pub read_data_dom-mapped :
    (domain : Domain) (m : List Extent) (page : ℕ) (buf : Bytes) (e : Extent) (vol : Volume)
    → find_extent m page ≡ some e
    → e.bs_page ≤ page
    → page < u32_mod
    → IsMapped e
    → domain_vd_vol domain e.vd_index ≡ some vol
    → e.vd_blk + (page - e.bs_page) * 16 ≤ uint32_max
    → IsReadable vol ((e.vd_blk + (page - e.bs_page) * 16) / 16)
    → (b : Bytes) × (read_data_dom (some domain) m page buf
        ≡ ok (record { bytes = b; is_perm_hole = false }))
      × HoldsPage vol ((e.vd_blk + (page - e.bs_page) * 16) / 16) b
read_data_dom-mapped domain m page buf e vol found le small mapped at fits readable =
    let (b, read, holds) = read_page-HoldsPage vol _ buf readable in
    (
      b,
      read_data_dom-found domain m page buf found
          ∙ read_found_mapped domain e vol page buf mapped at
          ∙ read_block_page_exact vol e page buf le small fits
          ∙ rw read refl,
      holds,
    )

-- The two encodings of a clone's permanent hole.
abbrev pub IsCloneHole : Extent → Type 0
IsCloneHole e = (e.vd_blk ≡ perm_hole) ⊎ (e.vd_blk ≡ 0)

read_found_hole :
    (domain : Domain) (e : Extent) (page : ℕ) (buf : Bytes)
    → IsCloneHole e
    → read_found none (some domain) (some e) page buf
      ≡ ok (record { bytes = zero_page buf; is_perm_hole = true })
unfolding read_found
read_found_hole domain e page buf (inl h) = rw (eq→== e.vd_blk perm_hole h) refl
read_found_hole domain e page buf (inr h) = rw (h, ◌||◌) refl

read_found_term :
    (domain : Domain) (e : Extent) (page : ℕ) (buf : Bytes)
    → e.vd_blk ≡ xtnt_term
    → read_found none (some domain) (some e) page buf
      ≡ ok (record { bytes = zero_page buf; is_perm_hole = false })
unfolding read_found
read_found_term domain e page buf h = rw h refl

false-ne-true : false ≡ true → ⊥
false-ne-true h = cc

term-not-clone : (e : Extent) → e.vd_blk ≡ xtnt_term → ¬ IsCloneHole e
term-not-clone e h (inl p) = omega arith
term-not-clone e h (inr z) = omega arith

-- A page in a hole reads as 8192 zeros from no volume at all, and the read reports a permanent hole
-- exactly if the extent is a clone's hole: PERM_HOLE, or the stub at disk block 0.
pub read_data_dom-hole :
    (domain : Domain) (m : List Extent) (page : ℕ) (buf : Bytes) (e : Extent)
    → find_extent m page ≡ some e
    → IsCloneHole e ⊎ (e.vd_blk ≡ xtnt_term)
    → (r : PageRead) × (read_data_dom (some domain) m page buf ≡ ok r)
      × ((i : ℕ) → i < pgsz → r.bytes i ≡ 0)
      × ((r.is_perm_hole ≡ true) ↔ IsCloneHole e)
read_data_dom-hole domain m page buf e found (inl h) = (
  record { bytes = zero_page buf; is_perm_hole = true },
  read_data_dom-found domain m page buf found ∙ read_found_hole domain e page buf h,
  λ i lt. unfold zero_page in rw (lt→ltb i pgsz lt) refl,
  (λ _. h, λ _. refl),
)
read_data_dom-hole domain m page buf e found (inr h) = (
  record { bytes = zero_page buf; is_perm_hole = false },
  read_data_dom-found domain m page buf found ∙ read_found_term domain e page buf h,
  λ i lt. unfold zero_page in rw (lt→ltb i pgsz lt) refl,
  (λ f. absurd (false-ne-true f), λ c. absurd (term-not-clone e h c)),
)
