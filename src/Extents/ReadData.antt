-- ===== src/Extents/ReadData.antt =====
-- read_data_core of src/extents.c and its three entry points: one page of a bitfile.
pub mod Pages
use advfs_fuse.Base.{
  ℕ, ◌+◌, ◌-◌, ◌*◌, ◌%◌, Bool, true, false, ◌||◌, List, [], ◌∷◌, Option, none, some, ltb, ◌==◌,
  if◌then◌else◌, Result, ok, err, ◌>>=◌, enoent, enodev, einval, erange, Errno,
}
use advfs_fuse.Ods.{Bytes, u32_mod, u64_mod, uint32_max, pgsz, blks_per_pg, xtnt_term, perm_hole}
use advfs_fuse.Util.{block_to_page}
use advfs_fuse.Volume.{Volume, read_page}
use advfs_fuse.Domain.{Domain, domain_vd_vol}
use advfs_fuse.Extents.{Extent}
use advfs_fuse.Extents.Lookup.{find_extent}

-- The buffer after a read, and whether `*perm_hole_out` was set to 1.
pub record PageRead : Type 0 where
  pub bytes : Bytes
  pub is_perm_hole : Bool

-- memset(buf, 0, ADVFS_PGSZ)
unfoldable pub zero_page : Bytes → Bytes
zero_page buf i = if ltb i pgsz then 0 else buf i

abbrev attached : Option Volume → Errno → Result Volume
attached none e = err e
attached (some vol) e = ok vol

-- The volume that holds an extent's blocks: the one given, or the one of the domain with its index.
unfoldable pub pick_volume : Option Volume → Option Domain → ℕ → Result Volume
unfolding domain_vd_vol
pick_volume legacy_vol none vd_index = attached legacy_vol einval
pick_volume legacy_vol (some domain) vd_index = attached (domain_vd_vol domain vd_index) enodev

-- The part of read_data_core that reads from disk.
unfoldable pub read_block_page : Volume → Extent → ℕ → Bytes → Result PageRead
unfolding block_to_page read_page
read_block_page vol e page buf =
    let page_offset = (page + u32_mod - e.bs_page) % u32_mod in
    let disk_block64 = (e.vd_blk + page_offset * blks_per_pg) % u64_mod in
    if ltb uint32_max disk_block64
    then err erange
    else read_page (some vol) (block_to_page disk_block64) buf >>= λ b.
        ok (record { bytes = b; is_perm_hole = false })

-- read_data_core once the loop has ended.
unfoldable pub read_found :
    Option Volume → Option Domain → Option Extent → ℕ → Bytes → Result PageRead
unfolding pick_volume read_block_page zero_page
read_found legacy_vol domain none page buf = err enoent
read_found legacy_vol domain (some e) page buf =
    if e.vd_blk == perm_hole || e.vd_blk == 0
    then ok (record { bytes = zero_page buf; is_perm_hole = true })
    else if e.vd_blk == xtnt_term
    then ok (record { bytes = zero_page buf; is_perm_hole = false })
    else pick_volume legacy_vol domain e.vd_index >>= λ vol. read_block_page vol e page buf

-- read_data_core; an array with no entries stands for a NULL one too.
unfoldable pub read_data_core :
    Option Volume → Option Domain → List Extent → ℕ → Bytes → Result PageRead
unfolding find_extent read_found
read_data_core legacy_vol domain [] page buf = err einval
read_data_core legacy_vol domain (e ∷ rest) page buf =
    read_found legacy_vol domain (find_extent (e ∷ rest) page) page buf

-- advfs_extents_read_data
unfoldable pub read_data : Option Volume → List Extent → ℕ → Bytes → Result PageRead
unfolding read_data_core
read_data none extents page buf = err einval
read_data (some vol) extents page buf = read_data_core (some vol) none extents page buf

-- advfs_extents_read_data_dom and advfs_extents_read_data_dom_ex
unfoldable pub read_data_dom : Option Domain → List Extent → ℕ → Bytes → Result PageRead
unfolding read_data_core
read_data_dom none extents page buf = err einval
read_data_dom (some domain) extents page buf = read_data_core none (some domain) extents page buf
