-- ===== src/Filedata/Copy/Plain.antt =====
-- copy_bitfile_bytes of a file that is no clone, down to the bytes of the disks.
use advfs_fuse.Base.{
  ℕ, ◌+◌, ◌-◌, ◌*◌, ◌/◌, ◌≤◌, ◌<◌, ◌≡◌, refl, sym, ap, ◌∙◌, ◌⊎◌, List, [], ◌∷◌, Option, none, some,
  arith, false, lt→ltb, ok, err, enoent, ◌>>=◌,
}
use advfs_fuse.Ods.{Bytes, u32_mod, uint32_max, pgsz, xtnt_term}
use advfs_fuse.Volume.{Volume}
use advfs_fuse.Domain.{Domain, domain_vd_vol}
use advfs_fuse.Extents.{Extent}
use advfs_fuse.Extents.Lookup.{find_extent}
use advfs_fuse.Extents.ReadData.{PageRead, zero_page, read_found, read_data_dom}
use advfs_fuse.Extents.ReadData.Pages.{
  IsMapped, IsReadable, IsCloneHole, HoldsPage, read_data_dom-mapped, read_data_dom-hole,
}
use advfs_fuse.Filedata.Copy.{Fallback, Page, or_zeros, bitfile_page, copy_bitfile_bytes}
use advfs_fuse.Filedata.Copy.Content.{Shows, IsFilled, copy_bitfile_bytes-IsFilled}
use advfs_fuse.Filedata.Copy.Total.{Serves, copy_bitfile_bytes_total}

-- The volume page behind page `pg` of an extent.
abbrev pub page_behind : Extent → ℕ → ℕ
page_behind e pg = (e.vd_blk + (pg - e.bs_page) * 16) / 16

-- What page `pg` of a file holds: the page of the volume that its extent maps, or zeros in a hole
-- and beyond the map.
pub data PageIs (domain : Domain) (extents : List Extent) (pg : ℕ) (bytes : Bytes) : Type 0 where
  on_volume :
      (e : Extent) (vol : Volume)
      → find_extent extents pg ≡ some e
      → e.bs_page ≤ pg
      → pg < u32_mod
      → IsMapped e
      → domain_vd_vol domain e.vd_index ≡ some vol
      → e.vd_blk + (pg - e.bs_page) * 16 ≤ uint32_max
      → IsReadable vol (page_behind e pg)
      → HoldsPage vol (page_behind e pg) bytes
      → PageIs domain extents pg bytes
  in_hole :
      (e : Extent)
      → find_extent extents pg ≡ some e
      → IsCloneHole e ⊎ (e.vd_blk ≡ xtnt_term)
      → ((i : ℕ) → i < pgsz → bytes i ≡ 0)
      → PageIs domain extents pg bytes
  beyond :
      (e : Extent) (rest : List Extent)
      → extents ≡ e ∷ rest
      → find_extent extents pg ≡ none
      → ((i : ℕ) → i < pgsz → bytes i ≡ 0)
      → PageIs domain extents pg bytes

-- A page read of copy_bitfile_bytes that succeeds with the bytes of `view`.
abbrev Got : Domain → List Extent → ℕ → Bytes → Bytes → Type 0
Got domain extents pg buf view =
    (p : Page) × (bitfile_page domain extents none pg buf ≡ ok p)
    × (p.fb ≡ none)
    × ((i : ℕ) → i < pgsz → p.bytes i ≡ view i)

read_ok :
    (domain : Domain) (extents : List Extent) (pg : ℕ) (buf view : Bytes) (r : PageRead)
    → read_data_dom (some domain) extents pg buf ≡ ok r
    → ((i : ℕ) → i < pgsz → r.bytes i ≡ view i)
    → Got domain extents pg buf view
unfolding bitfile_page or_zeros
read_ok domain extents pg buf view r e shown = (
  record { fb = none; bytes = r.bytes },
  ap (λ x. or_zeros x buf >>= λ p. ok (record { fb = none; bytes = p.bytes })) e,
  refl,
  shown,
)

read_beyond :
    (domain : Domain) (extents : List Extent) (pg : ℕ) (buf view : Bytes)
    → read_data_dom (some domain) extents pg buf ≡ err enoent
    → ((i : ℕ) → i < pgsz → view i ≡ 0)
    → Got domain extents pg buf view
unfolding bitfile_page or_zeros zero_page
read_beyond domain extents pg buf view e zeros = (
  record { fb = none; bytes = zero_page buf },
  ap (λ x. or_zeros x buf >>= λ p. ok (record { fb = none; bytes = p.bytes })) e,
  refl,
  λ i lt. rw (lt→ltb i pgsz lt) (sym (zeros i lt)),
)

pub read_missing :
    (domain : Domain) (extents : List Extent) (pg : ℕ) (buf : Bytes) (e : Extent)
    (rest : List Extent)
    → extents ≡ e ∷ rest
    → find_extent extents pg ≡ none
    → read_data_dom (some domain) extents pg buf ≡ err enoent
read_missing domain [] pg buf e rest is missing = cc
read_missing domain (x ∷ xs) pg buf e rest is missing =
    unfold read_data_dom in ap (λ o. read_found none (some domain) o pg buf) missing

PageIs-Got :
    (domain : Domain) (extents : List Extent) (pg : ℕ) (buf view : Bytes)
    → PageIs domain extents pg view
    → Got domain extents pg buf view
PageIs-Got domain extents pg buf view
      (on_volume e vol found le small mapped at fits readable holds) =
    let (b, read, held) =
      read_data_dom-mapped domain extents pg buf e vol found le small mapped at fits readable in
    read_ok domain extents pg buf view (record { bytes = b; is_perm_hole = false }) read
      (λ i lt. held i lt ∙ sym (holds i lt))
PageIs-Got domain extents pg buf view (in_hole e found h zeros) =
    let (r, read, zeroed, which) = read_data_dom-hole domain extents pg buf e found h in
    read_ok domain extents pg buf view r read (λ i lt. zeroed i lt ∙ sym (zeros i lt))
PageIs-Got domain extents pg buf view (beyond e rest is missing zeros) =
    read_beyond domain extents pg buf view (read_missing domain extents pg buf e rest is missing)
      zeros

module _ (domain : Domain) (extents : List Extent) (view : ℕ → Bytes)
    (pages : (pg : ℕ) → PageIs domain extents pg (view pg)) where
  abbrev pub IsPlain : Option Fallback → Type 0
  IsPlain fb = fb ≡ none

  pub shows : Shows domain extents IsPlain view
  shows none pg buf p plain read =
      let (q, read', fb_is, shown) = PageIs-Got domain extents pg buf (view pg) (pages pg) in
      let same : q ≡ p = cc in
      (ap (λ x. x.fb) (sym same) ∙ fb_is, λ i lt. ap (λ x. x.bytes i) (sym same) ∙ shown i lt)
  shows (some fb) pg buf p plain read = cc

  pub serves : (stop : ℕ) → Serves domain extents IsPlain stop
  serves stop none pg buf plain lt =
      let (q, read, fb_is, shown) = PageIs-Got domain extents pg buf (view pg) (pages pg) in
      (q, read, fb_is)
  serves stop (some fb) pg buf plain lt = cc

  -- For a file whose every page is on a readable volume, in a hole or beyond its map,
  -- copy_bitfile_bytes without a fallback succeeds, and the buffer then holds the `len` bytes of the
  -- file from `byte_off` on at `pos`, page by page those of the volumes' pages or zeros, and is
  -- otherwise unchanged.
  pub copy_plain-IsFilled :
      (byte_off : ℕ) (dst : Bytes) (pos len : ℕ) (buf : Bytes)
      → byte_off + len ≤ u32_mod * pgsz
      → (dst' : Bytes) × (copy_bitfile_bytes domain extents byte_off dst pos len none buf ≡ ok dst')
        × IsFilled view byte_off dst pos len dst'
  copy_plain-IsFilled byte_off dst pos len buf small =
      let (dst', e) =
        copy_bitfile_bytes_total domain extents IsPlain (byte_off + len) (serves (byte_off + len))
          byte_off dst pos len none buf small (omega arith) refl in
      (
        dst',
        e,
        copy_bitfile_bytes-IsFilled domain extents IsPlain view shows byte_off dst pos len none buf
            dst' small refl e,
      )
