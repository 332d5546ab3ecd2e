-- ===== src/Filedata/Copy/Clone.antt =====
-- A page that a clone does not have comes from the original file.
use advfs_fuse.Base.{
  ℕ, ◌<◌, ◌≡◌, refl, sym, ap, ◌∙◌, inl, inr, ◌⊎◌, Bool, true, false, List, some, lt→ltb,
  if◌then◌else◌, ok, ◌>>=◌,
}
use advfs_fuse.Ods.{Bytes, pgsz}
use advfs_fuse.Domain.{Domain}
use advfs_fuse.Extents.{Extent}
use advfs_fuse.Extents.Lookup.{find_extent}
use advfs_fuse.Extents.ReadData.{PageRead, zero_page, read_data_dom}
use advfs_fuse.Extents.ReadData.Pages.{IsCloneHole, read_data_dom-mapped, read_data_dom-hole}
use advfs_fuse.Filedata.Copy.{
  untried, ready, Fallback, original_extents, memo_of, clone_fallback_resolve, Page, or_zeros,
  original_page, clone_fallback_read_page, bitfile_page,
}
use advfs_fuse.Filedata.Copy.Once.{resolve_done, resolve_first}
use advfs_fuse.Filedata.Copy.Plain.{PageIs, on_volume, in_hole, beyond, read_missing}

abbrev Original : Domain → List Extent → ℕ → Bytes → Bytes → Type 0
Original domain orig pg buf view =
    (b : Bytes) × (original_page domain (ready orig) pg buf ≡ ok b)
    × ((i : ℕ) → i < pgsz → b i ≡ view i)

zero_page-zero : (b : Bytes) (i : ℕ) → i < pgsz → zero_page b i ≡ 0
unfolding zero_page
zero_page-zero b i lt = rw (lt→ltb i pgsz lt) refl

served :
    (domain : Domain) (orig : List Extent) (pg : ℕ) (buf view : Bytes) (r : PageRead)
    → read_data_dom (some domain) orig pg buf ≡ ok r
    → ((i : ℕ) → i < pgsz → (if r.is_perm_hole then zero_page r.bytes else r.bytes) i ≡ view i)
    → Original domain orig pg buf view
unfolding original_page or_zeros
served domain orig pg buf view r e shown = (
  (if r.is_perm_hole then zero_page r.bytes else r.bytes),
  ap (λ x. or_zeros x buf >>= λ p. ok (if p.is_perm_hole then zero_page p.bytes else p.bytes)) e,
  shown,
)

either_zero : (b : Bool) (x y : Bytes) (i : ℕ) → x i ≡ 0 → y i ≡ 0 → (if b then x else y) i ≡ 0
either_zero true x y i p q = p
either_zero false x y i p q = q

PageIs-Original :
    (domain : Domain) (orig : List Extent) (pg : ℕ) (buf view : Bytes)
    → PageIs domain orig pg view
    → Original domain orig pg buf view
unfolding original_page or_zeros
PageIs-Original domain orig pg buf view
      (on_volume e vol found le small mapped at fits readable holds) =
    let (b, read, held) =
      read_data_dom-mapped domain orig pg buf e vol found le small mapped at fits readable in
    served domain orig pg buf view (record { bytes = b; is_perm_hole = false }) read
      (λ i lt. held i lt ∙ sym (holds i lt))
PageIs-Original domain orig pg buf view (in_hole e found h zeros) =
    let (r, read, zeroed, which) = read_data_dom-hole domain orig pg buf e found h in
    served domain orig pg buf view r read (λ i lt.
      either_zero r.is_perm_hole (zero_page r.bytes) r.bytes i (zero_page-zero r.bytes i lt)
        (zeroed i lt)
      ∙ sym (zeros i lt))
PageIs-Original domain orig pg buf view (beyond e rest is missing zeros) = (
  zero_page buf,
  ap (λ x. or_zeros x buf >>= λ p. ok (if p.is_perm_hole then zero_page p.bytes else p.bytes))
      (read_missing domain orig pg buf e rest is missing),
  λ i lt. zero_page-zero buf i lt ∙ sym (zeros i lt),
)

-- The context with the original's map in its memo.
abbrev pub with_map : Fallback → List Extent → Fallback
with_map fb orig = record fb { resolved = ready orig }

-- `orig` is the map of the file's counterpart in the original fileset, and the memo holds it already
-- or has not been asked for it.
pub record IsOriginal (fb : Fallback) (orig : List Extent) : Type 0 where
  pub map_is : original_extents fb.vol fb.domain fb.orig_fs_tag fb.file_tag ≡ ok orig
  pub memo : (fb.resolved ≡ untried) ⊎ (fb.resolved ≡ ready orig)

resolve_original :
    (fb : Fallback) (orig : List Extent)
    → IsOriginal fb orig
    → clone_fallback_resolve fb ≡ ok (with_map fb orig)
unfolding memo_of
resolve_original fb orig h = elim h.memo [
  | inl first ↦
      resolve_first fb first ∙ ap (λ x. memo_of x >>= λ m. ok (record fb { resolved = m })) h.map_is
  | inr kept ↦
      resolve_done fb (ready orig) kept (λ u. cc)
      ∙ ap (λ f. ok f) (λ i. record fb { resolved = kept i })
]

-- Where a file of a clone has a permanent hole, and the map of its counterpart in the original
-- fileset can be read, the page read of copy_bitfile_bytes succeeds with the page of that
-- counterpart, which PageIs says: the bytes of a volume, or zeros in a hole of the original too and
-- beyond its map. This holds for the first such page, which reads the map and keeps it in the
-- memo, and for later ones, which find it there.
pub clone_page-PageIs :
    (domain : Domain) (extents : List Extent) (fb : Fallback) (orig : List Extent) (pg : ℕ)
    (buf view : Bytes) (e : Extent)
    → IsOriginal fb orig
    → find_extent extents pg ≡ some e
    → IsCloneHole e
    → PageIs fb.domain orig pg view
    → (p : Page) × (bitfile_page domain extents (some fb) pg buf ≡ ok p)
      × (p.fb ≡ some (with_map fb orig))
      × ((i : ℕ) → i < pgsz → p.bytes i ≡ view i)
unfolding bitfile_page or_zeros clone_fallback_read_page
clone_page-PageIs domain extents fb orig pg buf view e is_orig found hole page =
    let (r, read, zeroed, which) = read_data_dom-hole domain extents pg buf e found (inl hole) in
    let (b, original, shown) = PageIs-Original fb.domain orig pg r.bytes view page in
    (
      record { fb = some (with_map fb orig); bytes = b },
      ap
            (λ x. or_zeros x buf >>= λ p. elim p.is_perm_hole [
              | true ↦ clone_fallback_read_page fb pg p.bytes
              | false ↦ ok (record { fb = some fb; bytes = p.bytes })
            ])
            read
          ∙ ap
              (λ h. elim h [
                | true ↦ clone_fallback_read_page fb pg r.bytes
                | false ↦ ok (record { fb = some fb; bytes = r.bytes })
              ])
              (which.1 hole)
          ∙ ap
              (λ x. x >>= λ fb'. original_page fb'.domain fb'.resolved pg r.bytes >>= λ b'.
                ok (record { fb = some fb'; bytes = b' }))
              (resolve_original fb orig is_orig)
          ∙ ap (λ x. x >>= λ b'. ok (record { fb = some (with_map fb orig); bytes = b' })) original,
      refl,
      shown,
    )
