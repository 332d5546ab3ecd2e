-- ===== src/Filedata/Read/InBounds.antt =====
-- Reading a file writes nothing outside the buffer of its size.
use advfs_fuse.Base.{
  ℕ, ◌+◌, ◌-◌, ◌*◌, ◌≤◌, ◌≡◌, refl, sym, ap, ◌∙◌, inl, inr, Bool, true, false, List, [], ◌∷◌,
  Option, none, some, arith, ltb, leb, ◌==◌, if◌then◌else◌, if_true, if_false, ltb→le, le→ltb,
  le→leb, Bool-cases, Result, stuck, ok, err, >>=-eq-ok, guard-eq-ok, einval, efbig, enodata, Errno,
}
use native.Mathlib.Decide.{dec_le}
use advfs_fuse.Ods.{
  Bytes, BfTag, pgsz, FsStat, st_size, frag_slot, frag_type, frag_page_offset, bmtr_fs_data,
  bsc_r_sz,
}
use advfs_fuse.Volume.{Volume, fresh}
use advfs_fuse.Domain.{Domain}
use advfs_fuse.Extents.{Extent, max_extents, page_count}
use advfs_fuse.Filedata.{McellAt, resolve_tag_mcell}
use advfs_fuse.Filedata.Records.{Copied, find_rec_in_chain, read_file_extents}
use advfs_fuse.Filedata.Copy.{Fallback}
use advfs_fuse.Filedata.Copy.Outside.{EndsAt, copy-EndsAt}
use advfs_fuse.Filedata.Read.{
  zeros, read_frag_tail, CloneCtx, frag_slot_sz, frag_file_tag, fallback_of, copy_mapped,
  read_pages, copy_inline, inline_or, filedata_max_size, read_contents, FileData, filedata_read,
  filedata_stat,
}

keep-EndsAt : (size : ℕ) (buf buf' : Bytes) → EndsAt size buf → ok buf ≡ ok buf' → EndsAt size buf'
keep-EndsAt size buf buf' ends e i ge = ap (λ r. elim r [ ok d ↦ d i | _ ↦ 0 ]) (sym e) ∙ ends i ge

enodata_or :
    {A : Type 0} (e : Errno) (go : Result A) (t : A)
    → (elim e [ enodata ↦ go | other ↦ err other ]) ≡ ok t
    → go ≡ ok t
enodata_or e go t =
    elim e as (λ x. (elim x [ enodata ↦ go | other ↦ err other ]) ≡ ok t → go ≡ ok t) [
      | enodata ↦ λ h. h
      | _ ↦ λ h. cc
    ]

capped : (size n : ℕ) → (if ltb size n then size else n) ≤ size
capped size n = ground arith

zero_capped : (size n : ℕ) → 0 + (if ltb size n then size else n) ≤ size
zero_capped size n = ground arith

le_trans : {a b c : ℕ} → a ≤ b → b ≤ c → a ≤ c
le_trans h k = omega arith

copy_mapped-EndsAt :
    (domain : Domain) (fb : Option Fallback) (found : Result (List Extent)) (buf : Bytes) (size : ℕ)
    (buf' : Bytes)
    → EndsAt size buf
    → copy_mapped domain fb found buf size ≡ ok buf'
    → EndsAt size buf'
unfolding copy_mapped
copy_mapped-EndsAt domain fb stuck buf size buf' ends h = cc
copy_mapped-EndsAt domain fb (err e) buf size buf' ends h =
    keep-EndsAt size buf buf' ends (enodata_or e (ok buf) buf' h)
copy_mapped-EndsAt domain fb (ok []) buf size buf' ends h = keep-EndsAt size buf buf' ends h
copy_mapped-EndsAt domain fb (ok (e ∷ rest)) buf size buf' ends h =
    let mapped = page_count (some (e ∷ rest)) * pgsz in
    copy-EndsAt domain (e ∷ rest) 0 buf 0 (if ltb size mapped then size else mapped) fb fresh buf'
      size (zero_capped size mapped) ends h

read_frag_tail-EndsAt :
    (domain : Domain) (fs_tag_extents : List Extent) (fs_tag : BfTag) (st : FsStat) (buf : Bytes)
    (size : ℕ) (buf' : Bytes)
    → EndsAt size buf
    → read_frag_tail domain fs_tag_extents fs_tag st buf size ≡ ok buf'
    → EndsAt size buf'
unfolding read_frag_tail
read_frag_tail-EndsAt domain fs_tag_extents fs_tag st buf size buf' ends h =
    elim (dec_le size (frag_page_offset st * pgsz)) [
      | yes past ↦
          let bad : err einval ≡ ok buf' =
            sym (
              if_true (leb size (frag_page_offset st * pgsz)) _ _
                (le→leb size (frag_page_offset st * pgsz) past))
            ∙ h in
          cc
      | no inside ↦
          let frag_off = frag_page_offset st * pgsz in
          let h1 = guard-eq-ok einval (leb size frag_off) _ h in
          let h2 = guard-eq-ok einval (ltb (frag_type st * frag_slot_sz) (size - frag_off)) _ h1 in
          let (at, h3, resolved) =
            >>=-eq-ok _ (resolve_tag_mcell domain fs_tag_extents fs_tag frag_file_tag) h2 in
          let (frag_extents, h4, mapped) =
            >>=-eq-ok _ (read_file_extents domain at max_extents) h3 in
          copy-EndsAt domain frag_extents (frag_slot st * frag_slot_sz) buf frag_off
            (size - frag_off) none fresh buf' size (omega arith) ends h4
    ]

unguarded :
    {A P : Type 0} {t : A} (e : Errno) (b : Bool)
    → (b ≡ false → P)
    → (rest : Result A) → (if b then err e else rest) ≡ ok t
    → P
unguarded e true then_p rest h = cc
unguarded e false then_p rest h = then_p refl

read_pages-EndsAt :
    (vol : Volume) (domain : Domain) (fs_tag_extents : List Extent) (fs_tag file_tag : BfTag)
    (clone : Option CloneCtx) (st : FsStat) (at : McellAt) (buf : Bytes)
    → read_pages vol domain fs_tag_extents fs_tag file_tag clone st at ≡ ok buf
    → EndsAt (st_size st) buf
unfolding read_pages
read_pages-EndsAt vol domain fs_tag_extents fs_tag file_tag clone st at buf h =
    let (mapped, h1, copied) =
      >>=-eq-ok _
        (copy_mapped domain (fallback_of vol domain file_tag clone)
          (read_file_extents domain at max_extents) zeros (st_size st))
        h in
    let ends =
      copy_mapped-EndsAt domain (fallback_of vol domain file_tag clone)
        (read_file_extents domain at max_extents) zeros (st_size st) mapped (λ i ge. refl) copied in
    elim (Bool-cases (frag_type st == 0)) [
      | inl whole ↦
          keep-EndsAt (st_size st) mapped buf ends
            (sym (if_true (frag_type st == 0) _ _ whole) ∙ h1)
      | inr frag ↦
          read_frag_tail-EndsAt domain fs_tag_extents fs_tag st mapped (st_size st) buf ends
            (sym (if_false (frag_type st == 0) _ _ frag) ∙ h1)
    ]

inline_or-EndsAt :
    (found : Result Copied) (size : ℕ) (go : Result Bytes) (buf : Bytes)
    → (go ≡ ok buf → EndsAt size buf)
    → inline_or found size go ≡ ok buf
    → EndsAt size buf
unfolding inline_or copy_inline
inline_or-EndsAt stuck size go buf later h = cc
inline_or-EndsAt (err e) size go buf later h = later (enodata_or e go buf h)
inline_or-EndsAt (ok c) size go buf later h =
    keep-EndsAt size (copy_inline c zeros size) buf
      (λ i ge.
        if_false (ltb i (if ltb size c.size then size else c.size)) _ _
          (le→ltb i (if ltb size c.size then size else c.size) (le_trans (capped size c.size) ge)))
      h

read_contents-EndsAt :
    (vol : Volume) (domain : Domain) (fs_tag_extents : List Extent) (fs_tag file_tag : BfTag)
    (clone : Option CloneCtx) (st : FsStat) (buf : Bytes)
    → read_contents vol domain fs_tag_extents fs_tag file_tag clone st ≡ ok buf
    → (st_size st ≤ filedata_max_size) × EndsAt (st_size st) buf
unfolding read_contents
read_contents-EndsAt vol domain fs_tag_extents fs_tag file_tag clone st buf h =
    let h1 = guard-eq-ok efbig (ltb filedata_max_size (st_size st)) _ h in
    (
      unguarded efbig (ltb filedata_max_size (st_size st)) (ltb→le filedata_max_size (st_size st)) _
          h,
      elim (Bool-cases (st_size st == 0)) [
        | inl empty ↦
            keep-EndsAt (st_size st) zeros buf (λ i ge. refl)
              (sym (if_true (st_size st == 0) _ _ empty) ∙ h1)
        | inr full ↦
            let (at, h2, resolved) =
              >>=-eq-ok _ (resolve_tag_mcell domain fs_tag_extents fs_tag file_tag)
                (sym (if_false (st_size st == 0) (ok zeros) _ full) ∙ h1) in
            let paged =
              read_pages-EndsAt vol domain fs_tag_extents fs_tag file_tag clone st at buf in
            elim (Bool-cases (frag_type st == 0)) [
              | inl whole ↦
                  inline_or-EndsAt (find_rec_in_chain domain at bmtr_fs_data fresh bsc_r_sz)
                    (st_size st) _ buf paged (sym (if_true (frag_type st == 0) _ _ whole) ∙ h2)
              | inr frag ↦ paged (sym (if_false (frag_type st == 0) _ _ frag) ∙ h2)
            ]
      ],
    )

-- A file that is read, plain or as part of a clone, has the size that its FS_STAT record gives, at
-- most 16 TiB, and nothing is written behind that size: inline data, mapped pages and the frag
-- tail all stay inside the buffer that was allocated.
pub filedata_read_in_bounds :
    (vol : Option Volume) (domain : Option Domain) (fs_tag_extents : List Extent)
    (fs_tag file_tag : BfTag) (clone : Option CloneCtx) (f : FileData)
    → filedata_read vol domain fs_tag_extents fs_tag file_tag clone ≡ ok f
    → ((st : FsStat) × (filedata_stat vol domain fs_tag_extents fs_tag file_tag ≡ ok st)
        × (f.size ≡ st_size st))
      × (f.size ≤ filedata_max_size)
      × EndsAt f.size f.buf
unfolding filedata_read
filedata_read_in_bounds none domain fs_tag_extents fs_tag file_tag clone f h =
    let (st, bad, stat) =
      >>=-eq-ok (λ s. err einval) (filedata_stat none domain fs_tag_extents fs_tag file_tag) h in
    cc
filedata_read_in_bounds (some vol) none fs_tag_extents fs_tag file_tag clone f h =
    let (st, bad, stat) =
      >>=-eq-ok (λ s. err einval) (filedata_stat (some vol) none fs_tag_extents fs_tag file_tag)
        h in
    cc
filedata_read_in_bounds (some vol) (some domain) fs_tag_extents fs_tag file_tag clone f h =
    let (st, h1, stat) =
      >>=-eq-ok _ (filedata_stat (some vol) (some domain) fs_tag_extents fs_tag file_tag) h in
    let (buf, h2, contents) =
      >>=-eq-ok (λ b. ok (record { buf = b; size = st_size st }))
        (read_contents vol domain fs_tag_extents fs_tag file_tag clone st) h1 in
    let (small, ends) =
      read_contents-EndsAt vol domain fs_tag_extents fs_tag file_tag clone st buf contents in
    let made : FileData = record { buf = buf; size = st_size st } in
    let same : made ≡ f = cc in rw (← same) ((st, stat, refl), small, ends)
