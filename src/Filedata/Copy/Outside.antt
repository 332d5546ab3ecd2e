-- ===== src/Filedata/Copy/Outside.antt =====
-- copy_bitfile_bytes writes to its range only.
use advfs_fuse.Base.{
  ℕ, zero, suc, ◌+◌, ◌-◌, ◌/◌, ◌%◌, ◌≤◌, ◌<◌, ◌≡◌, sym, ap, ◌∙◌, ◌⊎◌, inl, inr, List, Option, arith,
  ◌==◌, if_true, if_false, eq→==, ne→==, stuck, ok, >>=-eq-ok,
}
use native.Mathlib.Decide.{ℕ_discrete}
use advfs_fuse.Ods.{Bytes, pgsz, u32_mod, u64_mod}
use advfs_fuse.Domain.{Domain}
use advfs_fuse.Extents.{Extent}
use advfs_fuse.Filedata.Copy.{Fallback, bitfile_page, copy_chunk, copy_loop, copy_bitfile_bytes}
use advfs_fuse.Filedata.Copy.Content.{chunk_of, chunk_bounds, copy_chunk_out}

copy_loop_outside :
    (domain : Domain) (extents : List Extent) (fuel byte_off : ℕ) (dst : Bytes) (pos len : ℕ)
    (fb : Option Fallback) (buf dst' : Bytes)
    → copy_loop fuel domain extents byte_off dst pos len fb buf ≡ ok dst'
    → (i : ℕ) → (i < pos) ⊎ (pos + len ≤ i)
    → dst' i ≡ dst i
unfolding copy_loop
copy_loop_outside domain extents zero byte_off dst pos len fb buf dst' h i out =
    elim (ℕ_discrete len 0) [
      | yes nil ↦
          let same : ok dst ≡ ok dst' = sym (if_true (len == 0) _ _ (eq→== len 0 nil)) ∙ h in
          ap (λ r. elim r [ ok d ↦ d i | _ ↦ 0 ]) (sym same)
      | no some_left ↦
          let bad : stuck ≡ ok dst' = sym (if_false (len == 0) _ _ (ne→== len 0 some_left)) ∙ h in
          cc
    ]
copy_loop_outside domain extents (suc fuel) byte_off dst pos len fb buf dst' h i out =
    elim (ℕ_discrete len 0) [
      | yes nil ↦
          let same : ok dst ≡ ok dst' = sym (if_true (len == 0) _ _ (eq→== len 0 nil)) ∙ h in
          ap (λ r. elim r [ ok d ↦ d i | _ ↦ 0 ]) (sym same)
      | no some_left ↦
          let pg = byte_off / pgsz % u32_mod in
          let in_pg = byte_off % pgsz in
          let chunk = chunk_of len (pgsz - in_pg) in
          let next = (byte_off + chunk) % u64_mod in
          let (p, rest, page) =
            >>=-eq-ok _ (bitfile_page domain extents fb pg buf)
              (sym (if_false (len == 0) (ok dst) _ (ne→== len 0 some_left)) ∙ h) in
          let (pos_chunk, le, fits) = chunk_bounds len (pgsz - in_pg) (omega arith) (omega arith) in
          copy_loop_outside domain extents fuel next (copy_chunk dst pos chunk p.bytes in_pg)
            (pos + chunk) (len - chunk) p.fb p.bytes dst' rest i
            (elim out [ inl lt ↦ inl (omega arith) | inr ge ↦ inr (omega arith) ])
          ∙ copy_chunk_out dst pos chunk p.bytes in_pg i
              (elim out [ inl lt ↦ inl lt | inr ge ↦ inr (omega arith) ])
    ]

-- A buffer that holds nothing but zeros from `size` on.
abbrev pub EndsAt : ℕ → Bytes → Type 0
EndsAt size buf = (i : ℕ) → size ≤ i → buf i ≡ 0

pub copy-EndsAt :
    (domain : Domain) (extents : List Extent) (byte_off : ℕ) (dst : Bytes) (pos len : ℕ)
    (fb : Option Fallback) (buf dst' : Bytes) (size : ℕ)
    → pos + len ≤ size
    → EndsAt size dst
    → copy_bitfile_bytes domain extents byte_off dst pos len fb buf ≡ ok dst'
    → EndsAt size dst'
unfolding copy_bitfile_bytes
copy-EndsAt domain extents byte_off dst pos len fb buf dst' size le ends h i ge =
    copy_loop_outside domain extents len byte_off dst pos len fb buf dst' h i (inr (omega arith))
    ∙ ends i ge
