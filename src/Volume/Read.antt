-- ===== src/Volume/Read.antt =====
-- vol_pread as its callers see it: its bounds, the bytes that it delivers, and that it delivers.
use advfs_fuse.Base.{
  ℕ, ◌+◌, ◌-◌, ◌%◌, ◌≤◌, ◌<◌, ◌≡◌, refl, sym, ◌∙◌, arith, ok, err, einval, lt→ltb, le→ltb,
}
use mathlib.Core.Path.{subst}
use native.Mathlib.Decide.{dec_lt, dec_le}
use advfs_fuse.Ods.{Bytes, u64_mod}
use advfs_fuse.Volume.{Volume, pread_loop, vol_pread}
use advfs_fuse.Volume.Loop.{AreShort, Deliver, err-ne-ok, loop-Holds, loop_delivers}

-- The absolute file offset of a read.
abbrev pub abs_offset : Volume → ℕ → ℕ
abs_offset vol offset = (vol.part_offset + offset) % u64_mod

-- The system answers a read with short counts only, and brings all of its bytes.
abbrev pub Delivers : Volume → ℕ → ℕ → Type 0
Delivers vol len offset =
    AreShort len (vol.answers len (abs_offset vol offset))
    × Deliver len (vol.answers len (abs_offset vol offset))

module _ (vol : Volume) (buf : Bytes) (len offset : ℕ) where
  vol_pread_loop :
      offset + len ≤ vol.size_bytes
      → vol_pread vol buf len offset
        ≡ pread_loop
            (vol.answers len (abs_offset vol offset))
            vol.content
            len
            (abs_offset vol offset)
            0
            buf
  unfolding vol_pread
  vol_pread_loop h =
      rw
        (
          le→ltb vol.size_bytes len (omega arith),
          le→ltb (vol.size_bytes - len) offset (omega arith),
        )
        refl

  -- A read that does not lie inside the volume is refused before any pread().
  pub vol_pread_outside : vol.size_bytes < offset + len → vol_pread vol buf len offset ≡ err einval
  unfolding vol_pread
  vol_pread_outside h = elim (dec_lt vol.size_bytes len) [
    | yes long ↦ rw (lt→ltb vol.size_bytes len long) refl
    | no short ↦
        rw
          (
            le→ltb vol.size_bytes len (omega arith),
            lt→ltb (vol.size_bytes - len) offset (omega arith),
          )
          refl
  ]

  vol_pread_inside :
      (buf' : Bytes)
      → vol_pread vol buf len offset ≡ ok buf'
      → (offset + len ≤ vol.size_bytes)
        × (pread_loop
              (vol.answers len (abs_offset vol offset))
              vol.content
              len
              (abs_offset vol offset)
              0
              buf
            ≡ ok buf')
  vol_pread_inside buf' h = elim (dec_le (offset + len) vol.size_bytes) [
    | yes inside ↦ (inside, sym (vol_pread_loop inside) ∙ h)
    | no out ↦ absurd (err-ne-ok (sym (vol_pread_outside (omega arith)) ∙ h))
  ]

  -- If pread() never stores more bytes than asked for, then whatever sequence of short reads and
  -- interruptions it makes, a vol_pread that succeeds lies inside the volume, has stored the `len`
  -- bytes of the file from part_offset + offset, and has left the buffer behind them alone.
  pub vol_pread_exact :
      (buf' : Bytes)
      → AreShort len (vol.answers len (abs_offset vol offset))
      → vol_pread vol buf len offset ≡ ok buf'
      → (offset + len ≤ vol.size_bytes)
        × ((i : ℕ) → i < len → buf' i ≡ vol.content (abs_offset vol offset + i))
        × ((i : ℕ) → len ≤ i → buf' i ≡ buf i)
  vol_pread_exact buf' short h =
      let (inside, e) = vol_pread_inside buf' h in
      let held =
        loop-Holds vol.content (abs_offset vol offset) len buf
          (vol.answers len (abs_offset vol offset)) 0 buf buf' (omega arith)
          (subst (λ n. AreShort n (vol.answers len (abs_offset vol offset))) (omega arith) short)
          (record { front = λ i lt. absurd (omega arith); behind = λ i le. refl }) e in
      (inside, held.front, held.behind)

  -- A read that lies inside the volume succeeds when the system's answers bring its bytes.
  pub vol_pread_delivers :
      offset + len ≤ vol.size_bytes
      → Deliver len (vol.answers len (abs_offset vol offset))
      → (buf' : Bytes) × (vol_pread vol buf len offset ≡ ok buf')
  vol_pread_delivers inside d =
      let (buf', e) =
        loop_delivers vol.content (abs_offset vol offset) len buf
          (vol.answers len (abs_offset vol offset)) 0 buf (omega arith)
          (subst (λ n. Deliver n (vol.answers len (abs_offset vol offset))) (omega arith) d) in
      (buf', vol_pread_loop inside ∙ e)
