-- ===== src/Filedata/Copy/Content.antt =====
-- copy_bitfile_bytes against the bytes of the bitfile's pages.
use advfs_fuse.Base.{
  ℕ, zero, suc, ◌+◌, ◌-◌, ◌*◌, ◌/◌, ◌%◌, ◌≤◌, ◌<◌, ◌≡◌, refl, sym, ap, ◌∙◌, ◌⊎◌, inl, inr, List,
  Option, arith, ltb, ◌==◌, if◌then◌else◌, if_true, if_false, eq→==, ne→==, lt→ltb, le→ltb, lt→leb,
  le→leb, stuck, ok, >>=-eq-ok,
}
use native.Mathlib.Decide.{ℕ_discrete, dec_le}
use native.Mathlib.Nat.{mod-eq_of_lt}
use advfs_fuse.Ods.{Bytes, pgsz, u32_mod, u64_mod}
use advfs_fuse.Domain.{Domain}
use advfs_fuse.Extents.{Extent}
use advfs_fuse.Filedata.Copy.{
  Fallback, Page, bitfile_page, copy_chunk, copy_loop, copy_bitfile_bytes,
}

-- Byte `off` of a bitfile whose page `pg` has the bytes `view pg`.
abbrev pub byte_of : (ℕ → Bytes) → ℕ → ℕ
byte_of view off = view (off / pgsz) (off % pgsz)

-- The pages that reads give, while the fallback context satisfies `I`.
abbrev pub Shows : Domain → List Extent → (Option Fallback → Type 0) → (ℕ → Bytes) → Type 0
Shows domain extents I view =
    (fb : Option Fallback) (pg : ℕ) (buf : Bytes) (p : Page)
    → I fb
    → bitfile_page domain extents fb pg buf ≡ ok p
    → I p.fb × ((i : ℕ) → i < pgsz → p.bytes i ≡ view pg i)

-- What the buffer holds behind the copy: `len` bytes of the bitfile at `pos`, and the rest as it was.
abbrev pub IsFilled : (ℕ → Bytes) → ℕ → Bytes → ℕ → ℕ → Bytes → Type 0
IsFilled view byte_off dst pos len dst' =
    ((j : ℕ) → j < len → dst' (pos + j) ≡ byte_of view (byte_off + j))
    × ((i : ℕ) → (i < pos) ⊎ (pos + len ≤ i) → dst' i ≡ dst i)

abbrev pub chunk_of : ℕ → ℕ → ℕ
chunk_of len room = if ltb len room then len else room

pub chunk_bounds :
    (len room : ℕ)
    → 0 < len
    → 0 < room
    → (0 < chunk_of len room) × (chunk_of len room ≤ len) × (chunk_of len room ≤ room)
chunk_bounds len room l r = elim (dec_le room len) [
  | yes le ↦ rw (le→ltb len room le) (r, le, omega arith)
  | no gt ↦ rw (lt→ltb len room (omega arith)) (l, omega arith, omega arith)
]

copy_chunk_in :
    (dst : Bytes) (pos chunk : ℕ) (b : Bytes) (in_pg i : ℕ)
    → pos ≤ i
    → i < pos + chunk
    → copy_chunk dst pos chunk b in_pg i ≡ b (in_pg + (i - pos))
unfolding copy_chunk
copy_chunk_in dst pos chunk b in_pg i lo hi = rw (le→leb pos i lo, lt→ltb i (pos + chunk) hi) refl

pub copy_chunk_out :
    (dst : Bytes) (pos chunk : ℕ) (b : Bytes) (in_pg i : ℕ)
    → (i < pos) ⊎ (pos + chunk ≤ i)
    → copy_chunk dst pos chunk b in_pg i ≡ dst i
unfolding copy_chunk
copy_chunk_out dst pos chunk b in_pg i (inl lt) = rw (lt→leb pos i lt) refl
copy_chunk_out dst pos chunk b in_pg i (inr ge) =
    rw (le→leb pos i (omega arith), le→ltb i (pos + chunk) ge) refl

-- One round, and what the others make of the rest.
IsFilled-round :
    (view : ℕ → Bytes) (byte_off : ℕ) (dst : Bytes) (pos len chunk : ℕ) (b dst' : Bytes)
    (pg next : ℕ)
    → pg ≡ byte_off / pgsz
    → next ≡ byte_off + chunk
    → chunk ≤ len
    → byte_off % pgsz + chunk ≤ pgsz
    → ((i : ℕ) → i < pgsz → b i ≡ view pg i)
    → IsFilled view next
        (copy_chunk dst pos chunk b (byte_off % pgsz))
        (pos + chunk)
        (len - chunk)
        dst'
    → IsFilled view byte_off dst pos len dst'
IsFilled-round view byte_off dst pos len chunk b dst' pg next pg_is next_is le fits shows
      (front, behind) =
    (in_copy, out_copy)
  where
    in_copy : (j : ℕ) → j < len → dst' (pos + j) ≡ byte_of view (byte_off + j)
    in_copy j lt = elim (dec_le chunk j) [
      | yes le ↦
          let there : pos + j ≡ pos + chunk + (j - chunk) = omega arith in
          let same : next + (j - chunk) ≡ byte_off + j = omega arith in
          ap dst' there ∙ front (j - chunk) (omega arith) ∙ ap (byte_of view) same
      | no gt ↦
          let page : pg ≡ (byte_off + j) / pgsz = pg_is ∙ omega arith in
          let in_page : byte_off % pgsz + (pos + j - pos) ≡ (byte_off + j) % pgsz = omega arith in
          behind (pos + j) (inl (omega arith))
          ∙ copy_chunk_in dst pos chunk b (byte_off % pgsz) (pos + j) (omega arith) (omega arith)
          ∙ shows (byte_off % pgsz + (pos + j - pos)) (omega arith)
          ∙ λ i. view (page i) (in_page i)
    ]

    out_copy : (i : ℕ) → (i < pos) ⊎ (pos + len ≤ i) → dst' i ≡ dst i
    out_copy i (inl lt) =
        behind i (inl (omega arith)) ∙ copy_chunk_out dst pos chunk b (byte_off % pgsz) i (inl lt)
    out_copy i (inr ge) =
        behind i (inr (omega arith))
        ∙ copy_chunk_out dst pos chunk b (byte_off % pgsz) i (inr (omega arith))

IsFilled-nothing :
    (view : ℕ → Bytes) (byte_off : ℕ) (dst : Bytes) (pos len : ℕ) (dst' : Bytes)
    → len ≡ 0
    → dst ≡ dst'
    → IsFilled view byte_off dst pos len dst'
IsFilled-nothing view byte_off dst pos len dst' nil e =
    (λ j lt. absurd (omega arith), λ i out. ap (λ d. d i) (sym e))

module _ (domain : Domain) (extents : List Extent) (I : Option Fallback → Type 0) (view : ℕ → Bytes)
    (shows : Shows domain extents I view) where
  copy_loop-IsFilled :
      (fuel byte_off : ℕ) (dst : Bytes) (pos len : ℕ) (fb : Option Fallback) (buf dst' : Bytes)
      → byte_off + len ≤ u32_mod * pgsz
      → I fb
      → copy_loop fuel domain extents byte_off dst pos len fb buf ≡ ok dst'
      → IsFilled view byte_off dst pos len dst'
  unfolding copy_loop
  copy_loop-IsFilled zero byte_off dst pos len fb buf dst' small inv h = elim (ℕ_discrete len 0) [
    | yes nil ↦
        let same : ok dst ≡ ok dst' = sym (if_true (len == 0) _ _ (eq→== len 0 nil)) ∙ h in
        IsFilled-nothing view byte_off dst pos len dst' nil cc
    | no some_left ↦
        let bad : stuck ≡ ok dst' = sym (if_false (len == 0) _ _ (ne→== len 0 some_left)) ∙ h in cc
  ]
  copy_loop-IsFilled (suc fuel) byte_off dst pos len fb buf dst' small inv h =
      elim (ℕ_discrete len 0) [
        | yes nil ↦
            let same : ok dst ≡ ok dst' = sym (if_true (len == 0) _ _ (eq→== len 0 nil)) ∙ h in
            IsFilled-nothing view byte_off dst pos len dst' nil cc
        | no some_left ↦
            let pg = byte_off / pgsz % u32_mod in
            let in_pg = byte_off % pgsz in
            let chunk = chunk_of len (pgsz - in_pg) in
            let next = (byte_off + chunk) % u64_mod in
            let (p, rest, page) =
              >>=-eq-ok _ (bitfile_page domain extents fb pg buf)
                (sym (if_false (len == 0) (ok dst) _ (ne→== len 0 some_left)) ∙ h) in
            let (inv', shown) = shows fb pg buf p inv page in
            let (pos_chunk, le, fits) =
              chunk_bounds len (pgsz - in_pg) (omega arith) (omega arith) in
            let pg_is : pg ≡ byte_off / pgsz = mod-eq_of_lt (omega arith) in
            let next_is : next ≡ byte_off + chunk = mod-eq_of_lt (omega arith) in
            IsFilled-round view byte_off dst pos len chunk p.bytes dst' pg next pg_is next_is le
              (omega arith) shown
              (copy_loop-IsFilled fuel next (copy_chunk dst pos chunk p.bytes in_pg) (pos + chunk)
                (len - chunk) p.fb p.bytes dst' (omega arith) inv' rest)
      ]

  -- copy_bitfile_bytes, where the page reads show the pages of the bitfile and the range ends within
  -- 2 ^ 45 bytes: a copy that succeeds has put exactly the `len` bytes of the bitfile from
  -- `byte_off` on into the buffer at `pos`, and has left every other byte of it alone.
  pub copy_bitfile_bytes-IsFilled :
      (byte_off : ℕ) (dst : Bytes) (pos len : ℕ) (fb : Option Fallback) (buf dst' : Bytes)
      → byte_off + len ≤ u32_mod * pgsz
      → I fb
      → copy_bitfile_bytes domain extents byte_off dst pos len fb buf ≡ ok dst'
      → IsFilled view byte_off dst pos len dst'
  unfolding copy_bitfile_bytes
  copy_bitfile_bytes-IsFilled byte_off dst pos len fb buf dst' small inv h =
      copy_loop-IsFilled len byte_off dst pos len fb buf dst' small inv h
