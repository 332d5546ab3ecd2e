-- ===== src/Volume/Loop.antt =====
-- The loop of vol_pread under short reads, interruptions and errors.
use advfs_fuse.Base.{
  ℕ, ◌+◌, ◌-◌, ◌≤◌, ◌<◌, ◌≡◌, refl, sym, ◌∙◌, ◌⊎◌, inl, inr, List, [], ◌∷◌, arith, ◌==◌,
  if◌then◌else◌, Result, ok, err, stuck, Errno, eio, lt→ltb, le→ltb, Bool-cases, pos-==-zero,
}
use mathlib.Core.Path.{subst, subst₂}
use native.Mathlib.Decide.{dec_lt}
use advfs_fuse.Ods.{Bytes}
use advfs_fuse.Volume.{Answer, got, interrupted, failed, store_bytes, pread_loop}

-- pread() never stores more than it was asked for: `left` bytes are still wanted.
abbrev pub AreShort : ℕ → List Answer → Type 0
AreShort left [] = Unit
AreShort left (got n ∷ rest) = (n ≤ left) × AreShort (left - n) rest
AreShort left (interrupted ∷ rest) = AreShort left rest
AreShort left (failed e ∷ rest) = AreShort left rest

-- The answers bring `left` bytes: short counts above 0 and interruptions, until all are there.
abbrev pub Deliver : ℕ → List Answer → Type 0
Deliver left [] = left ≡ 0
Deliver left (got n ∷ rest) = (left ≡ 0) ⊎ ((0 < n) × (n ≤ left) × Deliver (left - n) rest)
Deliver left (interrupted ∷ rest) = (left ≡ 0) ⊎ Deliver left rest
Deliver left (failed e ∷ rest) = left ≡ 0

-- `buf` holds bytes 0 .. n of the file from `abs`, and is `old` behind `len`.
pub record Holds (content : Bytes) (abs len n : ℕ) (old buf : Bytes) : Type 0 where
  pub front : (i : ℕ) → i < n → buf i ≡ content (abs + i)
  pub behind : (i : ℕ) → len ≤ i → buf i ≡ old i

pub err-ne-ok : {A : Type 0} {e : Errno} {a : A} → err e ≡ ok a → ⊥
err-ne-ok h = cc

ok-injective : {A : Type 0} {a b : A} → ok a ≡ ok b → a ≡ b
ok-injective h = cc

stuck-ne-ok : {A : Type 0} {a : A} → stuck ≡ ok a → ⊥
stuck-ne-ok h = cc

module _ (content : Bytes) (abs len : ℕ) (old : Bytes) where
  store-Holds :
      (total n : ℕ) (buf : Bytes)
      → total + n ≤ len
      → Holds content abs len total old buf
      → Holds content abs len (total + n) old (store_bytes buf total n content abs)
  unfolding store_bytes
  store-Holds total n buf fits h = record {
    front = λ i lt. ground (arith, h.front i);
    behind = λ i le. ground (arith, h.behind i);
  }

  abbrev pub loop : List Answer → ℕ → Bytes → Result Bytes
  loop answers total buf = pread_loop answers content len abs total buf

  loop_full :
      (answers : List Answer) (total : ℕ) (buf : Bytes)
      → len ≤ total
      → loop answers total buf ≡ ok buf
  unfolding pread_loop
  loop_full [] total buf h = rw (le→ltb total len h) refl
  loop_full (got n ∷ rest) total buf h = rw (le→ltb total len h) refl
  loop_full (interrupted ∷ rest) total buf h = rw (le→ltb total len h) refl
  loop_full (failed e ∷ rest) total buf h = rw (le→ltb total len h) refl

  module _ (rest : List Answer) (total : ℕ) (buf : Bytes) (more : total < len) where
    loop_nil : loop [] total buf ≡ stuck
    unfolding pread_loop
    loop_nil = rw (lt→ltb total len more) refl

    loop_got :
        (n : ℕ)
        → loop (got n ∷ rest) total buf ≡ (
            if n == 0 then err eio else loop rest (total + n) (store_bytes buf total n content abs))
    unfolding pread_loop
    loop_got n = rw (lt→ltb total len more) refl

    loop_interrupted : loop (interrupted ∷ rest) total buf ≡ loop rest total buf
    unfolding pread_loop
    loop_interrupted = rw (lt→ltb total len more) refl

    loop_failed : (e : Errno) → loop (failed e ∷ rest) total buf ≡ err e
    unfolding pread_loop
    loop_failed e = rw (lt→ltb total len more) refl

  after-got :
      (n : ℕ) (later : Result Bytes) (buf' : Bytes)
      → (if n == 0 then err eio else later) ≡ ok buf'
      → (0 < n) × (later ≡ ok buf')
  after-got n later buf' h = elim (Bool-cases (n == 0)) [
    | inl z ↦ absurd (err-ne-ok (rw z at h))
    | inr p ↦ (ground arith, rw p at h)
  ]

  done :
      (answers : List Answer) (total : ℕ) (buf buf' : Bytes)
      → total ≡ len
      → Holds content abs len total old buf
      → loop answers total buf ≡ ok buf'
      → Holds content abs len len old buf'
  done answers total buf buf' e h l =
      let same : buf ≡ buf' = ok-injective (sym (loop_full answers total buf (omega arith)) ∙ l) in
      subst₂ (λ n b. Holds content abs len n old b) e same h

  -- Whatever the answers, a loop that succeeds has stored the bytes of the file.
  pub loop-Holds :
      (answers : List Answer) (total : ℕ) (buf buf' : Bytes)
      → total ≤ len
      → AreShort (len - total) answers
      → Holds content abs len total old buf
      → loop answers total buf ≡ ok buf'
      → Holds content abs len len old buf'
  loop-Holds [] total buf buf' le s h e = elim (dec_lt total len) [
    | no full ↦ done [] total buf buf' (omega arith) h e
    | yes more ↦ absurd (stuck-ne-ok (sym (loop_nil [] total buf more) ∙ e))
  ]
  loop-Holds (got n ∷ rest) total buf buf' le s h e = elim (dec_lt total len) [
    | no full ↦ done (got n ∷ rest) total buf buf' (omega arith) h e
    | yes more ↦
        let (some_bytes, later) = after-got n _ buf' (sym (loop_got rest total buf more n) ∙ e) in
        loop-Holds rest (total + n) (store_bytes buf total n content abs) buf' (omega (arith, s.0))
          (subst (λ left. AreShort left rest) (omega arith) s.1)
          (store-Holds total n buf (omega (arith, s.0)) h) later
  ]
  loop-Holds (interrupted ∷ rest) total buf buf' le s h e = elim (dec_lt total len) [
    | no full ↦ done (interrupted ∷ rest) total buf buf' (omega arith) h e
    | yes more ↦
        loop-Holds rest total buf buf' le s h (sym (loop_interrupted rest total buf more) ∙ e)
  ]
  loop-Holds (failed x ∷ rest) total buf buf' le s h e = elim (dec_lt total len) [
    | no full ↦ done (failed x ∷ rest) total buf buf' (omega arith) h e
    | yes more ↦ absurd (err-ne-ok (sym (loop_failed rest total buf more x) ∙ e))
  ]

  -- Answers that bring all bytes make the loop succeed.
  pub loop_delivers :
      (answers : List Answer) (total : ℕ) (buf : Bytes)
      → total ≤ len
      → Deliver (len - total) answers
      → (buf' : Bytes) × (loop answers total buf ≡ ok buf')
  loop_delivers [] total buf le d = (buf, loop_full [] total buf (omega arith))
  loop_delivers (got n ∷ rest) total buf le d = elim (dec_lt total len) [
    | no full ↦ (buf, loop_full (got n ∷ rest) total buf (omega arith))
    | yes more ↦ elim d [
      | inl z ↦ absurd (omega arith)
      | inr (pos, fits, d') ↦
          let (buf', e) =
            loop_delivers rest (total + n) (store_bytes buf total n content abs) (omega arith)
              (subst (λ left. Deliver left rest) (omega arith) d') in
          (buf', loop_got rest total buf more n ∙ rw (pos-==-zero n pos) e)
    ]
  ]
  loop_delivers (interrupted ∷ rest) total buf le d = elim (dec_lt total len) [
    | no full ↦ (buf, loop_full (interrupted ∷ rest) total buf (omega arith))
    | yes more ↦ elim d [
      | inl z ↦ absurd (omega arith)
      | inr d' ↦
          let (buf', e) = loop_delivers rest total buf le d' in
          (buf', loop_interrupted rest total buf more ∙ e)
    ]
  ]
  loop_delivers (failed x ∷ rest) total buf le d =
      (buf, loop_full (failed x ∷ rest) total buf (omega arith))
