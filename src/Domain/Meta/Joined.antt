-- ===== src/Domain/Meta/Joined.antt =====
-- The loops of build_meta_extent_map of src/domain.c that collect descriptors, as appending and
-- cutting lists.
use advfs_fuse.Base.{
  ℕ, append_assoc, zero, suc, ◌+◌, ◌≤◌, ◌≡◌, refl, sym, ap, ◌∙◌, inl, inr, List, [], ◌∷◌, ◌++◌, ltb,
  if_true, if_false, ltb→lt, ltb→le, Bool-cases, length, take, length-append, length-take, arith,
  min,
}
use advfs_fuse.Ods.{Bytes, Xtnt, read_xtnt}
use advfs_fuse.Domain.Meta.{max_bmt_extents, keep_xtnts, clamp}

-- The first `n` descriptors from the `i`-th on.
abbrev pub descs : Bytes → ℕ → ℕ → List Xtnt
descs xtnts i zero = []
descs xtnts i (suc n) = read_xtnt xtnts i ∷ descs xtnts (i + 1) n

module _ {A : Type 0} where
  take_full : (n : ℕ) (xs ys : List A) → length xs ≡ n → take n (xs ++ ys) ≡ xs
  take_full zero [] ys e = refl
  take_full zero (x ∷ xs) ys e = absurd omega arith
  take_full (suc n) [] ys e = absurd omega arith
  take_full (suc n) (x ∷ xs) ys e = ap (λ l. x ∷ l) (take_full n xs ys (omega arith))

  take-append_nil : (n : ℕ) (xs : List A) → length xs ≤ n → take n (xs ++ []) ≡ xs
  take-append_nil zero [] h = refl
  take-append_nil zero (x ∷ xs) h = absurd omega arith
  take-append_nil (suc n) [] h = refl
  take-append_nil (suc n) (x ∷ xs) h = ap (λ l. x ∷ l) (take-append_nil n xs (omega arith))

  take-take_append : (n : ℕ) (xs ys : List A) → take n (take n xs ++ ys) ≡ take n (xs ++ ys)
  take-take_append zero xs ys = refl
  take-take_append (suc n) [] ys = refl
  take-take_append (suc n) (x ∷ xs) ys = ap (λ l. x ∷ l) (take-take_append n xs ys)

-- A map with more descriptors, as far as an array of `n` has room.
unfoldable pub joined_to : ℕ → List Xtnt → List Xtnt → List Xtnt
joined_to n map ds = take n (map ++ ds)

module _ (n : ℕ) (map : List Xtnt) where
  pub joined_to_bound : (ds : List Xtnt) → length (joined_to n map ds) ≤ n
  unfolding joined_to
  joined_to_bound ds = omega (arith, length-take n (map ++ ds))

  joined_to_nil : length map ≤ n → joined_to n map [] ≡ map
  unfolding joined_to
  joined_to_nil h = take-append_nil n map h

  joined_to_full : (ds : List Xtnt) → n ≤ length map → length map ≤ n → joined_to n map ds ≡ map
  unfolding joined_to
  joined_to_full ds h k = take_full n map ds (omega arith)

  pub joined_to-append :
      (ds es : List Xtnt) → joined_to n (joined_to n map ds) es ≡ joined_to n map (ds ++ es)
  unfolding joined_to
  joined_to-append ds es = take-take_append n (map ++ ds) es ∙ ap (take n) (append_assoc map ds es)

  joined_to_concat :
      (x : Xtnt) (ds : List Xtnt) → joined_to n (map ++ x ∷ []) ds ≡ joined_to n map (x ∷ ds)
  unfolding joined_to
  joined_to_concat x ds = ap (take n) (append_assoc map (x ∷ []) ds)

abbrev pub joined : List Xtnt → List Xtnt → List Xtnt
joined = joined_to max_bmt_extents

keep_xtnts_lem :
    (xtnts : Bytes) (i left : ℕ) (map : List Xtnt)
    → length map ≤ max_bmt_extents
    → keep_xtnts xtnts i left map ≡ joined map (descs xtnts i left)
unfolding keep_xtnts
keep_xtnts_lem xtnts i zero map h = sym (joined_to_nil max_bmt_extents map h)
keep_xtnts_lem xtnts i (suc left) map h =
    let ds = descs xtnts (i + 1) left in
    let x = read_xtnt xtnts i in
    elim (Bool-cases (ltb (length map) max_bmt_extents)) [
      | inl room ↦
          ap (keep_xtnts xtnts (i + 1) left)
            (if_true (ltb (length map) max_bmt_extents) (map ++ x ∷ []) map room)
          ∙ keep_xtnts_lem xtnts (i + 1) left (map ++ x ∷ []) (
              let l = ltb→lt (length map) max_bmt_extents room in
              omega (arith, length-append map (x ∷ [])))
          ∙ joined_to_concat max_bmt_extents map x ds
      | inr full ↦
          let l = ltb→le (length map) max_bmt_extents full in
          ap (keep_xtnts xtnts (i + 1) left)
            (if_false (ltb (length map) max_bmt_extents) (map ++ x ∷ []) map full)
          ∙ keep_xtnts_lem xtnts (i + 1) left map h
          ∙ joined_to_full max_bmt_extents map ds l h
          ∙ sym (joined_to_full max_bmt_extents map (x ∷ ds) l h)
    ]

abbrev pub joined_all : List Xtnt → List (List Xtnt) → List Xtnt
joined_all map [] = map
joined_all map (ds ∷ dss) = joined_all (joined map ds) dss

-- All of them in one list.
abbrev pub flat : List (List Xtnt) → List Xtnt
flat [] = []
flat (ds ∷ dss) = ds ++ flat dss

joined_all_lem :
    (map : List Xtnt) (dss : List (List Xtnt))
    → length map ≤ max_bmt_extents
    → joined_all map dss ≡ joined map (flat dss)
joined_all_lem map [] h = sym (joined_to_nil max_bmt_extents map h)
joined_all_lem map (ds ∷ dss) h =
    joined_all_lem (joined map ds) dss (joined_to_bound max_bmt_extents map ds)
    ∙ joined_to-append max_bmt_extents map ds (flat dss)

clamp_lem : (cnt most : ℕ) → clamp cnt most ≡ min most cnt
unfolding clamp
clamp_lem cnt most = ground arith

pub kept :
    (xtnts : Bytes) (cnt most : ℕ) (map : List Xtnt)
    → length map ≤ max_bmt_extents
    → keep_xtnts xtnts 0 (clamp cnt most) map ≡ joined map (descs xtnts 0 (min most cnt))
kept xtnts cnt most map h =
    ap (λ n. keep_xtnts xtnts 0 n map) (clamp_lem cnt most)
    ∙ keep_xtnts_lem xtnts 0 (min most cnt) map h

joined_to-nil : (n : ℕ) (ds : List Xtnt) → joined_to n [] ds ≡ take n ds
unfolding joined_to
joined_to-nil n ds = refl

pub all_entries :
    (ds : List Xtnt) (dss : List (List Xtnt))
    → joined_all (joined [] ds) dss ≡ take max_bmt_extents (ds ++ flat dss)
all_entries ds dss =
    joined_all_lem (joined [] ds) dss (joined_to_bound max_bmt_extents [] ds)
    ∙ joined_to-append max_bmt_extents [] ds (flat dss)
    ∙ joined_to-nil max_bmt_extents (ds ++ flat dss)
