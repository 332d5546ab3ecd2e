-- ===== src/Extents/Chain/Map.antt =====
-- The chain loop collects the map that the chain of records stands for.
use advfs_fuse.Base.{
  ℕ, zero, suc, ◌≤◌, ◌≡◌, refl, sym, ap, ◌∙◌, ◌≢◌, Bool, true, false, ◌||◌, List, [], ◌∷◌, ◌++◌,
  Option, none, some, arith, ◌==◌, if◌then◌else◌, length, length-append, ok, err, eilseq, eq→==,
  ne→==, if_true, if_false, >>=-eq-ok, Errno,
}
use native.Mathlib.Decide.{ℕ_discrete}
use mathlib.Core.List.{append_assoc, append-nil}
use advfs_fuse.Ods.{Mcell, BmtPage, mcid_page, mcid_cell}
use advfs_fuse.Bmt.{get_mcell}
use advfs_fuse.Extents.{Extent, max_extents}
use advfs_fuse.Extents.Chain.{
  XtntSrc, src_read_bmt_page, next_vd, Walk, Hop, stop, follow, hop_mcell, cell_or, walk_chain,
}
use advfs_fuse.Extents.Chain.Links.{
  Link, IsAt, Chain, ended, cut, recordless, link, any_shadow, entries_of, from_shadow, map_of,
  starts_from,
}
use advfs_fuse.Extents.Chain.Walked.{Takes}
use advfs_fuse.Extents.Chain.Hops.{hop_mcell-Takes, hop_mcell-stop}

-- The loop variables behind the links `ls`.
abbrev pub raw_behind : Walk → List Link → List Extent
raw_behind w ls = if w.found_shadow then w.raw ++ entries_of ls else map_of w.raw ls

abbrev pub cols_behind : Walk → List Link → List ℕ
cols_behind w ls =
    w.col_start
    ++ (if w.found_shadow then starts_from (length w.raw) ls else starts_from 0 (from_shadow ls))

pub record Walked (is_stripe : Bool) (w : Walk) (ls : List Link) (w' : Walk) : Type 0 where
  pub raw_is : w'.raw ≡ raw_behind w ls
  pub cols_are : is_stripe ≡ true → w'.col_start ≡ cols_behind w ls

Walked-nil : (is_stripe : Bool) (w : Walk) → Walked is_stripe w [] w
Walked-nil is_stripe w = record {
  raw_is = no_raw w.found_shadow w.raw;
  cols_are = λ _. no_cols w.found_shadow w.raw w.col_start;
}
  where
    no_raw : (b : Bool) (raw : List Extent) → raw ≡ (if b then raw ++ [] else raw ++ [])
    no_raw true raw = sym (append-nil raw)
    no_raw false raw = sym (append-nil raw)

    no_cols :
        (b : Bool) (raw : List Extent) (cols : List ℕ)
        → cols ≡ cols ++ (if b then starts_from (length raw) [] else starts_from 0 (from_shadow []))
    no_cols true raw cols = sym (append-nil cols)
    no_cols false raw cols = sym (append-nil cols)

abbrev kept : Bool → Bool → List Extent → List Extent
kept found sh raw = if sh then (if found then raw else []) else raw

abbrev one : Bool → List Extent → Link
one sh es = record { shadow = sh; entries = es }

raw_cons :
    (found : Bool) (raw : List Extent) (sh : Bool) (es : List Extent) (ls : List Link)
    → (if found || sh
        then (kept found sh raw ++ es) ++ entries_of ls
        else map_of (kept found sh raw ++ es) ls)
      ≡ (if found then raw ++ entries_of (one sh es ∷ ls) else map_of raw (one sh es ∷ ls))
raw_cons true raw true es ls = append_assoc raw es (entries_of ls)
raw_cons true raw false es ls = append_assoc raw es (entries_of ls)
raw_cons false raw true es ls = refl
raw_cons false raw false es ls = λ i.
    if any_shadow ls then entries_of (from_shadow ls) else append_assoc raw es (entries_of ls) i

cols_cons :
    (found : Bool) (cols : List ℕ) (raw : List Extent) (sh : Bool) (es : List Extent)
    (ls : List Link)
    → (if sh then cols ++ length (kept found sh raw) ∷ [] else cols)
        ++ (if found || sh
            then starts_from (length (kept found sh raw ++ es)) ls
            else starts_from 0 (from_shadow ls))
      ≡ cols
        ++ (if found
            then starts_from (length raw) (one sh es ∷ ls)
            else starts_from 0 (from_shadow (one sh es ∷ ls)))
cols_cons true cols raw true es ls =
    rw (length-append raw es) (append_assoc cols (length raw ∷ []) _)
cols_cons true cols raw false es ls = rw (length-append raw es) refl
cols_cons false cols raw true es ls =
    append_assoc cols (0 ∷ []) _ ∙ ap (λ n. cols ++ 0 ∷ starts_from n ls) (omega arith)
cols_cons false cols raw false es ls = refl

Walked-cons :
    (is_stripe : Bool) (w w1 w' : Walk) (l : Link) (ls : List Link)
    → Takes is_stripe w l w1
    → Walked is_stripe w1 ls w'
    → Walked is_stripe w (l ∷ ls) w'
Walked-cons is_stripe w w1 w' l ls t h = record {
  raw_is =
      h.raw_is ∙ rw (t.raw_is, t.found_is) (raw_cons w.found_shadow w.raw l.shadow l.entries ls);
  cols_are = λ s.
      h.cols_are s
      ∙ rw (t.raw_is, t.found_is, t.cols_are s)
          (cols_cons w.found_shadow w.col_start w.raw l.shadow l.entries ls);
}

pub cell_or-eq-ok :
    (e : Errno) (pg : BmtPage) (cell : ℕ) (mc : Mcell)
    → cell_or e pg cell ≡ ok mc
    → get_mcell pg cell ≡ some mc
unfolding cell_or
cell_or-eq-ok e pg cell mc h = cell_of (get_mcell pg cell) h
  where
    cell_of :
        (found : Option Mcell)
        → (elim found [ none ↦ err e | some m ↦ ok m ]) ≡ ok mc
        → found ≡ some mc
    cell_of none r = cc
    cell_of (some m) r = cc

hop-Walked :
    (hops : ℕ) (src : XtntSrc) (is_stripe : Bool) (vd mcid : ℕ) (mc : Mcell) (w w' : Walk)
    (hop : Hop)
    → ((v : Walk)
        → length v.raw ≤ max_extents
        → walk_chain hops src is_stripe (next_vd src mc.next_vd_index vd) mc.next_mcid v ≡ ok w'
        → (ls : List Link) × Chain src hops (next_vd src mc.next_vd_index vd) mc.next_mcid ls
          × Walked is_stripe v ls w')
    → length w.raw ≤ max_extents
    → mcid ≢ 0
    → IsAt src vd mcid mc
    → hop_mcell is_stripe w mc vd ≡ ok hop
    → (elim hop [
      | stop v ↦ ok v
      | follow v ↦ walk_chain hops src is_stripe (next_vd src mc.next_vd_index vd) mc.next_mcid v
    ])
      ≡ ok w'
    → (ls : List Link) × Chain src (suc hops) vd mcid ls × Walked is_stripe w ls w'
hop-Walked hops src is_stripe vd mcid mc w w' (stop v) later le at is_at hopped h =
    let (no_xtra, no_shadow, same) = hop_mcell-stop is_stripe w v mc vd hopped in
    let e : w ≡ w' = cc in
    ([], recordless at is_at no_xtra no_shadow, rw (sym e) (Walked-nil is_stripe w))
hop-Walked hops src is_stripe vd mcid mc w w' (follow v) later le at is_at hopped h =
    let (l, holds, takes) = hop_mcell-Takes is_stripe w v mc vd le hopped in
    let (ls, chain, walked) = later v takes.room h in
    (l ∷ ls, link at is_at holds chain, Walked-cons is_stripe w v w' l ls takes walked)

pub walk_chain-Walked :
    (hops : ℕ) (src : XtntSrc) (is_stripe : Bool) (vd mcid : ℕ) (w w' : Walk)
    → length w.raw ≤ max_extents
    → walk_chain hops src is_stripe vd mcid w ≡ ok w'
    → (ls : List Link) × Chain src hops vd mcid ls × Walked is_stripe w ls w'
unfolding walk_chain
walk_chain-Walked zero src is_stripe vd mcid w w' le h =
    let e : w ≡ w' = cc in ([], cut, rw (sym e) (Walked-nil is_stripe w))
walk_chain-Walked (suc hops) src is_stripe vd mcid w w' le h = elim (ℕ_discrete mcid 0) [
  | yes nil ↦
      let same : ok w ≡ ok w' = sym (if_true (mcid == 0) _ _ (eq→== mcid 0 nil)) ∙ h in
      let e : w ≡ w' = cc in ([], ended nil, rw (sym e) (Walked-nil is_stripe w))
  | no at ↦
      let (pg, h1, read) =
        >>=-eq-ok _ (src_read_bmt_page src vd (mcid_page mcid))
          (sym (if_false (mcid == 0) (ok w) _ (ne→== mcid 0 at)) ∙ h) in
      let (mc, h2, cell) = >>=-eq-ok _ (cell_or eilseq pg (mcid_cell mcid)) h1 in
      let (hop, h3, hopped) = >>=-eq-ok _ (hop_mcell is_stripe w mc vd) h2 in
      let is_at : IsAt src vd mcid mc = record {
        page = pg;
        read = read;
        cell = cell_or-eq-ok eilseq pg (mcid_cell mcid) mc cell;
      } in
      hop-Walked hops src is_stripe vd mcid mc w w' hop
        (λ v.
          walk_chain-Walked hops src is_stripe (next_vd src mc.next_vd_index vd) mc.next_mcid v w')
        le at is_at hopped h3
]
