-- ===== src/Tool/Count.antt =====
-- count_recursive of src/advfs_tool.c goes into no directory twice.
use advfs_fuse.Base.{
  ℕ, zero, suc, ◌+◌, ◌≤◌, ◌≡◌, refl, sym, ap, ◌∙◌, ◌≢◌, inl, inr, true, false, List, [], ◌∷◌, ◌++◌,
  append_assoc, append_nil, All, All-concat, length, length-append, ltb, ◌==◌, if_true, if_false,
  if_both, Bool-cases, eq→==, Result, stuck, ok, err, >>=-eq-ok, arith,
}
use advfs_fuse.Ods.{BfTag, FsStat, st_mode}
use advfs_fuse.Tool.{FsCtx, Dirent, mode_type, stat_tag_checked, read_dir_entries}
use advfs_fuse.Tool.Recursive.{
  visited_contains, CountState, add_error, add_dir, count_other, visited_add, is_dots,
  tool_max_path, sub_path, count_known, count_entry, count_entries, count_list, count_recursive,
}

abbrev pub NoRepeats : List ℕ → Type 0
NoRepeats [] = Unit
NoRepeats (t ∷ rest) = All (λ u. t ≢ u) rest × NoRepeats rest

-- From one state to a later one: the visited set has grown at its end and has got no tag twice. It
-- has grown by one tag for every directory that was counted in between, and `k` more, but for those
-- that an error was counted for.
pub record Counted (k : ℕ) (st st' : CountState) : Type 0 where
  pub ext : List ℕ
  pub grown : st'.visited ≡ st.visited ++ ext
  pub once : NoRepeats st.visited → NoRepeats st'.visited
  pub bound : length st'.visited + st.cnt.dirs ≤ length st.visited + st'.cnt.dirs + k
  pub all :
      length st.visited + st'.cnt.dirs + k + st.cnt.errors
      ≤ length st'.visited + st.cnt.dirs + st'.cnt.errors

same_visited :
    (st st' : CountState)
    → st'.visited ≡ st.visited
    → st.cnt.dirs ≤ st'.cnt.dirs
    → st'.cnt.dirs + st.cnt.errors ≤ st.cnt.dirs + st'.cnt.errors
    → Counted 0 st st'
same_visited st st' e d x = record {
  ext = [];
  grown = e ∙ sym (append_nil st.visited);
  once = λ h. rw e h;
  bound = (let l : length st'.visited ≡ length st.visited = ap length e in omega (arith, l, d));
  all = (let l : length st'.visited ≡ length st.visited = ap length e in omega (arith, l, x));
}

Counted-compose :
    (j k : ℕ) (st st' st'' : CountState)
    → Counted j st st'
    → Counted k st' st''
    → Counted (j + k) st st''
Counted-compose j k st st' st'' a b = record {
  ext = a.ext ++ b.ext;
  grown = b.grown ∙ ap (λ v. v ++ b.ext) a.grown ∙ append_assoc st.visited a.ext b.ext;
  once = λ h. b.once (a.once h);
  bound = omega (arith, a.bound, b.bound);
  all = omega (arith, a.all, b.all);
}

count_other-Counted : (fst : FsStat) (st : CountState) → Counted 0 st (count_other fst st)
unfolding count_other
count_other-Counted fst st =
    if_both (Counted 0 st) (mode_type (st_mode fst) == 8) _ _
      (same_visited st _ refl (omega arith) (omega arith))
      (if_both (Counted 0 st) (mode_type (st_mode fst) == 10) _ _
        (same_visited st _ refl (omega arith) (omega arith))
        (same_visited st _ refl (omega arith) (omega arith)))

add_error-Counted : (st : CountState) → Counted 0 st (add_error st)
unfolding add_error
add_error-Counted st = same_visited st (add_error st) refl (omega arith) (omega arith)

-- A subdirectory is counted before it is gone into.
add_dir-Counted : (st st' : CountState) → Counted 1 (add_dir st) st' → Counted 0 st st'
unfolding add_dir
add_dir-Counted st st' c = record {
  ext = c.ext;
  grown = c.grown;
  once = c.once;
  bound = omega (arith, c.bound);
  all = omega (arith, c.all);
}

add_dir-only : (st : CountState) → Counted 0 st (add_error (add_dir st))
unfolding add_dir add_error
add_dir-only st = same_visited st (add_error (add_dir st)) refl (omega arith) (omega arith)

pub ok_is : {st st' : CountState} → ok st ≡ ok st' → st ≡ st'
ok_is e = cc

ok-Counted :
    (k : ℕ) (st next st' : CountState) → Counted k st next → ok next ≡ ok st' → Counted k st st'
ok-Counted k st next st' c e = let p = ok_is e in rw (← p) c

module _ (go : BfTag → List ℕ → CountState → Result CountState)
    (goes : (tag : BfTag) (sub : List ℕ) (st st' : CountState)
      → go tag sub st ≡ ok st'
      → Counted 1 st st')
    (fs : FsCtx) (path : List ℕ) where
  known-Counted :
      (e : Dirent) (st st' : CountState) (r : Result FsStat)
      → count_known go path e st r ≡ ok st'
      → Counted 0 st st'
  unfolding count_known
  known-Counted e st st' stuck h = cc
  known-Counted e st st' (err code) h = ok-Counted 0 st (add_error st) st' (add_error-Counted st) h
  known-Counted e st st' (ok fst) h = elim (Bool-cases (mode_type (st_mode fst) == 4)) [
    | inr other ↦
        ok-Counted 0 st (count_other fst st) st' (count_other-Counted fst st)
          (sym (if_false (mode_type (st_mode fst) == 4) _ _ other) ∙ h)
    | inl is_dir ↦
        let h' = sym (if_true (mode_type (st_mode fst) == 4) _ _ is_dir) ∙ h in
        let fits = ltb (length (sub_path path e.name)) tool_max_path in
        elim (Bool-cases fits) [
          | inl room ↦ add_dir-Counted st st' (
              goes e.tag (sub_path path e.name) (add_dir st) st' (sym (if_true fits _ _ room) ∙ h'))
          | inr long ↦
              ok-Counted 0 st (add_error (add_dir st)) st' (add_dir-only st)
                (sym (if_false fits _ _ long) ∙ h')
        ]
  ]

  entry-Counted :
      (e : Dirent) (st st' : CountState) → count_entry go fs path e st ≡ ok st' → Counted 0 st st'
  unfolding count_entry
  entry-Counted e st st' h = elim (Bool-cases (is_dots e.name)) [
    | inl dots ↦
        ok-Counted 0 st st st' (same_visited st st refl (omega arith) (omega arith))
          (sym (if_true (is_dots e.name) _ _ dots) ∙ h)
    | inr name ↦
        known-Counted e st st' (stat_tag_checked fs e.tag false)
          (sym (if_false (is_dots e.name) _ _ name) ∙ h)
  ]

  entries-Counted :
      (list : List Dirent) (st st' : CountState)
      → count_entries go fs path list st ≡ ok st'
      → Counted 0 st st'
  unfolding count_entries
  entries-Counted [] st st' h =
      ok-Counted 0 st st st' (same_visited st st refl (omega arith) (omega arith)) h
  entries-Counted (e ∷ rest) st st' h =
      let (next, h', one) =
        >>=-eq-ok (λ s. count_entries go fs path rest s) (count_entry go fs path e st) h in
      Counted-compose 0 0 st next st' (entry-Counted e st next one)
        (entries-Counted rest next st' h')

  list-Counted :
      (r : Result (List Dirent)) (st st' : CountState)
      → count_list go fs path st r ≡ ok st'
      → Counted 0 st st'
  unfolding count_list
  list-Counted stuck st st' h = cc
  list-Counted (err code) st st' h = ok-Counted 0 st (add_error st) st' (add_error-Counted st) h
  list-Counted (ok list) st st' h = entries-Counted list st st' h

pub not_visited :
    (visited : List ℕ) (t : ℕ) → visited_contains visited t ≡ false → All (λ u. u ≢ t) visited
unfolding visited_contains
not_visited [] t e = tt
not_visited (u ∷ rest) t e = elim (Bool-cases (u == t)) [
  | inl same ↦
      let q : true ≡ false = sym (if_true (u == t) true (visited_contains rest t) same) ∙ e in cc
  | inr other ↦ (
    (λ p. let q : true ≡ false = sym (eq→== u t p) ∙ other in cc),
    not_visited rest t (sym (if_false (u == t) true (visited_contains rest t) other) ∙ e),
  )
]

NoRepeats-concat :
    (visited : List ℕ) (t : ℕ)
    → NoRepeats visited
    → All (λ u. u ≢ t) visited
    → NoRepeats (visited ++ t ∷ [])
NoRepeats-concat [] t h a = (tt, tt)
NoRepeats-concat (u ∷ rest) t h a =
    (All-concat (λ v. u ≢ v) rest t h.0 a.0, NoRepeats-concat rest t h.1 a.1)

visited_add-Counted :
    (st : CountState) (t : ℕ)
    → visited_contains st.visited t ≡ false
    → Counted 1 st (visited_add st t)
unfolding visited_add
visited_add-Counted st t e = record {
  ext = t ∷ [];
  grown = refl;
  once = λ h. NoRepeats-concat st.visited t h (not_visited st.visited t e);
  bound = omega (arith, length-append st.visited (t ∷ []));
  all = omega (arith, length-append st.visited (t ∷ []));
}

-- A call that is refused visits nothing and counts an error.
refused-Counted : (st : CountState) → Counted 1 st (add_error st)
unfolding add_error
refused-Counted st = record {
  ext = [];
  grown = sym (append_nil st.visited);
  once = λ h. h;
  bound = omega arith;
  all = omega arith;
}

-- count_recursive, at whatever depth and on whatever directory structure, also a looped one: the
-- visited set only grows, at its end, no directory tag is put into it twice, and a directory
-- other than the one that the call is about is put into it only after it was counted in `dirs`.
pub count_recursive-Counted :
    (left : ℕ) (fs : FsCtx) (dir_tag : BfTag) (path : List ℕ) (st st' : CountState)
    → count_recursive left fs dir_tag path st ≡ ok st'
    → Counted 1 st st'
unfolding count_recursive
count_recursive-Counted zero fs dir_tag path st st' h =
    ok-Counted 1 st (add_error st) st' (refused-Counted st) h
count_recursive-Counted (suc left) fs dir_tag path st st' h =
    elim (Bool-cases (visited_contains st.visited dir_tag.num)) [
      | inl seen ↦
          ok-Counted 1 st (add_error st) st' (refused-Counted st)
            (sym (if_true (visited_contains st.visited dir_tag.num) _ _ seen) ∙ h)
      | inr new ↦
          Counted-compose 1 0 st (visited_add st dir_tag.num) st'
            (visited_add-Counted st dir_tag.num new)
            (list-Counted (λ tag sub s. count_recursive left fs tag sub s)
              (λ tag sub s s' e. count_recursive-Counted left fs tag sub s s' e) fs path
              (read_dir_entries fs dir_tag false) (visited_add st dir_tag.num) st'
              (sym (if_false (visited_contains st.visited dir_tag.num) _ _ new) ∙ h))
    ]
