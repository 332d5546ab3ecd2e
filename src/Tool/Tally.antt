-- ===== src/Tool/Tally.antt =====
-- count_recursive of src/advfs_tool.c counts every entry of a directory that it goes into.
use advfs_fuse.Base.{
  ℕ, zero, suc, ◌+◌, ◌≤◌, ◌≡◌, refl, sym, ◌∙◌, inl, inr, Bool, true, false, List, [], ◌∷◌, length,
  ltb, ◌==◌, if◌then◌else◌, if_true, if_false, if_both, Bool-cases, Result, stuck, ok, err,
  >>=-eq-ok, arith,
}
use advfs_fuse.Ods.{BfTag, FsStat, st_mode}
use advfs_fuse.Tool.{FsCtx, Dirent, mode_type, stat_tag_checked, read_dir_entries}
use advfs_fuse.Tool.Recursive.{
  visited_contains, CountState, add_error, add_dir, count_other, visited_add, is_dots,
  tool_max_path, sub_path, count_known, count_entry, count_entries, count_list, count_recursive,
}
use advfs_fuse.Tool.Count.{ok_is}

-- All that was counted, the errors included.
abbrev pub tally : CountState → ℕ
tally st = st.cnt.files + st.cnt.dirs + st.cnt.symlinks + st.cnt.other + st.cnt.errors

-- The entries of a list but "." and "..".
abbrev pub names_in : List Dirent → ℕ
names_in [] = 0
names_in (e ∷ rest) = let n = names_in rest in if is_dots e.name then n else n + 1

-- What a call counts at least: an error if it is too deep, in a directory that was visited before or one
-- that cannot be read, and otherwise every entry.
abbrev pub counts_of : ℕ → Bool → Result (List Dirent) → ℕ
counts_of zero seen list = 1
counts_of (suc left) true list = 1
counts_of (suc left) false stuck = 0
counts_of (suc left) false (err code) = 1
counts_of (suc left) false (ok list) = names_in list

add_error-tally : (st : CountState) → tally (add_error st) ≡ tally st + 1
unfolding add_error
add_error-tally st = omega arith

add_dir-tally : (st : CountState) → tally (add_dir st) ≡ tally st + 1
unfolding add_dir
add_dir-tally st = omega arith

count_other-tally : (fst : FsStat) (st : CountState) → tally st + 1 ≤ tally (count_other fst st)
unfolding count_other
count_other-tally fst st =
    if_both (λ (s : CountState). tally st + 1 ≤ tally s) (mode_type (st_mode fst) == 8) _ _
      (omega arith)
      (if_both (λ (s : CountState). tally st + 1 ≤ tally s) (mode_type (st_mode fst) == 10) _ _
        (omega arith) (omega arith))

no_less : (n : ℕ) (next st' : CountState) → n ≤ tally next → ok next ≡ ok st' → n ≤ tally st'
no_less n next st' h e = let p = ok_is e in rw (← p) h

module _ (go : BfTag → List ℕ → CountState → Result CountState)
    (goes : (tag : BfTag) (sub : List ℕ) (st st' : CountState)
      → go tag sub st ≡ ok st'
      → tally st ≤ tally st')
    (fs : FsCtx) (path : List ℕ) where
  known-tally :
      (e : Dirent) (st st' : CountState) (r : Result FsStat)
      → count_known go path e st r ≡ ok st'
      → tally st + 1 ≤ tally st'
  unfolding count_known
  known-tally e st st' stuck h = cc
  known-tally e st st' (err code) h =
      no_less (tally st + 1) (add_error st) st' (omega (arith, add_error-tally st)) h
  known-tally e st st' (ok fst) h = elim (Bool-cases (mode_type (st_mode fst) == 4)) [
    | inr other ↦
        no_less (tally st + 1) (count_other fst st) st' (count_other-tally fst st)
          (sym (if_false (mode_type (st_mode fst) == 4) _ _ other) ∙ h)
    | inl is_dir ↦
        let h' = sym (if_true (mode_type (st_mode fst) == 4) _ _ is_dir) ∙ h in
        let fits = ltb (length (sub_path path e.name)) tool_max_path in
        elim (Bool-cases fits) [
          | inl room ↦
              let m =
                goes e.tag (sub_path path e.name) (add_dir st) st'
                  (sym (if_true fits _ _ room) ∙ h') in
              omega (arith, m, add_dir-tally st)
          | inr long ↦
              no_less (tally st + 1) (add_error (add_dir st)) st'
                (omega (arith, add_error-tally (add_dir st), add_dir-tally st))
                (sym (if_false fits _ _ long) ∙ h')
        ]
  ]

  entries-tally :
      (list : List Dirent) (st st' : CountState)
      → count_entries go fs path list st ≡ ok st'
      → tally st + names_in list ≤ tally st'
  unfolding count_entries count_entry
  entries-tally [] st st' h = no_less (tally st + 0) st st' (omega arith) h
  entries-tally (e ∷ rest) st st' h =
      let (next, h', one) =
        >>=-eq-ok (λ s. count_entries go fs path rest s) (count_entry go fs path e st) h in
      let others = entries-tally rest next st' h' in
      elim (Bool-cases (is_dots e.name)) [
        | inl dots ↦
            let same =
              no_less (tally st) st next (omega arith)
                (sym (if_true (is_dots e.name) _ _ dots) ∙ one) in
            rw dots (omega (arith, same, others))
        | inr name ↦
            let more =
              known-tally e st next (stat_tag_checked fs e.tag false)
                (sym (if_false (is_dots e.name) _ _ name) ∙ one) in
            rw name (omega (arith, more, others))
      ]

  list-tally :
      (left : ℕ) (r : Result (List Dirent)) (st st' : CountState)
      → count_list go fs path st r ≡ ok st'
      → tally st + counts_of (suc left) false r ≤ tally st'
  unfolding count_list
  list-tally left stuck st st' h = cc
  list-tally left (err code) st st' h =
      no_less (tally st + 1) (add_error st) st' (omega (arith, add_error-tally st)) h
  list-tally left (ok list) st st' h = entries-tally list st st' h

visited_add-tally : (st : CountState) (t : ℕ) → tally (visited_add st t) ≡ tally st
unfolding visited_add
visited_add-tally st t = refl

-- A call counts at least what counts_of says.
pub count_recursive-tally :
    (left : ℕ) (fs : FsCtx) (dir_tag : BfTag) (path : List ℕ) (st st' : CountState)
    → count_recursive left fs dir_tag path st ≡ ok st'
    → tally st
        + counts_of left
            (visited_contains st.visited dir_tag.num)
            (read_dir_entries fs dir_tag false)
      ≤ tally st'
unfolding count_recursive
count_recursive-tally zero fs dir_tag path st st' h =
    no_less (tally st + 1) (add_error st) st' (omega (arith, add_error-tally st)) h
count_recursive-tally (suc left) fs dir_tag path st st' h =
    elim (Bool-cases (visited_contains st.visited dir_tag.num)) [
      | inl seen ↦ rw seen (
          no_less (tally st + 1) (add_error st) st' (omega (arith, add_error-tally st))
            (sym (if_true (visited_contains st.visited dir_tag.num) _ _ seen) ∙ h))
      | inr new ↦
          let m =
            list-tally (λ tag sub s. count_recursive left fs tag sub s)
              (λ tag sub s s' e.
                let k = count_recursive-tally left fs tag sub s s' e in omega (arith, k))
              fs path left (read_dir_entries fs dir_tag false) (visited_add st dir_tag.num) st'
              (sym (if_false (visited_contains st.visited dir_tag.num) _ _ new) ∙ h) in
          rw new (omega (arith, m, visited_add-tally st dir_tag.num))
    ]
