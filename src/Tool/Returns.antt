-- ===== src/Tool/Returns.antt =====
-- count_recursive of src/advfs_tool.c returns, on whatever structure the directories have.
use advfs_fuse.Base.{
  Errno, ℕ, ◌+◌, ◌≤◌, zero, suc, false, ◌≡◌, refl, ◌∙◌, ◌≢◌, ◌⊎◌, inl, inr, Bool-cases, List, [],
  ◌∷◌, All, ◌==◌, ltb, length, if_true, if_false, Result, stuck, ok, err, ◌>>=◌, ap,
}
use advfs_fuse.Ods.{BfTag, FsStat, st_mode}
use advfs_fuse.Tool.{FsCtx, Dirent, mode_type, stat_tag_checked, read_dir_entries}
use advfs_fuse.Tool.Recursive.{
  visited_contains, CountState, add_error, add_dir, count_other, visited_add, is_dots,
  tool_max_path, sub_path, count_known, count_entry, count_entries, count_list, count_recursive,
}
use advfs_fuse.Tool.Count.{Counted, count_recursive-Counted}
use advfs_fuse.Tool.Tally.{tally, count_recursive-tally}
use advfs_fuse.Tool.Entered.{MustCount, counts_of-MustCount}

-- A directory with tag `t` is read or refused, and what it lists is read or refused and in `T`.
abbrev pub Served : FsCtx → (BfTag → Type 0) → BfTag → Type 0
Served fs T t =
    ((list : List Dirent) × (read_dir_entries fs t false ≡ ok list)
      × All (λ e. (stat_tag_checked fs e.tag false ≢ stuck) × T e.tag) list)
    ⊎ ((code : Errno) × (read_dir_entries fs t false ≡ err code))

Served-ne-stuck :
    (fs : FsCtx) (T : BfTag → Type 0) (t : BfTag)
    → Served fs T t
    → read_dir_entries fs t false ≢ stuck
Served-ne-stuck fs T t (inl (list, is_list, all)) s = cc
Served-ne-stuck fs T t (inr (code, refused)) s = cc

abbrev Returns : Result CountState → Type 0
Returns r = (st' : CountState) × (r ≡ ok st')

module _ (T : BfTag → Type 0) (go : BfTag → List ℕ → CountState → Result CountState)
    (goes : (tag : BfTag) (sub : List ℕ) (st : CountState) → T tag → Returns (go tag sub st))
    (fs : FsCtx) (path : List ℕ) where
  known-Returns :
      (e : Dirent) (st : CountState) (r : Result FsStat)
      → r ≢ stuck
      → T e.tag
      → Returns (count_known go path e st r)
  unfolding count_known
  known-Returns e st stuck ns t = absurd (ns refl)
  known-Returns e st (err code) ns t = (add_error st, refl)
  known-Returns e st (ok fst) ns t = elim (Bool-cases (mode_type (st_mode fst) == 4)) [
    | inr other ↦ (count_other fst st, if_false (mode_type (st_mode fst) == 4) _ _ other)
    | inl is_dir ↦
        let fits = ltb (length (sub_path path e.name)) tool_max_path in
        let directory = if_true (mode_type (st_mode fst) == 4) _ _ is_dir in
        elim (Bool-cases fits) [
          | inl room ↦
              let (st', r) = goes e.tag (sub_path path e.name) (add_dir st) t in
              (st', directory ∙ if_true fits _ _ room ∙ r)
          | inr long ↦ (add_error (add_dir st), directory ∙ if_false fits _ _ long)
        ]
  ]

  entry-Returns :
      (e : Dirent) (st : CountState)
      → stat_tag_checked fs e.tag false ≢ stuck
      → T e.tag
      → Returns (count_entry go fs path e st)
  unfolding count_entry
  entry-Returns e st ns t = elim (Bool-cases (is_dots e.name)) [
    | inl dots ↦ (st, if_true (is_dots e.name) _ _ dots)
    | inr name ↦
        let (st', r) = known-Returns e st (stat_tag_checked fs e.tag false) ns t in
        (st', if_false (is_dots e.name) _ _ name ∙ r)
  ]

  entries-Returns :
      (list : List Dirent) (st : CountState)
      → All (λ e. (stat_tag_checked fs e.tag false ≢ stuck) × T e.tag) list
      → Returns (count_entries go fs path list st)
  unfolding count_entries
  entries-Returns [] st all = (st, refl)
  entries-Returns (e ∷ rest) st ((ns, t), all) =
      let (next, one) = entry-Returns e st ns t in
      let (st', others) = entries-Returns rest next all in
      (st', ap (λ r. r >>= λ s. count_entries go fs path rest s) one ∙ others)

  list-Returns :
      (dir_tag : BfTag) (st : CountState)
      → Served fs T dir_tag
      → Returns (count_list go fs path st (read_dir_entries fs dir_tag false))
  unfolding count_list
  list-Returns dir_tag st (inl (list, is_list, all)) =
      let (st', r) = entries-Returns list st all in (st', ap (count_list go fs path st) is_list ∙ r)
  list-Returns dir_tag st (inr (code, refused)) =
      (add_error st, ap (count_list go fs path st) refused)

recursive-Returns :
    (T : BfTag → Type 0) (fs : FsCtx)
    → ((t : BfTag) → T t → Served fs T t)
    → (left : ℕ) (dir_tag : BfTag) (path : List ℕ) (st : CountState) → T dir_tag
    → Returns (count_recursive left fs dir_tag path st)
unfolding count_recursive
recursive-Returns T fs served zero dir_tag path st t = (add_error st, refl)
recursive-Returns T fs served (suc left) dir_tag path st t =
    elim (Bool-cases (visited_contains st.visited dir_tag.num)) [
      | inl seen ↦ (add_error st, if_true (visited_contains st.visited dir_tag.num) _ _ seen)
      | inr new ↦
          let (st', r) =
            list-Returns T (λ tag sub s. count_recursive left fs tag sub s)
              (λ tag sub s. recursive-Returns T fs served left tag sub s) fs path dir_tag
              (visited_add st dir_tag.num) (served dir_tag t) in
          (st', if_false (visited_contains st.visited dir_tag.num) _ _ new ∙ r)
    ]

-- Where the directories in a set `T` are read or refused, and so is each entry that they list,
-- which is in `T` again, count_recursive succeeds on a directory of `T`, at whatever depth and also
-- where the directories form loops. It puts no directory tag into the visited set twice and only
-- adds to its end: one tag for the directory it is called on and one for every directory that it
-- counts, but for those that it counts an error for. And it counts an error in a directory that is
-- too deep, was visited before or cannot be read, and otherwise something for every entry of it but
-- "." and "..".
pub count_recursive_total :
    (T : BfTag → Type 0) (fs : FsCtx)
    → ((t : BfTag) → T t → Served fs T t)
    → (left : ℕ) (dir_tag : BfTag) (path : List ℕ) (st : CountState) → T dir_tag
    → (st' : CountState) × (count_recursive left fs dir_tag path st ≡ ok st')
      × Counted 1 st st'
      × ((n : ℕ) × MustCount fs dir_tag st left n × (tally st + n ≤ tally st'))
count_recursive_total T fs served left dir_tag path st t =
    let (st', r) = recursive-Returns T fs served left dir_tag path st t in
    (
      st',
      r,
      count_recursive-Counted left fs dir_tag path st st' r,
      (
        _,
        counts_of-MustCount fs dir_tag st left _ _ refl refl
            (Served-ne-stuck fs T dir_tag (served dir_tag t)),
        count_recursive-tally left fs dir_tag path st st' r,
      ),
    )
