-- ===== src/Tool/Entered.antt =====
-- What count_recursive of src/advfs_tool.c has to count, said without its tests.
use advfs_fuse.Base.{
  ℕ, zero, suc, ◌+◌, ◌≡◌, refl, sym, ap, ◌∙◌, ◌≢◌, ◌⊎◌, inl, inr, Bool, true, false, ◌||◌,
  Bool-cases, List, [], ◌∷◌, All, ◌==◌, ==→eq, if_false, or-eq-false, Result, stuck, ok, err, Errno,
}
use advfs_fuse.Ods.{BfTag}
use advfs_fuse.FuseOps.Path.{is_equal}
use advfs_fuse.FuseOps.Path.Lookup.{is_equal-eq, is_equal-ne}
use advfs_fuse.Tool.{FsCtx, Dirent, read_dir_entries}
use advfs_fuse.Tool.Recursive.{visited_contains, CountState, is_dots}
use advfs_fuse.Tool.Count.{not_visited}
use advfs_fuse.Tool.Tally.{names_in, counts_of}

abbrev pub IsIn : ℕ → List ℕ → Type 0
IsIn t [] = ⊥
IsIn t (u ∷ rest) = (u ≡ t) ⊎ IsIn t rest

-- "." and ".."
abbrev pub IsDots : List ℕ → Type 0
IsDots name = (name ≡ 46 ∷ []) ⊎ (name ≡ 46 ∷ 46 ∷ [])

-- How many entries a list has but "." and "..".
pub data Names : List Dirent → ℕ → Type 0 where
  none_left : Names [] 0
  dots :
      {e : Dirent} {rest : List Dirent} {n : ℕ} → IsDots e.name → Names rest n → Names (e ∷ rest) n
  name :
      {e : Dirent} {rest : List Dirent} {n : ℕ}
      → ¬ IsDots e.name
      → Names rest n
      → Names (e ∷ rest) (n + 1)

-- What a call has to count at least: an error if it is too deep, in a directory that was visited before
-- or one that cannot be read, and otherwise every entry.
pub data MustCount (fs : FsCtx) (dir_tag : BfTag) (st : CountState) : ℕ → ℕ → Type 0 where
  too_deep : MustCount fs dir_tag st zero 1
  again : {left : ℕ} → IsIn dir_tag.num st.visited → MustCount fs dir_tag st (suc left) 1
  unreadable :
      {left : ℕ} (code : Errno)
      → All (λ u. u ≢ dir_tag.num) st.visited
      → read_dir_entries fs dir_tag false ≡ err code
      → MustCount fs dir_tag st (suc left) 1
  entries :
      {left n : ℕ} (list : List Dirent)
      → All (λ u. u ≢ dir_tag.num) st.visited
      → read_dir_entries fs dir_tag false ≡ ok list
      → Names list n
      → MustCount fs dir_tag st (suc left) n

contains-IsIn : (visited : List ℕ) (t : ℕ) → visited_contains visited t ≡ true → IsIn t visited
unfolding visited_contains
contains-IsIn [] t e = cc
contains-IsIn (u ∷ rest) t e = elim (Bool-cases (u == t)) [
  | inl same ↦ inl (==→eq u t same)
  | inr other ↦
      inr (contains-IsIn rest t (sym (if_false (u == t) true (visited_contains rest t) other) ∙ e))
]

is_dots-IsDots : (n : List ℕ) → is_dots n ≡ true → IsDots n
unfolding is_dots
is_dots-IsDots n e = elim (Bool-cases (is_equal n (46 ∷ []))) [
  | inl one ↦ inl (is_equal-eq n (46 ∷ []) one)
  | inr other ↦
      inr (is_equal-eq n (46 ∷ 46 ∷ []) (sym (ap (λ b. b || is_equal n (46 ∷ 46 ∷ [])) other) ∙ e))
]

not-IsDots : (n : List ℕ) → is_dots n ≡ false → ¬ IsDots n
unfolding is_dots
not-IsDots n e (inl one) =
    is_equal-ne n (46 ∷ []) (or-eq-false (is_equal n (46 ∷ [])) (is_equal n (46 ∷ 46 ∷ [])) e).0 one
not-IsDots n e (inr two) =
    is_equal-ne n (46 ∷ 46 ∷ [])
      (or-eq-false (is_equal n (46 ∷ [])) (is_equal n (46 ∷ 46 ∷ [])) e).1 two

names_in-Names : (list : List Dirent) → Names list (names_in list)
names_in-Names [] = none_left
names_in-Names (e ∷ rest) = elim (Bool-cases (is_dots e.name)) [
  | inl d ↦ rw d (dots (is_dots-IsDots e.name d) (names_in-Names rest))
  | inr d ↦ rw d (name (not-IsDots e.name d) (names_in-Names rest))
]

-- counts_of says what has to be counted, where the directory is read or refused.
pub counts_of-MustCount :
    (fs : FsCtx) (dir_tag : BfTag) (st : CountState) (left : ℕ) (seen : Bool)
    (r : Result (List Dirent))
    → visited_contains st.visited dir_tag.num ≡ seen
    → read_dir_entries fs dir_tag false ≡ r
    → r ≢ stuck
    → MustCount fs dir_tag st left (counts_of left seen r)
counts_of-MustCount fs dir_tag st zero seen r s e ns = too_deep
counts_of-MustCount fs dir_tag st (suc left) true r s e ns =
    again (contains-IsIn st.visited dir_tag.num s)
counts_of-MustCount fs dir_tag st (suc left) false stuck s e ns = absurd (ns refl)
counts_of-MustCount fs dir_tag st (suc left) false (err code) s e ns =
    unreadable code (not_visited st.visited dir_tag.num s) e
counts_of-MustCount fs dir_tag st (suc left) false (ok list) s e ns =
    entries list (not_visited st.visited dir_tag.num s) e (names_in-Names list)
