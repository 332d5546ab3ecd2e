-- ===== src/FuseOps/Path/Words.antt =====
-- advfs_fuse_resolve_path of src/fuse_ops.c walks the words of the path.
use advfs_fuse.Base.{
  ℕ, zero, suc, ◌≤◌, ◌≡◌, refl, sym, ap, ◌∙◌, inl, inr, Bool, true, false, List, [], ◌∷◌, ◌++◌,
  append_assoc, append_nil, >>=-ok, >>=-ext, >>=-assoc, leb, ◌==◌, if◌then◌else◌, if_true, if_false,
  Bool-cases, length, Result, ok, err, ◌>>=◌, enametoolong, enotdir, arith,
}
use advfs_fuse.Ods.{BfTag, st_mode}
use advfs_fuse.FuseOps.{FuseCtx}
use advfs_fuse.FuseOps.Path.{
  resolve_component, stat_by_tag, is_dir_mode, slash, skip_slashes, Split, put_front, split_slash,
  require_dir, resolve_loop, fuse_path_max, root_tag, resolve_path,
}

-- A word, unless it is empty, and the words behind it.
abbrev pub word : List ℕ → List (List ℕ) → List (List ℕ)
word [] rest = rest
word (c ∷ w) rest = (c ∷ w) ∷ rest

-- The words of a text: what stands between slashes and is not empty; `w` is the word begun.
abbrev pub words_from : List ℕ → List ℕ → List (List ℕ)
words_from w [] = word w []
words_from w (c ∷ rest) =
    let in_word = words_from (w ++ c ∷ []) rest in
    let behind = words_from [] rest in if c == slash then word w behind else in_word

abbrev pub words : List ℕ → List (List ℕ)
words path = words_from [] path

-- A walk along names from a directory on: each name but the last is that of a directory.
abbrev pub walk_names : FuseCtx → BfTag → List (List ℕ) → Result BfTag
walk_names ctx cur [] = ok cur
walk_names ctx cur (name ∷ []) = resolve_component ctx cur name
walk_names ctx cur (name ∷ n ∷ names) = resolve_component ctx cur name >>= λ next.
    stat_by_tag ctx next >>= λ st.
    (if is_dir_mode (st_mode st) then walk_names ctx next (n ∷ names) else err enotdir)

words-skip_slashes : (p : List ℕ) → words (skip_slashes p) ≡ words p
unfolding skip_slashes
words-skip_slashes [] = refl
words-skip_slashes (c ∷ rest) = elim (Bool-cases (c == slash)) [
  | inl s ↦
      ap words (if_true (c == slash) (skip_slashes rest) (c ∷ rest) s)
      ∙ words-skip_slashes rest
      ∙ sym (if_true (c == slash) _ _ s)
  | inr n ↦ ap words (if_false (c == slash) (skip_slashes rest) (c ∷ rest) n)
]

words-split_slash :
    (w p : List ℕ) → words_from w p ≡ word (w ++ (split_slash p).comp) (words (split_slash p).rest)
unfolding split_slash put_front
words-split_slash w [] = ap (λ v. word v []) (sym (append_nil w))
words-split_slash w (c ∷ more) = elim (Bool-cases (c == slash)) [
  | inl s ↦
      if_true (c == slash) (word w (words more)) (words_from (w ++ c ∷ []) more) s
      ∙ ap (λ v. word v (words more)) (sym (append_nil w))
      ∙ sym (
          ap (λ t. word (w ++ t.comp) (words t.rest))
            (if_true (c == slash) (record { comp = []; rest = more })
              (put_front c (split_slash more)) s))
  | inr n ↦
      if_false (c == slash) (word w (words more)) (words_from (w ++ c ∷ []) more) n
      ∙ words-split_slash (w ++ c ∷ []) more
      ∙ ap (λ v. word v (words (split_slash more).rest))
          (append_assoc w (c ∷ []) (split_slash more).comp)
      ∙ sym (
          ap (λ t. word (w ++ t.comp) (words t.rest))
            (if_false (c == slash) (record { comp = []; rest = more })
              (put_front c (split_slash more)) n))
]

skip_slashes_head :
    (p : List ℕ) (c : ℕ) (more : List ℕ) → skip_slashes p ≡ c ∷ more → (c == slash) ≡ false
unfolding skip_slashes
skip_slashes_head [] c more e = cc
skip_slashes_head (x ∷ p) c more e = elim (Bool-cases (x == slash)) [
  | inl s ↦ skip_slashes_head p c more (sym (if_true (x == slash) (skip_slashes p) (x ∷ p) s) ∙ e)
  | inr n ↦
      let q : x ∷ p ≡ c ∷ more = sym (if_false (x == slash) (skip_slashes p) (x ∷ p) n) ∙ e in
      let h : x ≡ c = cc in rw (← h) n
]

length-skip_slashes : (p : List ℕ) → length (skip_slashes p) ≤ length p
unfolding skip_slashes
length-skip_slashes [] = omega arith
length-skip_slashes (x ∷ p) = elim (Bool-cases (x == slash)) [
  | inl s ↦
      rw (if_true (x == slash) (skip_slashes p) (x ∷ p) s) (omega (arith, length-skip_slashes p))
  | inr n ↦ rw (if_false (x == slash) (skip_slashes p) (x ∷ p) n) (omega arith)
]

length-split_slash : (p : List ℕ) → length (split_slash p).rest ≤ length p
unfolding split_slash put_front
length-split_slash [] = omega arith
length-split_slash (x ∷ p) = elim (Bool-cases (x == slash)) [
  | inl s ↦
      rw (if_true (x == slash) (record { comp = []; rest = p }) (put_front x (split_slash p)) s)
        (omega arith)
  | inr n ↦
      rw (if_false (x == slash) (record { comp = []; rest = p }) (put_front x (split_slash p)) n)
        (omega (arith, length-split_slash p))
]

split_cons :
    (c : ℕ) (more : List ℕ)
    → (c == slash) ≡ false
    → split_slash (c ∷ more) ≡ put_front c (split_slash more)
unfolding split_slash
split_cons c more n = if_false (c == slash) _ (put_front c (split_slash more)) n

words_cons :
    (c : ℕ) (more : List ℕ)
    → (c == slash) ≡ false
    → words (c ∷ more) ≡ (c ∷ (split_slash more).comp) ∷ words (split_slash more).rest
words_cons c more n =
    if_false (c == slash) (words more) (words_from (c ∷ []) more) n
    ∙ words-split_slash (c ∷ []) more

abbrev dir_check : Bool → Result (Unit {0})
dir_check b = if b then ok tt else err enotdir

if_or_err :
    {T : Type 0} (b : Bool) (later : Result T)
    → (if b then later else err enotdir) ≡ dir_check b >>= (λ _. later)
if_or_err true later = refl
if_or_err false later = refl

-- A walk on from a name, with the test of what comes behind it.
module _ (ctx : FuseCtx) where
  walk_cons :
      (cur : BfTag) (name n : List ℕ) (names : List (List ℕ)) (d : ℕ) (more : List ℕ)
      → walk_names ctx cur (name ∷ n ∷ names)
        ≡ resolve_component ctx cur name
          >>= (λ next. require_dir ctx next (d ∷ more) >>= λ _. walk_names ctx next (n ∷ names))
  unfolding require_dir
  walk_cons cur name n names d more = >>=-ext (resolve_component ctx cur name) _ _ (λ next.
      >>=-ext (stat_by_tag ctx next) _ _
        (λ st. if_or_err (is_dir_mode (st_mode st)) (walk_names ctx next (n ∷ names)))
      ∙ sym (
          >>=-assoc (stat_by_tag ctx next) (λ st. dir_check (is_dir_mode (st_mode st)))
            (λ _. walk_names ctx next (n ∷ names))))

  walk_on :
      (cur : BfTag) (name p : List ℕ)
      → ((d : ℕ) (more : List ℕ) → p ≡ d ∷ more → (d == slash) ≡ false)
      → walk_names ctx cur (name ∷ words p)
        ≡ resolve_component ctx cur name
          >>= (λ next. require_dir ctx next p >>= λ _. walk_names ctx next (words p))
  unfolding require_dir
  walk_on cur name [] h = sym (>>=-ok (resolve_component ctx cur name))
  walk_on cur name (d ∷ more) h =
      let s = split_slash more in
      let e = words_cons d more (h d more refl) in
      ap (λ v. walk_names ctx cur (name ∷ v)) e
      ∙ walk_cons cur name (d ∷ s.comp) (words s.rest) d more
      ∙ sym (
          ap
            (λ v.
              resolve_component ctx cur name
              >>= (λ next. require_dir ctx next (d ∷ more) >>= λ _. walk_names ctx next v))
            e)

  resolve_loop-words :
      (fuel : ℕ) (cur : BfTag) (p : List ℕ)
      → length p ≤ fuel
      → ((d : ℕ) (more : List ℕ) → p ≡ d ∷ more → (d == slash) ≡ false)
      → resolve_loop fuel ctx cur p ≡ walk_names ctx cur (words p)
  unfolding resolve_loop put_front
  resolve_loop-words zero cur [] l h = refl
  resolve_loop-words (suc fuel) cur [] l h = refl
  resolve_loop-words zero cur (c ∷ more) l h = absurd (omega arith)
  resolve_loop-words (suc fuel) cur (c ∷ more) l h =
      let s = split_slash more in
      let p = skip_slashes s.rest in
      let n = h c more refl in
      let shorter : length p ≤ fuel =
        omega (arith, length-skip_slashes s.rest, length-split_slash more, l) in
      let follow : Split → Result BfTag = λ t. resolve_component ctx cur t.comp >>= λ next.
      require_dir ctx next (skip_slashes t.rest) >>= λ _.
      resolve_loop fuel ctx next (skip_slashes t.rest) in
      ap follow (split_cons c more n)
      ∙ >>=-ext (resolve_component ctx cur (c ∷ s.comp)) _ _ (λ next.
        >>=-ext (require_dir ctx next p) _ _
          (λ _. resolve_loop-words fuel next p shorter (λ d m e. skip_slashes_head s.rest d m e)))
      ∙ sym (walk_on cur (c ∷ s.comp) p (λ d m e. skip_slashes_head s.rest d m e))
      ∙ ap (λ v. walk_names ctx cur ((c ∷ s.comp) ∷ v)) (words-skip_slashes s.rest)
      ∙ sym (ap (walk_names ctx cur) (words_cons c more n))

  -- advfs_fuse_resolve_path refuses a path of 4096 bytes or more, and otherwise walks from the root
  -- directory along the words of the path, what stands between its slashes, however many these are:
  -- it looks each word up in the directory that the words before it lead to, and every word but the
  -- last has to be a directory.
  pub resolve_path-words :
      (path : List ℕ)
      → resolve_path ctx path ≡ (
          if leb fuse_path_max (length path)
          then err enametoolong
          else walk_names ctx root_tag (words path))
  unfolding resolve_path
  resolve_path-words path =
      ap (λ r. if leb fuse_path_max (length path) then err enametoolong else r)
        (resolve_loop-words (length path) root_tag (skip_slashes path) (length-skip_slashes path)
            (skip_slashes_head path)
          ∙ ap (walk_names ctx root_tag) (words-skip_slashes path))
