-- ===== src/Main/Choice.antt =====
-- The fileset that main() of src/main.c mounts, as a choice from the list of the filesets.
use advfs_fuse.Base.{
  ℕ, ◌≡◌, refl, ap, ◌∙◌, inl, inr, Bool, true, false, not, Bool-cases, List, [], ◌∷◌, Option, none,
  some, ◌==◌, if◌then◌else◌, ok,
}
use advfs_fuse.Volume.{Volume}
use advfs_fuse.Domain.{Domain}
use advfs_fuse.Extents.{Extent}
use advfs_fuse.Fileset.{bfsdir_extents}
use advfs_fuse.Fileset.Enumerate.{FilesetInfo, tag_dir_pages}
use advfs_fuse.Fileset.Enumerate.Report.{TagPages, report_sets, fileset_list-report}
use advfs_fuse.FuseOps.Path.{c_str, is_equal}
use advfs_fuse.Main.{
  FirstFileset, nameless, capture_named, capture_default, capture_first_fileset, no_info,
  first_start, picked, pick_fileset,
}

-- The first fileset that passes a test.
abbrev pub first_where : (FilesetInfo → Bool) → List FilesetInfo → Option FilesetInfo
first_where test [] = none
first_where test (info ∷ sets) = if test info then some info else first_where test sets

-- A fileset with an empty name does not count.
abbrev pub with_name : Option FilesetInfo → Option FilesetInfo
with_name none = none
with_name (some info) = if nameless info then none else some info

-- The first original; among clones only, the first that has a name.
abbrev pub default_choice : List FilesetInfo → Option FilesetInfo → Option FilesetInfo
default_choice sets none = first_where (λ info. not (nameless info)) sets
default_choice sets (some original) = with_name (some original)

-- The choice among the filesets, by name or by default.
abbrev pub choice : Option (List ℕ) → List FilesetInfo → Option FilesetInfo
choice none sets = default_choice sets (first_where (λ info. info.clone_id == 0) sets)
choice (some name) sets = with_name (first_where (λ info. is_equal (c_str info.name) name) sets)

named_lem :
    (name : List ℕ) (sets : List FilesetInfo)
    → with_name (some (report_sets (capture_named name) sets first_start).user.info)
      ≡ with_name (first_where (λ info. is_equal (c_str info.name) name) sets)
unfolding capture_named nameless
named_lem name [] = refl
named_lem name (info ∷ sets) = elim (Bool-cases (is_equal (c_str info.name) name)) [
  | inl e ↦ rw e refl
  | inr e ↦ rw e (named_lem name sets)
]

abbrev is_original : FilesetInfo → Bool
is_original info = info.clone_id == 0

abbrev has_name : FilesetInfo → Bool
has_name info = not (nameless info)

-- With `kept` from the clones before, the choice among the rest.
abbrev from_kept : FilesetInfo → List FilesetInfo → Option FilesetInfo → Option FilesetInfo
from_kept kept sets none = if nameless kept then first_where has_name sets else some kept
from_kept kept sets (some original) = with_name (some original)

abbrev state : FilesetInfo → FirstFileset
state kept = record { info = kept; found = false }

-- A clone in front of the rest is kept where nothing with a name was.
keep_clone :
    (kept info : FilesetInfo) (sets : List FilesetInfo) (original : Option FilesetInfo)
    → nameless kept ≡ true
    → from_kept info sets original ≡ from_kept kept (info ∷ sets) original
keep_clone kept info sets (some original) n = refl
keep_clone kept info sets none n = elim (Bool-cases (nameless info)) [
  | inl f ↦ rw (n, f) refl
  | inr f ↦ rw (n, f) refl
]

skip_clone :
    (kept info : FilesetInfo) (sets : List FilesetInfo) (original : Option FilesetInfo)
    → nameless kept ≡ false
    → from_kept kept sets original ≡ from_kept kept (info ∷ sets) original
skip_clone kept info sets (some original) n = refl
skip_clone kept info sets none n = rw n refl

default_lem :
    (kept : FilesetInfo) (sets : List FilesetInfo)
    → with_name (some (report_sets capture_default sets (state kept)).user.info)
      ≡ from_kept kept sets (first_where is_original sets)
unfolding capture_default
default_lem kept [] = refl
default_lem kept (info ∷ sets) = elim (Bool-cases (info.clone_id == 0)) [
  | inl e ↦ rw e refl
  | inr e ↦ elim (Bool-cases (nameless kept)) [
    | inl n ↦
        rw (e, n)
          (default_lem info sets ∙ keep_clone kept info sets (first_where is_original sets) n)
    | inr n ↦
        rw (e, n)
          (default_lem kept sets ∙ skip_clone kept info sets (first_where is_original sets) n)
  ]
]

from_start :
    (sets : List FilesetInfo) (original : Option FilesetInfo)
    → from_kept no_info sets original ≡ default_choice sets original
unfolding nameless
from_start sets none = refl
from_start sets (some original) = refl

choice_lem :
    (target : Option (List ℕ)) (sets : List FilesetInfo)
    → with_name (some (report_sets (capture_first_fileset target) sets first_start).user.info)
      ≡ choice target sets
unfolding capture_first_fileset
choice_lem none sets = default_lem no_info sets ∙ from_start sets (first_where is_original sets)
choice_lem (some name) sets = named_lem name sets

-- Where the tag directory of the BFSDIR is read, main() mounts this fileset: with a target name, the
-- first with that name, clones included; without one, the first that is no clone, and where all
-- are clones, the first clone that has a name. A choice with an empty name is none, also where a
-- later fileset has a name.
pub pick_fileset-choice :
    (vol : Volume) (domain : Domain) (target : Option (List ℕ)) (extents : List Extent)
    (sets : List FilesetInfo)
    → bfsdir_extents vol domain ≡ ok extents
    → TagPages vol domain extents 0 (tag_dir_pages extents) sets
    → pick_fileset vol domain target ≡ ok (choice target sets)
unfolding pick_fileset picked
pick_fileset-choice vol domain target extents sets read pages =
    ap picked (
      fileset_list-report (capture_first_fileset target) vol domain extents sets first_start read
        pages)
    ∙ ap (λ c. ok c) (choice_lem target sets)
