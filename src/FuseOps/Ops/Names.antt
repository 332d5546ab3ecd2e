-- ===== src/FuseOps/Ops/Names.antt =====
-- advfs_op_readdir of src/fuse_ops.c hands out the names of the live entries.
use advfs_fuse.Base.{
  ℕ, ◌+◌, ◌<◌, ◌≡◌, refl, sym, ap, ◌∙◌, ◌≢◌, Bool, true, false, ◌||◌, List, [], ◌∷◌, ◌++◌,
  append_assoc, append_nil, Option, none, some, if◌then◌else◌, Result, ok, ◌>>=◌,
}
use advfs_fuse.Ods.{Bytes, BfTag, FsStat, st_mode}
use advfs_fuse.Volume.{Volume}
use advfs_fuse.Domain.{Domain}
use advfs_fuse.Extents.{Extent}
use advfs_fuse.Dir.{BlockWalk, Reply, call}
use advfs_fuse.Dir.Items.{Item, live, dead, gap, unnamed}
use advfs_fuse.Dir.Walk.{report}
use advfs_fuse.Dir.Read.{dir_resolve_extents, dir_pages, cap_pages}
use advfs_fuse.Dir.Read.Listing.{PageOf, Listing}
use advfs_fuse.Dir.Read.Reported.{dir_read_full_clone_total}
use advfs_fuse.FuseOps.{FuseCtx}
use advfs_fuse.FuseOps.Path.{c_str, is_equal, stat_by_tag, is_dir_mode, resolve_path}
use advfs_fuse.FuseOps.Path.Lookup.{is_equal-eq, ctx_dir_read_is, no_original}
use advfs_fuse.FuseOps.Ops.{
  known_dir, Fill, ReaddirState, dot, dotdot, note_dots, readdir_cb, supply, with_dots, fill_dir,
  fill_known, op_readdir,
}

-- The names of the live entries, each up to its first 0.
abbrev pub live_names : List Item → List (List ℕ)
live_names [] = []
live_names (live n tag ∷ its) = c_str n ∷ live_names its
live_names (dead n tag ∷ its) = live_names its
live_names (gap ∷ its) = live_names its
live_names (unnamed ∷ its) = live_names its

abbrev pub any_is : List ℕ → List (List ℕ) → Bool
any_is name [] = false
any_is name (n ∷ ns) = is_equal n name || any_is name ns

-- A filler that has room for every name.
abbrev pub append_name : List (List ℕ) → List ℕ → Fill (List (List ℕ))
append_name buf name = record { is_full = false; buf = buf ++ name ∷ [] }

abbrev Filled : Type 0
Filled = ReaddirState (List (List ℕ))

or_assoc : (a b c : Bool) → ((a || b) || c) ≡ (a || (b || c))
or_assoc true b c = refl
or_assoc false b c = refl

or_true : (a : Bool) → (a || true) ≡ true
or_true true = refl
or_true false = refl

or_false : (a : Bool) → (a || false) ≡ a
or_false true = refl
or_false false = refl

-- The state behind names that were handed out.
abbrev filled_with : Filled → List (List ℕ) → Filled
filled_with rs names = record {
  buf = rs.buf ++ names;
  full = rs.full;
  saw_dot = rs.saw_dot || any_is dot names;
  saw_dotdot = rs.saw_dotdot || any_is dotdot names;
}

flagged : Filled → Bool → Bool → Filled
flagged rs a b = record rs { saw_dot = rs.saw_dot || a; saw_dotdot = rs.saw_dotdot || b }

flags :
    (rs : Filled) (a b : Bool)
    → (a ≡ true → b ≡ false)
    → (if a
        then record rs { saw_dot = true }
        else if b
        then record rs { saw_dotdot = true }
        else rs)
      ≡ flagged rs a b
unfolding flagged
flags rs true b h =
    ap (λ x. record rs { saw_dot = x }) (sym (or_true rs.saw_dot))
    ∙ ap (λ y. record rs { saw_dot = rs.saw_dot || true; saw_dotdot = y })
        (sym (ap (λ b'. rs.saw_dotdot || b') (h refl) ∙ or_false rs.saw_dotdot))
flags rs false true h =
    ap (λ x. record rs { saw_dot = x; saw_dotdot = true }) (sym (or_false rs.saw_dot))
    ∙ ap (λ y. record rs { saw_dot = rs.saw_dot || false; saw_dotdot = y })
        (sym (or_true rs.saw_dotdot))
flags rs false false h =
    ap (λ x. record rs { saw_dot = x }) (sym (or_false rs.saw_dot))
    ∙ ap (λ y. record rs { saw_dot = rs.saw_dot || false; saw_dotdot = y })
        (sym (or_false rs.saw_dotdot))

one_flag : (name : List ℕ) → is_equal name dot ≡ true → is_equal name dotdot ≡ false
one_flag name e = ap (λ n. is_equal n dotdot) (is_equal-eq name dot e) ∙ unfold is_equal in refl

noted :
    (name : List ℕ) (rs : Filled)
    → note_dots append_name name rs ≡ flagged rs (is_equal name dot) (is_equal name dotdot)
unfolding note_dots
noted name rs = flags rs (is_equal name dot) (is_equal name dotdot) (one_flag name)

abbrev after_name : Filled → List ℕ → Filled
after_name rs name = record {
  buf = rs.buf ++ name ∷ [];
  full = rs.full;
  saw_dot = rs.saw_dot || is_equal name dot;
  saw_dotdot = rs.saw_dotdot || is_equal name dotdot;
}

-- One live entry.
handed :
    (n : List ℕ) (tag : BfTag) (rs : Filled)
    → readdir_cb append_name n tag rs ≡ record { stop = false; user = after_name rs (c_str n) }
unfolding readdir_cb flagged
handed n tag rs =
    ap (λ x. record { stop = false; user = record x { buf = rs.buf ++ c_str n ∷ [] } })
      (noted (c_str n) rs)

filled_on :
    (rs : Filled) (name : List ℕ) (names : List (List ℕ))
    → filled_with (after_name rs name) names ≡ filled_with rs (name ∷ names)
filled_on rs name names = λ i. record {
  buf = append_assoc rs.buf (name ∷ []) names i;
  full = rs.full;
  saw_dot = or_assoc rs.saw_dot (is_equal name dot) (any_is dot names) i;
  saw_dotdot = or_assoc rs.saw_dotdot (is_equal name dotdot) (any_is dotdot names) i;
}

-- Nothing handed out.
filled_none : (rs : Filled) → rs ≡ filled_with rs []
filled_none rs = λ i. record {
  buf = sym (append_nil rs.buf) i;
  full = rs.full;
  saw_dot = sym (or_false rs.saw_dot) i;
  saw_dotdot = sym (or_false rs.saw_dotdot) i;
}

after_live : List Item → ℕ → Reply Filled → Filled
after_live its deleted r =
    let stopped : BlockWalk Filled = record { stopped = true; user = r.user; deleted = deleted } in
    (if r.stop
      then stopped
      else report (some (readdir_cb append_name)) none its r.user deleted).user

handed_out :
    (its : List Item) (rs : Filled) (deleted : ℕ)
    → (report (some (readdir_cb append_name)) none its rs deleted).user
      ≡ filled_with rs (live_names its)
unfolding call after_live
handed_out [] rs deleted = filled_none rs
handed_out (live n tag ∷ its) rs deleted =
    ap (after_live its deleted) (handed n tag rs)
    ∙ handed_out its (after_name rs (c_str n)) deleted
    ∙ filled_on rs (c_str n) (live_names its)
handed_out (dead n tag ∷ its) rs deleted = handed_out its rs (deleted + 1)
handed_out (gap ∷ its) rs deleted = handed_out its rs (deleted + 1)
handed_out (unnamed ∷ its) rs deleted = handed_out its rs deleted

-- A name that the directory ought to have, if it is not among these.
abbrev pub missing : List ℕ → List (List ℕ) → List (List ℕ)
missing name names = if any_is name names then [] else name ∷ []

abbrev empty_state : Filled
empty_state = record { buf = []; full = false; saw_dot = false; saw_dotdot = false }

supplied :
    (names : List (List ℕ)) (a b : Bool)
    → (with_dots append_name
        (record { buf = names; full = false; saw_dot = a; saw_dotdot = b })).buf
      ≡ names ++ (if a then [] else dot ∷ []) ++ (if b then [] else dotdot ∷ [])
unfolding with_dots supply
supplied names true true = sym (append_nil (names ++ []) ∙ append_nil names)
supplied names true false = ap (λ l. l ++ dotdot ∷ []) (sym (append_nil names))
supplied names false true = sym (append_nil (names ++ dot ∷ []))
supplied names false false = refl

-- advfs_op_readdir on a mounted fileset that is no clone and a directory whose pages are there or in
-- holes, with a filler that has room for
-- every name: it hands out the names of the live entries, in the order of the directory, and then
-- "." and "..", each only if no live entry has that name.
pub op_readdir-live_names :
    (ctx : FuseCtx) (vol : Volume) (domain : Domain) (x : Extent) (rest extents : List Extent)
    (path : List ℕ) (tag : BfTag) (fst : FsStat)
    → resolve_path ctx path ≡ ok tag
    → stat_by_tag ctx tag ≡ ok fst
    → is_dir_mode (st_mode fst) ≡ true
    → ctx.is_clone ≡ false
    → ctx.vol ≡ some vol
    → ctx.domain ≡ some domain
    → ctx.fs_tag_extents ≡ x ∷ rest
    → tag.num ≢ 0
    → dir_resolve_extents domain (x ∷ rest) ctx.fs_tag tag ≡ ok extents
    → ((i : ℕ)
        → i < cap_pages (dir_pages extents none)
        → (shown : Option Bytes) × PageOf domain extents none i shown)
    → (its : List Item) × Listing domain extents none 0 (cap_pages (dir_pages extents none)) its
      × (op_readdir append_name ctx path []
          ≡ ok (live_names its ++ missing dot (live_names its) ++ missing dotdot (live_names its)))
unfolding op_readdir known_dir fill_known fill_dir
op_readdir-live_names ctx vol domain x rest extents path tag fst resolves stat is_dir plain v d fs
      nz resolved given =
    let (its, ls, reads) =
      dir_read_full_clone_total (some (readdir_cb append_name)) none vol domain x rest extents
        ctx.fs_tag tag none none empty_state nz resolved (no_original vol domain tag) given in
    let names = live_names its in
    let known : BfTag → Result (List (List ℕ)) =
      λ t. known_dir (stat_by_tag ctx t) >>= fill_known append_name ctx t [] in
    let finish : Filled → Result (List (List ℕ)) = λ rs. ok (with_dots append_name rs).buf in
    (
      its,
      ls,
      ap (λ r. r >>= known) resolves
          ∙ ap (λ r. known_dir r >>= fill_known append_name ctx tag []) stat
          ∙ ap (λ b. fill_known append_name ctx tag [] (some b)) is_dir
          ∙ ap (λ r. r >>= finish)
              (ctx_dir_read_is ctx vol domain (x ∷ rest) tag (readdir_cb append_name) empty_state v
                  d fs
                ∙ reads)
          ∙ ap finish (handed_out its empty_state 0)
          ∙ ap (λ l. ok l) (supplied names (any_is dot names) (any_is dotdot names)),
    )
