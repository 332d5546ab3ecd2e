-- ===== src/FuseOps/Ops/Attrs.antt =====
-- advfs_op_getattr of src/fuse_ops.c gives attributes for every path that resolves.
use advfs_fuse.Base.{
  ℕ, ◌≡◌, sym, ap, ◌∙◌, ◌≢◌, ◌↔◌, inl, inr, Bool, true, false, List, ◌==◌, if_true, if_false,
  Bool-cases, Result, stuck, ok, err, ◌>>=◌, >>=-eq-err, Errno,
}
use advfs_fuse.Ods.{BfTag, FsStat}
use advfs_fuse.FuseOps.{FuseCtx}
use advfs_fuse.FuseOps.Path.{ctx_dir_read, stat_by_tag, resolve_path}
use advfs_fuse.FuseOps.Ops.{
  Stat, probe_cb, has_entry_of, probe_is_dir, made_up, made_up_attrs, attrs_of, op_getattr,
}

-- `r` is no error.
abbrev NoErr : {T : Type 0} → Result T → Type 0
NoErr r = (code : Errno) → r ≢ err code

made_up_attrs-NoErr : (ctx : FuseCtx) (tag : BfTag) → NoErr (made_up_attrs ctx tag)
unfolding made_up_attrs probe_is_dir
made_up_attrs-NoErr ctx tag code e = elim (Bool-cases (tag.num == 2)) [
  | inl root ↦
      let q : ok (made_up tag true) ≡ err code = sym (if_true (tag.num == 2) _ _ root) ∙ e in cc
  | inr other ↦
      probed (ctx_dir_read ctx tag probe_cb false) (sym (if_false (tag.num == 2) _ _ other) ∙ e)
]
  where
    probed : (r : Result Bool) → has_entry_of r >>= (λ is_dir. ok (made_up tag is_dir)) ≢ err code
    probed stuck h = unfold has_entry_of in cc
    probed (err c) h = unfold has_entry_of in cc
    probed (ok b) h = unfold has_entry_of in cc

attrs_of-NoErr : (ctx : FuseCtx) (tag : BfTag) (st : Result FsStat) → NoErr (attrs_of ctx tag st)
unfolding attrs_of
attrs_of-NoErr ctx tag stuck code e = cc
attrs_of-NoErr ctx tag (ok fst) code e = cc
attrs_of-NoErr ctx tag (err c) code e = made_up_attrs-NoErr ctx tag code e

-- advfs_op_getattr fails exactly where the path does not resolve, with the error of its resolution:
-- a file whose attributes cannot be read is given some that are made up.
pub op_getattr_errors :
    (ctx : FuseCtx) (path : List ℕ) (code : Errno)
    → (op_getattr ctx path ≡ err code) ↔ (resolve_path ctx path ≡ err code)
unfolding op_getattr
op_getattr_errors ctx path code =
    let next : BfTag → Result Stat = λ tag. attrs_of ctx tag (stat_by_tag ctx tag) in
    (
      (λ e. elim (>>=-eq-err next (resolve_path ctx path) e) [
        | inl fails ↦ fails
        | inr (tag, resolves, e') ↦ absurd (attrs_of-NoErr ctx tag (stat_by_tag ctx tag) code e')
      ]),
      (λ e. ap (λ r. r >>= next) e),
    )
