-- ===== src/FuseOps/Cached.antt =====
-- A read through the cache gives the bytes of the file, and keeps the cache true.
use advfs_fuse.Base.{
  ℕ, ◌+◌, ◌-◌, ◌≤◌, ◌<◌, ◌≡◌, refl, sym, ap, ◌∙◌, Option, none, some, arith, ltb, ◌==◌,
  if◌then◌else◌, if_true, if_false, lt→ltb, le→ltb, ==→eq, Bool-cases, inl, inr, min, ok, >>=-eq-ok,
}
use advfs_fuse.Ods.{Bytes, BfTag}
use advfs_fuse.Filedata.Read.{FileData}
use advfs_fuse.FuseOps.{
  FuseCtx, Cache, Filled, OpRead, read_whole, fill_cache, cache_file, copy_out_of, op_read,
}

-- The contents of a file with the tag number `num`.
abbrev pub IsFile : FuseCtx → ℕ → FileData → Type 0
IsFile ctx num f = (tag : BfTag) × (tag.num ≡ num) × (read_whole ctx tag ≡ ok f)

-- What is cached is the file that the cache says it is.
abbrev pub IsTrue : FuseCtx → Cache → Type 0
IsTrue ctx cache = (f : FileData) → cache.contents ≡ some f → IsFile ctx cache.tag_num f

fill_cache-IsFile :
    (ctx : FuseCtx) (tag : BfTag) (filled : Filled)
    → fill_cache ctx tag ≡ ok filled
    → (filled.tag_num ≡ tag.num) × IsFile ctx tag.num filled.contents
unfolding fill_cache
fill_cache-IsFile ctx tag filled h =
    let (f, made, read) =
      >>=-eq-ok (λ f. ok (record { tag_num = tag.num; contents = f })) (read_whole ctx tag) h in
    let built : Filled = record { tag_num = tag.num; contents = f } in
    let same : built ≡ filled = cc in
    (ap (λ x. x.tag_num) (sym same), (tag, refl, read ∙ ap (λ x. ok x.contents) same))

cache_file-IsFile :
    (ctx : FuseCtx) (cache : Cache) (tag : BfTag) (filled : Filled)
    → IsTrue ctx cache
    → cache_file ctx cache tag ≡ ok filled
    → (filled.tag_num ≡ tag.num) × IsFile ctx tag.num filled.contents
unfolding cache_file
cache_file-IsFile ctx cache tag filled is_true h = by_data cache.contents refl h
  where
    by_data :
        (held : Option FileData)
        → cache.contents ≡ held
        → (elim held [
          | some f ↦
              if cache.tag_num == tag.num
              then ok (record { tag_num = cache.tag_num; contents = f })
              else fill_cache ctx tag
          | none ↦ fill_cache ctx tag
        ])
          ≡ ok filled
        → (filled.tag_num ≡ tag.num) × IsFile ctx tag.num filled.contents
    by_data none e r = fill_cache-IsFile ctx tag filled r
    by_data (some f) e r = elim (Bool-cases (cache.tag_num == tag.num)) [
      | inr miss ↦
          fill_cache-IsFile ctx tag filled (sym (if_false (cache.tag_num == tag.num) _ _ miss) ∙ r)
      | inl hit ↦
          let built : Filled = record { tag_num = cache.tag_num; contents = f } in
          let kept : ok built ≡ ok filled = sym (if_true (cache.tag_num == tag.num) _ _ hit) ∙ r in
          let same : built ≡ filled = cc in
          let num : cache.tag_num ≡ tag.num = ==→eq cache.tag_num tag.num hit in
          let (t, t_num, read) = is_true f e in
          (
            ap (λ x. x.tag_num) (sym same) ∙ num,
            (t, t_num ∙ num, read ∙ ap (λ x. ok x.contents) same),
          )
    ]

some-inj : {x y : FileData} → some x ≡ some y → x ≡ y
some-inj e = cc

kept-IsFile :
    (ctx : FuseCtx) (tag : BfTag) (filled : Filled) (f : FileData)
    → filled.tag_num ≡ tag.num
    → IsFile ctx tag.num filled.contents
    → some filled.contents ≡ some f
    → IsFile ctx filled.tag_num f
kept-IsFile ctx tag filled f num (t, t_num, read) e =
    (t, t_num ∙ sym num, read ∙ ap ok (some-inj e))

count_is :
    (size offset whole : ℕ)
    → (if ltb offset whole then (if ltb size (whole - offset) then size else whole - offset) else 0)
      ≡ min size (whole - offset)
count_is size offset whole = ground arith

-- Where a read succeeds, on a hit or a miss of a cache that holds what it says, the count is that of
-- the bytes asked for that lie before the end of the file, the caller's buffer has exactly the
-- file's bytes from the offset on in these and is unchanged behind them, and the cache then holds
-- the file that it says.
pub op_read-IsFile :
    (ctx : FuseCtx) (cache : Cache) (tag : BfTag) (buf : Bytes) (size offset : ℕ) (r : OpRead)
    → IsTrue ctx cache
    → op_read ctx cache tag buf size offset ≡ ok r
    → ((f : FileData) × IsFile ctx tag.num f
        × (r.n ≡ min size (f.size - offset))
        × ((i : ℕ) → i < r.n → r.buf i ≡ f.buf (offset + i))
        × ((i : ℕ) → r.n ≤ i → r.buf i ≡ buf i))
      × IsTrue ctx r.cache
unfolding op_read copy_out_of
op_read-IsFile ctx cache tag buf size offset r is_true h =
    let (filled, made, cached) =
      >>=-eq-ok (λ c. ok (copy_out_of c buf size offset)) (cache_file ctx cache tag) h in
    let (num, is_file) = cache_file-IsFile ctx cache tag filled is_true cached in
    let same : copy_out_of filled buf size offset ≡ r = cc in
    rw (← same) (
      (
        filled.contents,
        is_file,
        count_is size offset filled.contents.size,
        (λ i lt. if_true (ltb i (copy_out_of filled buf size offset).n) _ _ (lt→ltb i _ lt)),
        (λ i le. if_false (ltb i (copy_out_of filled buf size offset).n) _ _ (le→ltb i _ le)),
      ),
      λ f e. kept-IsFile ctx tag filled f num is_file e,
    )
