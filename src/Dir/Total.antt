-- ===== src/Dir/Total.antt =====
-- Every block holds a list of items, so that walk_dir_block ends on every block.
use advfs_fuse.Base.{
  ℕ, zero, suc, ◌+◌, ◌*◌, ◌<◌, ◌≡◌, refl, ◌⊎◌, inl, inr, List, [], ◌∷◌, Option, arith, ok,
  Bool-cases,
}
use native.Mathlib.Decide.{ℕ_discrete, dec_le}
use advfs_fuse.Ods.{Bytes, blksz}
use advfs_fuse.Dir.{
  tag_num, entry_size, name_count, trailing_tag, Callback, entry_name, is_nonempty, walk_dir_block,
}
use advfs_fuse.Dir.Items.{
  Item, live, dead, gap, unnamed, Named, IsNameless, Holds, is_live, is_dead, is_gap, is_unnamed,
  Lays, done, broken, item, entry_name_is,
}
use advfs_fuse.Dir.Walk.{report, walk_dir_block-report}

module _ (block : Bytes) where
  name_room :
      (off : ℕ)
      → Named block off (entry_name block off) (trailing_tag block off) ⊎ IsNameless block off
  name_room off = elim (dec_le 1 (name_count block off)) [
    | no none_there ↦ inr (inl (omega arith))
    | yes some_name ↦ elim (dec_le 20 (entry_size block off)) [
      | no small ↦ inr (inr (inl (omega arith)))
      | yes some_size ↦ elim (dec_le (name_count block off + 16) (entry_size block off)) [
        | no tight ↦ inr (inr (inr (omega arith)))
        | yes fits ↦ inl (record {
          some_name = some_name;
          some_size = some_size;
          fits = fits;
          name_is = entry_name_is block off;
          tag_is = refl;
        })
      ]
    ]
  ]

  classified : (off : ℕ) → (it : Item) × Holds block off it
  classified off = elim (ℕ_discrete (tag_num block off) 0) [
    | no used ↦ elim (name_room off) [
      | inl n ↦ (live (entry_name block off) (trailing_tag block off), is_live used n)
      | inr n ↦ (unnamed, is_unnamed used n)
    ]
    | yes unused ↦ elim (name_room off) [
      | inr n ↦ (gap, is_gap unused (inl n))
      | inl n ↦ elim (ℕ_discrete (trailing_tag block off).num 0) [
        | yes z ↦ (gap, is_gap unused (inr (inl z)))
        | no t ↦ elim (Bool-cases (is_nonempty (entry_name block off))) [
          | inr e ↦ (gap, is_gap unused (inr (inr e)))
          | inl c ↦ (dead (entry_name block off) (trailing_tag block off), is_dead unused n t c)
        ]
      ]
    ]
  ]

  laid_from :
      (rounds off : ℕ) → blksz < off + 8 * rounds + 8 → (its : List Item) × Lays block off its
  laid_from zero off enough = ([], done (omega arith))
  laid_from (suc rounds) off enough = elim (dec_le (off + 8) blksz) [
    | no past ↦ ([], done (omega arith))
    | yes inside ↦ elim (dec_le 8 (entry_size block off)) [
      | no small ↦ ([], broken (inl (omega arith)))
      | yes sized ↦ elim (dec_le (off + entry_size block off) blksz) [
        | no crosses ↦ ([], broken (inr (omega arith)))
        | yes fits ↦
            let (it, h) = classified off in
            let (its, l) = laid_from rounds (off + entry_size block off) (omega arith) in
            (it ∷ its, item inside sized fits h l)
      ]
    ]
  ]

  pub laid : (its : List Item) × Lays block 0 its
  laid = laid_from 64 0 (omega arith)

  -- walk_dir_block ends on every block, also a corrupt one, whatever the callbacks answer: the block
  -- holds a list of items from its start on, and these are what the walk reports.
  pub walk_dir_block_total :
      {U : Type 0} (cb deleted_cb : Option (Callback U)) (user : U) (deleted : ℕ)
      → (its : List Item) × Lays block 0 its
        × (walk_dir_block block cb deleted_cb user deleted
            ≡ ok (report cb deleted_cb its user deleted))
  walk_dir_block_total cb deleted_cb user deleted =
      let (its, l) = laid in (its, l, walk_dir_block-report cb deleted_cb block its user deleted l)
