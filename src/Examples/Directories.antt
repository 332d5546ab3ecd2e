-- ===== src/Examples/Directories.antt =====
-- A directory block with a live entry `hi` and a deleted one `x`.
use advfs_fuse.Base.{ℕ, ◌≡◌, refl, inl, false, List, [], ◌∷◌, ◌++◌, Option, some, arith, ok, get_or}
use advfs_fuse.Ods.{Bytes, BfTag}
use advfs_fuse.Dir.{
  Callback, tag_num, entry_size, name_count, trailing_tag, is_nonempty, walk_dir_block,
}
use advfs_fuse.Dir.Items.{Item, live, dead, Named, is_live, is_dead, Lays, item, broken}
use advfs_fuse.Dir.Walk.{report, walk_dir_block-report}

abbrev block : Bytes
block i =
    get_or
      (7 ∷ 0 ∷ 0 ∷ 0 ∷ 20 ∷ 0 ∷ 2 ∷ 0 ∷ 104 ∷ 105 ∷ 0 ∷ 0 ∷ 7 ∷ 0 ∷ 0 ∷ 0 ∷ 1 ∷ 0 ∷ 0 ∷ 0 ∷ 0 ∷ 0
        ∷ 0 ∷ 0 ∷ 20 ∷ 0 ∷ 1 ∷ 0 ∷ 120 ∷ 0 ∷ 0 ∷ 0 ∷ 9 ∷ 0 ∷ 0 ∷ 0 ∷ 3 ∷ 0 ∷ 0 ∷ 0 ∷ [])
      i 0

abbrev tag : ℕ → ℕ → BfTag
tag num seq = record { num = num; seq = seq }

-- Collects the tag numbers.
abbrev collect : Option (Callback (List ℕ))
collect = some (λ name t user. record { stop = false; user = user ++ t.num ∷ [] })

abbrev items : List Item
items = live (104 ∷ 105 ∷ []) (tag 7 1) ∷ dead (120 ∷ []) (tag 9 3) ∷ []

walks :
    walk_dir_block block collect collect [] 0
    ≡ ok (record { stopped = false; user = 7 ∷ 9 ∷ []; deleted = 1 })
unfolding walk_dir_block
walks = refl

at_0-Named : Named block 0 (104 ∷ 105 ∷ []) (tag 7 1)
unfolding name_count entry_size trailing_tag
at_0-Named = record {
  some_name = omega arith;
  some_size = omega arith;
  fits = omega arith;
  name_is = refl;
  tag_is = refl;
}

at_20-Named : Named block 20 (120 ∷ []) (tag 9 3)
unfolding name_count entry_size trailing_tag
at_20-Named = record {
  some_name = omega arith;
  some_size = omega arith;
  fits = omega arith;
  name_is = refl;
  tag_is = refl;
}

items_lie : Lays block 0 items
unfolding tag_num entry_size is_nonempty
items_lie = item (omega arith) (omega arith) (omega arith) (is_live (λ h. omega arith) at_0-Named) (
    item (omega arith) (omega arith) (omega arith)
      (is_dead refl at_20-Named (λ h. omega arith) refl) (broken (inl (omega arith))))

walk_dir_block-report_example :
    walk_dir_block block collect collect [] 0 ≡ ok (report collect collect items [] 0)
walk_dir_block-report_example = walk_dir_block-report collect collect block items [] 0 items_lie
