-- ===== src/Dir/Walk.antt =====
-- walk_dir_block calls back for the entries of a block, in their order, and ends on every block.
use advfs_fuse.Base.{
  ℕ, zero, suc, ◌+◌, ◌*◌, ◌<◌, ◌≡◌, refl, sym, ap, ◌∙◌, ◌≢◌, ◌⊎◌, inl, inr, Bool, true, false, not,
  ◌&&◌, List, [], ◌∷◌, Option, arith, leb, ◌==◌, if◌then◌else◌, if_true, if_false, eq→==, ne→==,
  lt→leb, Result, ok,
}
use advfs_fuse.Ods.{Bytes, blksz}
use advfs_fuse.Dir.{
  tag_num, entry_size, trailing_tag, Reply, Callback, BlockWalk, has_name, entry_name, is_nonempty,
  call, visit_deleted, visit_live, walk_entries, walk_dir_block,
}
use advfs_fuse.Dir.Items.{
  Item, live, dead, gap, unnamed, Holds, is_live, is_dead, is_gap, is_unnamed, Lays, done, broken,
  item, open_guard, done_guard, broken_guard, Named-has_name, IsNameless-has_name, entry_name_is,
}

all_true : (a b c : Bool) → a ≡ true → b ≡ true → c ≡ true → a && (b && c) ≡ true
all_true a b c p q r = rw (p, q, r) refl

any_false : (a b c : Bool) → (a ≡ false) ⊎ ((b ≡ false) ⊎ (c ≡ false)) → a && (b && c) ≡ false
any_false a b c (inl p) = rw p refl
any_false true b c (inr (inl q)) = rw q refl
any_false false b c (inr w) = refl
any_false true true c (inr (inr r)) = r
any_false true false c (inr (inr r)) = refl

not_zero : (n : ℕ) → n ≢ 0 → not (n == 0) ≡ true
not_zero n h = ground arith

is_zero : (n : ℕ) → n ≡ 0 → not (n == 0) ≡ false
is_zero n h = ground arith

module _ {U : Type 0} (cb deleted_cb : Option (Callback U)) where
  abbrev quiet : U → Reply U
  quiet user = record { stop = false; user = user }

  -- The callback's answer for one item.
  abbrev pub answer : Item → U → Reply U
  answer (live name tag) user = call cb name tag user
  answer (dead name tag) user = call deleted_cb name tag user
  answer gap user = quiet user
  answer unnamed user = quiet user

  -- Deleted entries are counted, named or not.
  abbrev pub counted : Item → ℕ → ℕ
  counted (live name tag) deleted = deleted
  counted (dead name tag) deleted = deleted + 1
  counted gap deleted = deleted + 1
  counted unnamed deleted = deleted

  -- The items reported one after the other, up to the first answer that stops.
  abbrev pub report : List Item → U → ℕ → BlockWalk U
  report [] user deleted = record { stopped = false; user = user; deleted = deleted }
  report (it ∷ its) user deleted =
      let r = answer it user in
      let later = report its r.user (counted it deleted) in
      if r.stop
      then record { stopped = true; user = r.user; deleted = counted it deleted }
      else later

  module _ (block : Bytes) where
    visit : ℕ → U → Reply U
    visit off user =
        if tag_num block off == 0
        then visit_deleted deleted_cb block off user
        else visit_live cb block off user

    visit-answer :
        (off : ℕ) (it : Item) (user : U) → Holds block off it → visit off user ≡ answer it user
    unfolding visit visit_live visit_deleted
    visit-answer off (live name tag) user (is_live used n) =
        if_false (tag_num block off == 0) _ _ (ne→== (tag_num block off) 0 used)
        ∙ if_true (has_name block off) _ _ (Named-has_name block off n)
        ∙ λ i. call cb ((entry_name_is block off ∙ sym n.name_is) i) (sym n.tag_is i) user
    visit-answer off (dead name tag) user (is_dead unused n t c) =
        let kept : entry_name block off ≡ name = entry_name_is block off ∙ sym n.name_is in
        if_true (tag_num block off == 0) _ _ (eq→== (tag_num block off) 0 unused)
        ∙ if_true
            (has_name block off
              && (not ((trailing_tag block off).num == 0) && is_nonempty (entry_name block off)))
            _ _
            (all_true (has_name block off) (not ((trailing_tag block off).num == 0))
              (is_nonempty (entry_name block off)) (Named-has_name block off n)
              (not_zero (trailing_tag block off).num (λ z. t (ap (λ x. x.num) n.tag_is ∙ z)))
              (ap is_nonempty kept ∙ c))
        ∙ λ i. call deleted_cb (kept i) (sym n.tag_is i) user
    visit-answer off gap user (is_gap unused why) =
        if_true (tag_num block off == 0) _ _ (eq→== (tag_num block off) 0 unused)
        ∙ if_false
            (has_name block off
              && (not ((trailing_tag block off).num == 0) && is_nonempty (entry_name block off)))
            _ _
            (any_false (has_name block off) (not ((trailing_tag block off).num == 0))
              (is_nonempty (entry_name block off))
              (elim why [
                | inl n ↦ inl (IsNameless-has_name block off n)
                | inr (inl z) ↦ inr (inl (is_zero (trailing_tag block off).num z))
                | inr (inr e) ↦ inr (inr e)
              ]))
    visit-answer off unnamed user (is_unnamed used n) =
        if_false (tag_num block off == 0) _ _ (ne→== (tag_num block off) 0 used)
        ∙ if_false (has_name block off) _ _ (IsNameless-has_name block off n)

    count-counted :
        (off : ℕ) (it : Item) (deleted : ℕ)
        → Holds block off it
        → (if tag_num block off == 0 then deleted + 1 else deleted) ≡ counted it deleted
    count-counted off (live name tag) deleted (is_live used n) =
        if_false (tag_num block off == 0) _ _ (ne→== (tag_num block off) 0 used)
    count-counted off (dead name tag) deleted (is_dead unused n t c) =
        if_true (tag_num block off == 0) _ _ (eq→== (tag_num block off) 0 unused)
    count-counted off gap deleted (is_gap unused why) =
        if_true (tag_num block off == 0) _ _ (eq→== (tag_num block off) 0 unused)
    count-counted off unnamed deleted (is_unnamed used n) =
        if_false (tag_num block off == 0) _ _ (ne→== (tag_num block off) 0 used)

    after : ℕ → ℕ → Reply U → ℕ → Result (BlockWalk U)
    after rounds off reply deleted = elim reply.stop [
      | true ↦ ok (record { stopped = true; user = reply.user; deleted = deleted })
      | false ↦ walk_entries rounds block cb deleted_cb off reply.user deleted
    ]

    after-report :
        (rounds off : ℕ) (its : List Item) (r : Reply U) (deleted : ℕ)
        → ((u : U) (d : ℕ) → walk_entries rounds block cb deleted_cb off u d ≡ ok (report its u d))
        → after rounds off r deleted
          ≡ ok (
              if r.stop
              then record { stopped = true; user = r.user; deleted = deleted }
              else report its r.user deleted)
    unfolding after
    after-report rounds off its r deleted later = by_stop r.stop refl
      where
        by_stop :
            (b : Bool)
            → r.stop ≡ b
            → (elim b [
              | true ↦ ok (record { stopped = true; user = r.user; deleted = deleted })
              | false ↦ walk_entries rounds block cb deleted_cb off r.user deleted
            ])
              ≡ ok (
                  if b
                  then record { stopped = true; user = r.user; deleted = deleted }
                  else report its r.user deleted)
        by_stop true e = refl
        by_stop false e = later r.user deleted

    round_is :
        (rounds off : ℕ) (it : Item) (its : List Item) (user : U) (deleted : ℕ)
        → Holds block off it
        → ((u : U) (d : ℕ)
            → walk_entries rounds block cb deleted_cb (off + entry_size block off) u d
              ≡ ok (report its u d))
        → after rounds
            (off + entry_size block off)
            (visit off user)
            (if tag_num block off == 0 then deleted + 1 else deleted)
          ≡ ok (report (it ∷ its) user deleted)
    round_is rounds off it its user deleted h later =
        (λ i.
          after rounds (off + entry_size block off) (visit-answer off it user h i)
            (count-counted off it deleted h i))
        ∙ after-report rounds (off + entry_size block off) its (answer it user) (counted it deleted)
            later

    walk_entries-report :
        (rounds off : ℕ) (its : List Item) (user : U) (deleted : ℕ)
        → blksz < off + 8 * rounds + 8
        → Lays block off its
        → walk_entries rounds block cb deleted_cb off user deleted ≡ ok (report its user deleted)
    unfolding walk_entries after visit
    walk_entries-report zero off [] user deleted enough l =
        if_false (leb (off + 8) blksz) _ _ (lt→leb (off + 8) blksz (omega arith))
    walk_entries-report zero off (it ∷ its) user deleted enough (item a b c h l) =
        absurd (omega arith)
    walk_entries-report (suc rounds) off [] user deleted enough (done past) =
        if_true _ _ _ (done_guard off (entry_size block off) past)
    walk_entries-report (suc rounds) off [] user deleted enough (broken bad) =
        if_true _ _ _ (broken_guard off (entry_size block off) bad)
    walk_entries-report (suc rounds) off (it ∷ its) user deleted enough (item a b c h l) =
        if_false _ _ _ (open_guard off (entry_size block off) a b c)
        ∙ round_is rounds off it its user deleted h
            (λ u d. walk_entries-report rounds (off + entry_size block off) its u d (omega arith) l)

    -- walk_dir_block, on a block that holds the items `its`: it calls back for the live and the
    -- deleted entries in the order of the block, with the names and the tags that stand there, counts
    -- the entries with tag 0, stops at the first answer that says so, and ends within 64 rounds.
    pub walk_dir_block-report :
        (its : List Item) (user : U) (deleted : ℕ)
        → Lays block 0 its
        → walk_dir_block block cb deleted_cb user deleted ≡ ok (report its user deleted)
    unfolding walk_dir_block
    walk_dir_block-report its user deleted l =
        walk_entries-report 64 0 its user deleted (omega arith) l
