-- ===== src/Fileset/Enumerate/Report.antt =====
-- advfs_fileset_list of src/fileset.c reports the filesets that the slots of the tag directory lead to.
use advfs_fuse.Base.{
  ℕ, zero, suc, ◌+◌, ◌-◌, ◌≡◌, refl, sym, ap, ◌∙◌, Bool, true, false, List, [], ◌∷◌, ◌++◌, Option,
  none, some, if◌then◌else◌, if_true, if_false, Result, ok, err, ◌>>=◌, Errno,
}
use advfs_fuse.Ods.{TagDirPage, tags_per_pg, tmap_in_use}
use advfs_fuse.Volume.{Volume, fresh}
use advfs_fuse.Domain.{Domain}
use advfs_fuse.Extents.{Extent, page_count}
use advfs_fuse.Extents.ReadData.{PageRead, read_data}
use advfs_fuse.Dir.{Reply}
use advfs_fuse.Fileset.{bfsdir_extents}
use advfs_fuse.Fileset.Enumerate.{
  FilesetInfo, max_fileset_hops, slot_at, slot_fileset, readable, unless_stop, FilesetCb,
  call_found, list_slots, list_page, list_pages, tag_dir_pages, first_slot, list_from, fileset_list,
}
use advfs_fuse.Fileset.Enumerate.Chain.{ChainSet, search_at, ChainSet-search}

-- The fileset that a slot leads to.
pub data SlotSet (domain : Domain) (page : TagDirPage) (i : ℕ) : Option FilesetInfo → Type 0 where
  unused : tmap_in_use page i ≡ false → SlotSet domain page i none
  used :
      {found : Option FilesetInfo}
      → tmap_in_use page i ≡ true
      → ChainSet domain max_fileset_hops (slot_at page i) found
      → SlotSet domain page i found

abbrev pub cons_found : Option FilesetInfo → List FilesetInfo → List FilesetInfo
cons_found none sets = sets
cons_found (some info) sets = info ∷ sets

-- The filesets of a page, from a slot on.
pub data Slots (domain : Domain) (page : TagDirPage) : ℕ → ℕ → List FilesetInfo → Type 0 where
  end : {i : ℕ} → Slots domain page i zero []
  slot :
      {i left : ℕ} {sets : List FilesetInfo} (found : Option FilesetInfo)
      → SlotSet domain page i found
      → Slots domain page (i + 1) left sets
      → Slots domain page i (suc left) (cons_found found sets)

-- The filesets of a tag directory, from a page on; a page that cannot be read holds none.
pub data TagPages (vol : Volume) (domain : Domain) (extents : List Extent)
    : ℕ → ℕ → List FilesetInfo → Type 0 where
  end : {pg : ℕ} → TagPages vol domain extents pg zero []
  bad :
      {pg left : ℕ} {sets : List FilesetInfo} (code : Errno)
      → read_data (some vol) extents pg fresh ≡ err code
      → TagPages vol domain extents (pg + 1) left sets
      → TagPages vol domain extents pg (suc left) sets
  good :
      {pg left : ℕ} {here sets : List FilesetInfo} (r : PageRead)
      → read_data (some vol) extents pg fresh ≡ ok r
      → Slots domain r.bytes (first_slot pg) (tags_per_pg - first_slot pg) here
      → TagPages vol domain extents (pg + 1) left sets
      → TagPages vol domain extents pg (suc left) (here ++ sets)

SlotSet-slot :
    (domain : Domain) (page : TagDirPage) (i : ℕ) (found : Option FilesetInfo)
    → SlotSet domain page i found
    → slot_fileset domain page i ≡ ok found
unfolding slot_fileset search_at
SlotSet-slot domain page i found (unused e) =
    if_false (tmap_in_use page i) (search_at max_fileset_hops domain (slot_at page i)) (ok none) e
SlotSet-slot domain page i found (used e c) =
    if_true (tmap_in_use page i) (search_at max_fileset_hops domain (slot_at page i)) (ok none) e
    ∙ ChainSet-search domain max_fileset_hops (slot_at page i) found c

module _ {U : Type 0} (cb : FilesetCb U) where
  -- A report and, unless it was stopped, what follows it.
  abbrev then_also : Reply U → (U → Reply U) → Reply U
  then_also r go = if r.stop then r else go r.user

  -- The filesets reported one after the other, up to the first answer that stops.
  abbrev pub report_sets : List FilesetInfo → U → Reply U
  report_sets [] user = record { stop = false; user = user }
  report_sets (info ∷ sets) user =
      let r = cb info user in let later = report_sets sets r.user in if r.stop then r else later

  choose_ok :
      (b : Bool) (r later' : Reply U) (later : Result (Reply U))
      → later ≡ ok later'
      → (if b then ok r else later) ≡ ok (if b then r else later')
  choose_ok true r later' later e = refl
  choose_ok false r later' later e = e

  unless_stop-then_also :
      (r : Reply U) (go : U → Result (Reply U)) (go' : U → Reply U)
      → ((user : U) → go user ≡ ok (go' user))
      → unless_stop r go ≡ ok (then_also r go')
  unfolding unless_stop
  unless_stop-then_also r go go' e = choose_ok r.stop r (go' r.user) (go r.user) (e r.user)

  stop_assoc :
      (b : Bool) (r later both : Reply U) (go : U → Reply U)
      → (b ≡ true → r.stop ≡ true)
      → both ≡ then_also later go
      → (if b then r else both) ≡ then_also (if b then r else later) go
  stop_assoc true r later both go h e = sym (if_true r.stop r (go r.user) (h refl))
  stop_assoc false r later both go h e = e

  report_sets_append :
      (xs ys : List FilesetInfo) (user : U)
      → report_sets (xs ++ ys) user ≡ then_also (report_sets xs user) (report_sets ys)
  report_sets_append [] ys user = refl
  report_sets_append (x ∷ xs) ys user =
      let r = cb x user in
      stop_assoc r.stop r (report_sets xs r.user) (report_sets (xs ++ ys) r.user) (report_sets ys)
        (λ h. h) (report_sets_append xs ys r.user)

  found_then :
      (found : Option FilesetInfo) (sets : List FilesetInfo) (user : U)
      → then_also (call_found cb found user) (report_sets sets)
        ≡ report_sets (cons_found found sets) user
  unfolding call_found
  found_then none sets user = refl
  found_then (some info) sets user = refl

  module _ (vol : Volume) (domain : Domain) where
    list_slots-report :
        (page : TagDirPage) (i left : ℕ) (sets : List FilesetInfo) (user : U)
        → Slots domain page i left sets
        → list_slots cb vol domain left page i user ≡ ok (report_sets sets user)
    unfolding list_slots
    list_slots-report page i left sets user end = refl
    list_slots-report page i (suc left) all user (slot {sets = sets} found s rest) =
        ap
          (λ r. r >>= λ f.
            unless_stop (call_found cb f user)
              (λ user'. list_slots cb vol domain left page (i + 1) user'))
          (SlotSet-slot domain page i found s)
        ∙ unless_stop-then_also (call_found cb found user) _ (report_sets sets)
            (λ user'. list_slots-report page (i + 1) left sets user' rest)
        ∙ ap (λ r. ok r) (found_then found sets user)

    shown :
        (extents : List Extent) (pg left : ℕ) (page : Option TagDirPage) (w : Reply U)
        (sets : List FilesetInfo) (user : U)
        → readable (read_data (some vol) extents pg fresh) ≡ ok page
        → list_page cb vol domain page pg user ≡ ok w
        → ((user' : U)
            → list_pages cb vol domain left extents (pg + 1) user' ≡ ok (report_sets sets user'))
        → list_pages cb vol domain (suc left) extents pg user ≡ ok (then_also w (report_sets sets))
    unfolding list_pages
    shown extents pg left page w sets user e l rest =
        ap
          (λ r. r >>= λ p. list_page cb vol domain p pg user >>= λ v.
            unless_stop v (λ user'. list_pages cb vol domain left extents (pg + 1) user'))
          e
        ∙ ap
            (λ r. r >>= λ v.
              unless_stop v (λ user'. list_pages cb vol domain left extents (pg + 1) user'))
            l
        ∙ unless_stop-then_also w _ (report_sets sets) rest

    list_pages-report :
        (extents : List Extent) (pg left : ℕ) (sets : List FilesetInfo) (user : U)
        → TagPages vol domain extents pg left sets
        → list_pages cb vol domain left extents pg user ≡ ok (report_sets sets user)
    unfolding list_pages list_page readable
    list_pages-report extents pg left sets user end = refl
    list_pages-report extents pg (suc left) sets user (bad code e rest) =
        shown extents pg left none (record { stop = false; user = user }) sets user (ap readable e)
          refl (λ user'. list_pages-report extents (pg + 1) left sets user' rest)
    list_pages-report extents pg (suc left) all user
          (good {here = here} {sets = sets} r e slots rest) =
        shown extents pg left (some r.bytes) (report_sets here user) sets user (ap readable e)
          (list_slots-report r.bytes (first_slot pg) (tags_per_pg - first_slot pg) here user slots)
          (λ user'. list_pages-report extents (pg + 1) left sets user' rest)
        ∙ ap (λ x. ok x) (sym (report_sets_append here sets user))

    list_from-report :
        (extents : List Extent) (sets : List FilesetInfo) (user : U)
        → TagPages vol domain extents 0 (tag_dir_pages extents) sets
        → list_from cb vol domain extents user ≡ ok (report_sets sets user).user
    unfolding list_from tag_dir_pages page_count
    list_from-report [] sets user end = refl
    list_from-report (x ∷ rest) sets user pages =
        ap (λ r. r >>= λ w. ok w.user)
          (list_pages-report (x ∷ rest) 0 (tag_dir_pages (x ∷ rest)) sets user pages)

    -- advfs_fileset_list, where the map of the BFSDIR is read: it succeeds and reports, up to the first
    -- answer that says stop, the filesets that the slots of the tag directory lead to, in the order
    -- of the slots. Slot 0 of page 0 is left out, pages that cannot be read are skipped, and the
    -- attributes of a fileset are those of the first mcell that has them, at most 8 hops from the
    -- slot's mcell and over the volumes of the domain.
    pub fileset_list-report :
        (extents : List Extent) (sets : List FilesetInfo) (user : U)
        → bfsdir_extents vol domain ≡ ok extents
        → TagPages vol domain extents 0 (tag_dir_pages extents) sets
        → fileset_list cb vol domain user ≡ ok (report_sets sets user).user
    unfolding fileset_list
    fileset_list-report extents sets user read pages =
        ap (λ r. r >>= λ es. list_from cb vol domain es user) read
        ∙ list_from-report extents sets user pages
