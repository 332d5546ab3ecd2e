-- ===== src/Filedata/Copy/Once.antt =====
-- The memo of the clone fallback.
use advfs_fuse.Base.{
  ◌≡◌, refl, sym, ap, ◌∙◌, ◌⊎◌, ◌≢◌, inl, inr, List, Result, stuck, ok, err, ◌>>=◌, >>=-eq-ok,
  Errno,
}
use advfs_fuse.Extents.{Extent}
use advfs_fuse.Filedata.Copy.{
  Memo, untried, unavailable, ready, Fallback, original_extents, memo_of, clone_fallback_resolve,
}

-- A memo that has been decided, and what decided it: the original file's extents, or any error.
abbrev pub IsDecided : Fallback → Memo → Type 0
IsDecided fb m =
    ((out : List Extent) × (original_extents fb.vol fb.domain fb.orig_fs_tag fb.file_tag ≡ ok out)
      × (m ≡ ready out))
    ⊎ ((e : Errno) × (original_extents fb.vol fb.domain fb.orig_fs_tag fb.file_tag ≡ err e)
        × (m ≡ unavailable))

pub resolve_done :
    (fb : Fallback) (m : Memo) → fb.resolved ≡ m → m ≢ untried → clone_fallback_resolve fb ≡ ok fb
unfolding clone_fallback_resolve
resolve_done fb untried e ne = absurd (ne refl)
resolve_done fb unavailable e ne = rw e refl
resolve_done fb (ready out) e ne = rw e refl

ok-inj : {A : Type 0} {x y : A} → ok x ≡ ok y → x ≡ y
ok-inj e = cc

pub resolve_first :
    (fb : Fallback)
    → fb.resolved ≡ untried
    → clone_fallback_resolve fb ≡ (
        memo_of (original_extents fb.vol fb.domain fb.orig_fs_tag fb.file_tag) >>= λ m.
        ok (record fb { resolved = m }))
unfolding clone_fallback_resolve
resolve_first fb e =
    ap
      (λ r. elim r [
        | untried ↦ memo_of (original_extents fb.vol fb.domain fb.orig_fs_tag fb.file_tag) >>= λ m.
            ok (record fb { resolved = m })
        | unavailable ↦ ok fb
        | ready orig_extents ↦ ok fb
      ])
      e

memo_of-eq-ok :
    (found : Result (List Extent)) (m : Memo)
    → memo_of found ≡ ok m
    → (((out : List Extent) × (found ≡ ok out) × (m ≡ ready out))
        ⊎ ((e : Errno) × (found ≡ err e) × (m ≡ unavailable)))
      × (m ≢ untried)
unfolding memo_of
memo_of-eq-ok stuck m h = cc
memo_of-eq-ok (err e) m h = (inr (e, refl, cc), λ ne. cc)
memo_of-eq-ok (ok out) m h = (inl (out, refl, cc), λ ne. cc)

-- clone_fallback_resolve decides the memo once: from `untried`, it becomes `ready` with the extents
-- that the file's tag has in the original fileset, or `unavailable` where any of the three steps
-- fails; a decided memo is left as it is, so that another call changes nothing.
pub clone_fallback_resolve_once :
    (fb fb' : Fallback)
    → clone_fallback_resolve fb ≡ ok fb'
    → (clone_fallback_resolve fb' ≡ ok fb')
      × (fb.resolved ≡ untried → IsDecided fb fb'.resolved)
      × (fb.resolved ≢ untried → fb' ≡ fb)
clone_fallback_resolve_once fb fb' h = by_memo fb.resolved refl
  where
    by_memo :
        (m : Memo)
        → fb.resolved ≡ m
        → (clone_fallback_resolve fb' ≡ ok fb')
          × (fb.resolved ≡ untried → IsDecided fb fb'.resolved)
          × (fb.resolved ≢ untried → fb' ≡ fb)
    by_memo untried e =
        let (m, set, decided) =
          >>=-eq-ok (λ m. ok (record fb { resolved = m }))
            (memo_of (original_extents fb.vol fb.domain fb.orig_fs_tag fb.file_tag))
            (sym (resolve_first fb e) ∙ h) in
        let (why, not_untried) =
          memo_of-eq-ok (original_extents fb.vol fb.domain fb.orig_fs_tag fb.file_tag) m decided in
        let same : record fb { resolved = m } ≡ fb' = cc in
        let memo : fb'.resolved ≡ m = ap (λ f. f.resolved) (sym same) in
        (resolve_done fb' m memo not_untried, λ _. rw memo why, λ ne. absurd (ne e))
    by_memo unavailable e =
        let same : fb' ≡ fb = ok-inj (sym h ∙ resolve_done fb unavailable e (λ ne. cc)) in
        (rw same (resolve_done fb unavailable e (λ ne. cc)), λ u. cc, λ _. same)
    by_memo (ready out) e =
        let same : fb' ≡ fb = ok-inj (sym h ∙ resolve_done fb (ready out) e (λ ne. cc)) in
        (rw same (resolve_done fb (ready out) e (λ ne. cc)), λ u. cc, λ _. same)
