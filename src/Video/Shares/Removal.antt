-- ===== src/Video/Shares/Removal.antt =====
-- What removing a share keeps (internal/domain/video/video.go).
use found_footy.Common.{
  ℕ, String, Bool, Bool-cases, true, Option, none, some, ◌≡◌, ◌≢◌, Time, arith, inl, inr, refl, ◌∙◌,
  subst,
}
use found_footy.Common.Int.{ℤ, pos, ltb_ℤ}
use found_footy.Video.{Share, RemovalReason}
use found_footy.Video.Shares.{new_share, remove, validate_invariants, nil_dereference, is_removed}

-- Any removals, in order, each with its reason and its time.
pub data Reach (s : Share) : Share → Type 0 where
  here : Reach s s
  next :
      {t : Share} (reason : RemovalReason) (at : Time) → Reach s t → Reach s (remove t reason at).0

abbrev MadeValid : Option Share → Type 0
MadeValid none = Unit
MadeValid (some s) = validate_invariants s ≡ none

new_share-MadeValid :
    (generated : Option String) (asset_id event_id : ℕ) (verified : Bool) (extracted : Option ℤ)
    (rank : ℤ) (at : Time)
    → MadeValid (new_share generated asset_id event_id verified extracted rank at).0
unfolding new_share validate_invariants
new_share-MadeValid none asset_id event_id verified extracted rank at = tt
new_share-MadeValid (some id) asset_id event_id verified extracted rank at =
    elim (Bool-cases (ltb_ℤ rank (pos 1))) [ inl low ↦ rw low tt | inr fine ↦ rw (fine, fine) refl ]

remove-validate :
    (s : Share) (reason : RemovalReason) (at : Time)
    → validate_invariants s ≡ none
    → (validate_invariants (remove s reason at).0 ≡ none)
      × ((remove s reason at).1 ≢ some nil_dereference)
unfolding remove validate_invariants
remove-validate s reason at h = ground arith

Reach-validate :
    {s t : Share} → Reach s t → validate_invariants s ≡ none → validate_invariants t ≡ none
Reach-validate here h = h
Reach-validate (next reason at r) h = (remove-validate _ reason at (Reach-validate r h)).0

-- A share that NewShare made passes ValidateInvariants, and so does what any removals leave of it;
-- none of these reads through a nil reason.
new_share-Reach :
    (generated : Option String) (asset_id event_id : ℕ) (verified : Bool) (extracted : Option ℤ)
    (rank : ℤ) (made : Time) (s t : Share) (reason : RemovalReason) (at : Time)
    → (new_share generated asset_id event_id verified extracted rank made).0 ≡ some s
    → Reach s t
    → (validate_invariants t ≡ none) × ((remove t reason at).1 ≢ some nil_dereference)
new_share-Reach generated asset_id event_id verified extracted rank made s t reason at h r =
    let fine = Reach-validate r (
      subst MadeValid h
        (new_share-MadeValid generated asset_id event_id verified extracted rank made)) in
    (fine, (remove-validate t reason at fine).1)

remove-removed :
    (s : Share) (reason : RemovalReason) (at : Time)
    → is_removed s.state ≡ true
    → (remove s reason at).0 ≡ s
unfolding remove
remove-removed s reason at h = ground arith

-- Once a share is removed nothing that removals do changes it.
removed_share_kept : {s t : Share} → Reach s t → is_removed s.state ≡ true → t ≡ s
removed_share_kept here h = refl
removed_share_kept {s} (next {t} reason at r) h =
    remove-removed t reason at (rw (removed_share_kept r h) h) ∙ removed_share_kept r h
