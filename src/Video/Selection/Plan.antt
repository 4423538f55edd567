-- ===== src/Video/Selection/Plan.antt =====
-- internal/domain/video/selection.go: `PlanSelection` over the validated graph.
use found_footy.Common.{
  ℕ, zero, suc, ◌+◌, Bool, true, false, not, Option, none, some, List, [], ◌∷◌, ◌++◌, length,
  get_elem?, any, ltb, ◌==◌, ◌&&◌, ◌||◌, if◌then◌else◌, ◌⊎◌, inl, inr,
}
use found_footy.Common.Int.{ℤ}
use found_footy.Video.{Asset}
use found_footy.Video.Selection.{
  SelectionPolicy, SelectionNode, SelectionSource, SelectionError, SelectionGraph, Row,
  selection_removed, invalid_policy, credits, no_owner, policy_valid, node_match, follow, exact,
  selection_acceptance, new_selection_graph,
}

-- `ClipQuality`
pub record ClipQuality : Type 0 where
  pub duration_ms : ℤ
  pub width : ℤ
  pub height : ℤ
  pub bitrate : Option ℤ

-- `selectionQuality`
abbrev pub selection_quality : Asset → ClipQuality
selection_quality a = record {
  duration_ms = a.duration_ms;
  width = a.width;
  height = a.height;
  bitrate = a.bitrate;
}

-- `SelectionOwner`
pub record SelectionOwner : Type 0 where
  pub asset_id : ℕ
  pub keeper_id : ℕ
  pub direct : Bool

-- `SelectedClip`
pub record SelectedClip : Type 0 where
  pub asset_id : ℕ
  pub popularity : ℕ
  pub verified : Bool
  pub extracted_minute : Option ℤ

-- `SelectionPlan`, without its constant version
pub record SelectionPlan : Type 0 where
  pub owners : List SelectionOwner
  pub selected : List SelectedClip
  pub restored : List ℕ
  pub ineligible : List ℕ

-- What the first loop of `PlanSelection` changes.
pub record Progress : Type 0 where
  pub selected : List ℕ
  pub restored : List ℕ
  pub ineligible : List ℕ

abbrev rows_match : SelectionPolicy → Option Row → Option Row → Bool
rows_match p (some a) (some b) = node_match p a.node b.node
rows_match p _ _ = false

abbrev pub id_at : Option Row → ℕ
id_at none = 0
id_at (some r) = r.node.asset.id

-- `slices.Contains`
abbrev pub holds : List ℕ → ℕ → Bool
holds is i = any (λ j. j == i) is

abbrev pub first_progress : SelectionGraph → Progress
first_progress g = record { selected = g.selected; restored = []; ineligible = [] }

-- `is_upgrade` is the decision of `IsUpgrade`, which compares floating-point qualities.
module _ (is_upgrade : ClipQuality → ClipQuality → Bool) (p : SelectionPolicy) where
  -- `matches`
  unfoldable pub matches : List Row → (i j : ℕ) → Bool
  matches rows i j = (i == j) || rows_match p (get_elem? rows i) (get_elem? rows j)

  -- `supported`
  unfoldable pub supported : List Row → (observed : ℕ) → (selected : List ℕ) → Bool
  supported rows i selected = any (λ keeper. matches rows i keeper) selected

  -- one round of the first loop
  unfoldable pub restore_one : List Row → Row → (i : ℕ) → Progress → Progress
  restore_one rows r i s =
      if not r.eligible
      then record s { ineligible = s.ineligible ++ r.node.asset.id ∷ [] }
      else if supported rows i s.selected
      then s
      else record s {
        selected = s.selected ++ i ∷ [];
        restored = s.restored ++ r.node.asset.id ∷ [];
      }

  -- the first loop, over the rows from an index on
  unfoldable pub restore : List Row → List Row → (i : ℕ) → Progress → Progress
  restore rows [] i s = s
  restore rows (r ∷ rs) i s = restore rows rs (suc i) (restore_one rows r i s)

  abbrev pub upgrades : Option Row → Option Row → Bool
  upgrades (some a) (some b) =
      is_upgrade (selection_quality a.node.asset) (selection_quality b.node.asset)
  upgrades _ _ = false

  -- `owner < 0 || IsUpgrade(…)`
  unfoldable pub takes_over : List Row → (candidate : ℕ) → Option ℕ → Bool
  takes_over rows c none = true
  takes_over rows c (some owner) = upgrades (get_elem? rows c) (get_elem? rows owner)

  -- the inner loop over the selected candidates
  unfoldable pub best_owner : List Row → (i : ℕ) → (selected : List ℕ) → Option ℕ → Option ℕ
  best_owner rows i [] owner = owner
  best_owner rows i (c ∷ cs) owner =
      best_owner rows i cs (if matches rows i c && takes_over rows c owner then some c else owner)

  -- the `switch` that finds the owner of an index
  unfoldable pub owner_of : List Row → (selected : List ℕ) → Row → (i : ℕ) → Option ℕ
  owner_of rows selected r i =
      if holds selected i
      then some i
      else if not r.eligible
      then some r.root
      else if holds selected r.root && matches rows i r.root
      then some r.root
      else best_owner rows i selected none

  abbrev pub owned : List Row → Row → (i : ℕ) → Option ℕ → SelectionError ⊎ SelectionOwner
  owned rows r i none = inl (no_owner r.node.asset.id)
  owned rows r i (some owner) = inr (record {
    asset_id = r.node.asset.id;
    keeper_id = id_at (get_elem? rows owner);
    direct = not (i == owner) && (r.eligible && matches rows i owner);
  })

  -- the second loop, over the rows from an index on
  unfoldable pub find_owners :
      List Row → (selected : List ℕ) → List Row → (i : ℕ) → SelectionError ⊎ List SelectionOwner
  find_owners rows selected [] i = inr []
  find_owners rows selected (r ∷ rs) i =
      follow (owned rows r i (owner_of rows selected r i))
        (λ o. follow (find_owners rows selected rs (suc i)) (λ os. inr (o ∷ os)))

  -- the loop over the observations, for one selected index; `exact_at` counts the sources of an index
  unfoldable pub tally : List Row → (exact_at : ℕ → ℕ) → (keeper : ℕ) → (rounds i : ℕ) → ℕ
  tally rows exact_at keeper zero i = 0
  tally rows exact_at keeper (suc rounds) i =
      (if matches rows i keeper then exact_at i else 0) + tally rows exact_at keeper rounds (suc i)

  abbrev pub clip : Option Row → (popularity : ℕ) → SelectionError ⊎ SelectedClip
  clip none popularity = inl credits
  clip (some r) popularity =
      let accepted = selection_acceptance r.node in
      if ltb popularity 1
      then inl credits
      else inr (record {
        asset_id = r.node.asset.id;
        popularity = popularity;
        verified = accepted.verified;
        extracted_minute = accepted.minute;
      })

  -- the last loop, over the selected indexes
  unfoldable pub find_clips :
      List Row → (exact_at : ℕ → ℕ) → (selected : List ℕ) → SelectionError ⊎ List SelectedClip
  find_clips rows exact_at [] = inr []
  find_clips rows exact_at (k ∷ ks) =
      follow (clip (get_elem? rows k) (tally rows exact_at k (length rows) 0))
        (λ c. follow (find_clips rows exact_at ks) (λ cs. inr (c ∷ cs)))

  -- `PlanSelection` from the graph on
  unfoldable pub plan_graph : SelectionGraph → List SelectionSource → SelectionError ⊎ SelectionPlan
  plan_graph g sources =
      let s = restore g.rows g.rows 0 (first_progress g) in
      follow (find_owners g.rows s.selected g.rows 0) (λ owners.
        follow (find_clips g.rows (exact g sources) s.selected) (λ clips. inr (record {
          owners = owners;
          selected = clips;
          restored = s.restored;
          ineligible = s.ineligible;
        })))

  -- `PlanSelection`
  unfoldable pub plan_selection :
      (is_removed : Bool)
      → List SelectionNode
      → (prepared : List ℕ) → List SelectionSource
      → SelectionError ⊎ SelectionPlan
  plan_selection is_removed nodes prepared sources =
      if is_removed
      then inl selection_removed
      else if not (policy_valid p)
      then inl invalid_policy
      else follow (new_selection_graph nodes prepared sources) (λ g. plan_graph g sources)
