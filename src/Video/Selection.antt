-- ===== src/Video/Selection.antt =====
-- internal/domain/video/selection.go and selection_graph.go: the validated graph of an event's
-- assets. The nodes come in the order of the graph, after the checks of their scopes and invariants.
pub mod Plan
pub mod Roots
pub mod Cover
pub mod Planned
pub mod Votes
pub mod Total
use found_footy.Common.{
  ℕ, zero, suc, String, Bool, true, false, not, Option, none, some, List, [], ◌∷◌, ◌++◌, length,
  get_elem?, any, count, str_eq, bool_eq, ◌==◌, ◌&&◌, ◌||◌, if◌then◌else◌, is_none, ◌⊎◌, inl, inr,
}
use found_footy.Common.Int.{ℤ, pos, ltb_ℤ, leb_ℤ, eqb_ℤ}
use found_footy.Video.{Asset, Share, ShareState, active, removed}
use found_footy.Video.Match.{match_frames}

-- `SelectionPolicy`
pub record SelectionPolicy : Type 0 where
  pub max_hamming : ℤ
  pub min_run : ℤ
  pub max_gaps : ℤ
  pub long_max_hamming : ℤ
  pub long_min_run : ℤ
  pub long_max_gaps : ℤ

abbrev route_valid : (h n g : ℤ) → Bool
route_valid h n g =
    leb_ℤ (pos 0) h && (leb_ℤ h (pos 64) && (ltb_ℤ (pos 0) n && (leb_ℤ (pos 0) g && ltb_ℤ g n)))

-- `SelectionPolicy.Validate`
unfoldable pub policy_valid : SelectionPolicy → Bool
policy_valid p =
    route_valid p.max_hamming p.min_run p.max_gaps
    && (if eqb_ℤ p.long_min_run (pos 0)
        then eqb_ℤ p.long_max_hamming (pos 0) && eqb_ℤ p.long_max_gaps (pos 0)
        else route_valid p.long_max_hamming p.long_min_run p.long_max_gaps)

-- What the selection reads of a retained `vision.Evidence`: whether the outcome of its evaluation
-- is `verified`, and the minute it matched.
pub record Evidence : Type 0 where
  pub verified : Bool
  pub matched_minute : Option ℤ

-- `SelectionNode`, whose asset is present
pub record SelectionNode : Type 0 where
  pub asset : Asset
  pub share : Option Share
  pub validation : Option Evidence

-- `SelectionSource`; 0 is `uuid.Nil`
pub record SelectionSource : Type 0 where
  pub id : ℕ
  pub observed_asset_id : ℕ
  pub credited_asset_id : ℕ

-- the errors, and the end of the fuel that no lineage reaches
pub data SelectionError : Type 0 where
  selection_removed invalid_policy media hidden_share lineage_cycle : SelectionError
  lineage_outside out_of_fuel prepared_outside credits : SelectionError
  no_owner : (asset_id : ℕ) → SelectionError

-- What `selectionAcceptance` returns: is there an acceptance, is it verified, at which minute.
pub record Acceptance : Type 0 where
  pub known : Bool
  pub verified : Bool
  pub minute : Option ℤ

abbrev is_removed : ShareState → Bool
is_removed ShareState.removed = true
is_removed _ = false

abbrev is_active : Option Share → Bool
is_active none = false
is_active (some s) = elim s.state [ ShareState.active ↦ true | _ ↦ false ]

abbrev acceptance_of : Option Share → Option Evidence → Acceptance
acceptance_of (some s) v = record {
  known = not (is_removed s.state);
  verified = s.timestamp_verified;
  minute = s.extracted_minute;
}
acceptance_of none (some v) = record {
  known = true;
  verified = v.verified;
  minute = v.matched_minute;
}
acceptance_of none none = record { known = false; verified = false; minute = none }

-- `selectionAcceptance`
unfoldable pub selection_acceptance : SelectionNode → Acceptance
selection_acceptance n = acceptance_of n.share n.validation

-- `NormalizeFrameHashVersion`
unfoldable pub normalize_frame_hash_version : String → String
normalize_frame_hash_version v = if str_eq v "" then "dhash-v1-unversioned" else v

-- the comparison that `matches` caches, for two different nodes
unfoldable pub node_match : SelectionPolicy → SelectionNode → SelectionNode → Bool
node_match p a b =
    let accepted = selection_acceptance a in
    let accepted' = selection_acceptance b in
    accepted.known
    && (accepted'.known
        && (bool_eq accepted.verified accepted'.verified
            && (str_eq (normalize_frame_hash_version a.asset.frame_hash_version)
                  (normalize_frame_hash_version b.asset.frame_hash_version)
                && (match_frames a.asset.frame_hashes b.asset.frame_hashes p.max_hamming p.min_run
                      p.max_gaps
                    || (ltb_ℤ (pos 0) p.long_min_run
                        && match_frames a.asset.frame_hashes b.asset.frame_hashes p.long_max_hamming
                            p.long_min_run p.long_max_gaps)))))

-- the index of an asset id
unfoldable pub index_of : List SelectionNode → ℕ → Option ℕ
index_of [] id = none
index_of (n ∷ ns) id =
    let rest = index_of ns id in
    if n.asset.id == id then some 0 else elim rest [ none ↦ none | some i ↦ some (suc i) ]

-- What a node records of its ownership: nothing, an asset outside the event, or a node.
pub data Lineage : Type 0 where
  is_root outside : Lineage
  follows : ℕ → Lineage

abbrev pub found_at : Option ℕ → Lineage
found_at none = outside
found_at (some i) = follows i

abbrev pub owner_lineage : List SelectionNode → Option ℕ → Lineage
owner_lineage nodes none = is_root
owner_lineage nodes (some id) = found_at (index_of nodes id)

abbrev pub node_lineage : List SelectionNode → Option SelectionNode → Lineage
node_lineage nodes none = outside
node_lineage nodes (some n) = owner_lineage nodes n.asset.superseded_by

-- the record of the node at an index
unfoldable pub lineage : List SelectionNode → ℕ → Lineage
lineage nodes i = node_lineage nodes (get_elem? nodes i)

-- one round of the loop of `root`, with what follows it
abbrev pub root_round : Lineage → (seen : Bool) → ℕ → (ℕ → SelectionError ⊎ ℕ) → SelectionError ⊎ ℕ
root_round is_root seen i next = inr i
root_round outside true i next = inl lineage_cycle
root_round outside false i next = inl lineage_outside
root_round (follows j) true i next = inl lineage_cycle
root_round (follows j) false i next = next j

-- the loop of `root`
unfoldable pub root_from :
    List SelectionNode → (fuel : ℕ) → (seen : List ℕ) → ℕ → SelectionError ⊎ ℕ
root_from nodes zero seen i = inl out_of_fuel
root_from nodes (suc fuel) seen i =
    root_round (lineage nodes i) (any (λ j. j == i) seen) i (root_from nodes fuel (i ∷ seen))

-- `root`: a round for every node and one more
unfoldable pub root : List SelectionNode → ℕ → SelectionError ⊎ ℕ
root nodes i = root_from nodes (suc (length nodes)) [] i

-- One index of the graph's parallel slices `nodes`, `roots` and `eligible`.
pub record Row : Type 0 where
  pub node : SelectionNode
  pub root : ℕ
  pub eligible : Bool

-- `selectionGraph`, whose index is `index_of`
pub record SelectionGraph : Type 0 where
  pub nodes : List SelectionNode
  pub rows : List Row
  pub selected : List ℕ

unfoldable pub eligible : (prepared : List ℕ) → SelectionNode → Bool
eligible prepared n =
    (selection_acceptance n).known
    && (any (λ id. id == n.asset.id) prepared && is_none n.asset.object_reclaimed_at)

-- is the node a selected root, or an error
unfoldable pub check_media : SelectionNode → (eligible : Bool) → SelectionError ⊎ Bool
check_media n fit =
    if is_none n.asset.superseded_by
    then (if is_active n.share && fit then inr true else inl media)
    else if is_active n.share
    then inl hidden_share
    else inr false

-- What follows a step that may fail.
abbrev pub follow :
    {A B : Type 0} → SelectionError ⊎ A → (A → SelectionError ⊎ B) → SelectionError ⊎ B
follow (inl e) f = inl e
follow (inr a) f = f a

abbrev pub add_row :
    SelectionNode → (fit chosen : Bool) → (root i : ℕ) → SelectionGraph → SelectionGraph
add_row n fit chosen r i g = record g {
  rows = g.rows ++ record { node = n; root = r; eligible = fit } ∷ [];
  selected = if chosen then g.selected ++ i ∷ [] else g.selected;
}

-- the last loop of `newSelectionGraph`, over the nodes from an index on
unfoldable pub graph_loop :
    (prepared : List ℕ)
    → List SelectionNode
    → (i : ℕ) → SelectionGraph
    → SelectionError ⊎ SelectionGraph
graph_loop prepared [] i g = inr g
graph_loop prepared (n ∷ ns) i g = follow (check_media n (eligible prepared n)) (λ chosen.
    follow (root g.nodes i)
      (λ r. graph_loop prepared ns (suc i) (add_row n (eligible prepared n) chosen r i g)))

abbrev pub indexed : Option ℕ → ℕ → Bool
indexed none i = false
indexed (some j) i = j == i

abbrev root_agrees : List Row → Option ℕ → Option ℕ → Bool
root_agrees rows (some i) (some owner) = elim (get_elem? rows i) [
  | none ↦ false
  | some r ↦ r.root == owner
]
root_agrees rows _ _ = false

-- the first loop of `validateCredits`
unfoldable pub credits_agree : SelectionGraph → List SelectionSource → (seen : List ℕ) → Bool
credits_agree g [] seen = true
credits_agree g (s ∷ ss) seen =
    not (s.id == 0)
    && (not (any (λ id. id == s.id) seen)
        && (root_agrees g.rows (index_of g.nodes s.observed_asset_id)
              (index_of g.nodes s.credited_asset_id)
            && credits_agree g ss (s.id ∷ seen)))

-- the sources that were observed as the asset of an index
unfoldable pub exact : SelectionGraph → List SelectionSource → ℕ → ℕ
exact g sources i = count (λ s. indexed (index_of g.nodes s.observed_asset_id) i) sources

-- the second loop of `validateCredits`
unfoldable pub observed_from : SelectionGraph → List SelectionSource → (rounds i : ℕ) → Bool
observed_from g sources zero i = true
observed_from g sources (suc rounds) i =
    not (exact g sources i == 0) && observed_from g sources rounds (suc i)

-- `validateCredits`
unfoldable pub validate_credits : SelectionGraph → List SelectionSource → Bool
validate_credits g sources =
    credits_agree g sources [] && observed_from g sources (length g.nodes) 0

-- the loop over the prepared assets, whose answer is the set of them
unfoldable pub check_prepared : List SelectionNode → List ℕ → SelectionError ⊎ List ℕ
check_prepared nodes prepared =
    if any (λ id. is_none (index_of nodes id)) prepared then inl prepared_outside else inr prepared

-- `newSelectionGraph`, after the checks of the snapshot
unfoldable pub new_selection_graph :
    List SelectionNode
    → (prepared : List ℕ) → List SelectionSource
    → SelectionError ⊎ SelectionGraph
new_selection_graph nodes prepared sources = follow (check_prepared nodes prepared) (λ ready.
    follow (graph_loop ready nodes 0 (record { nodes = nodes; rows = []; selected = [] }))
      (λ g. if validate_credits g sources then inr g else inl credits))
