-- ===== src/Examples/SelectionRuns.antt =====
-- Two clips of one event (internal/domain/video/selection.go).
use found_footy.Common.{
  ℕ, Bool, true, none, some, List, [], ◌∷◌, ◌≡◌, ◌≢◌, ◌↔◌, str_eq, inl, inr, refl, arith,
}
use found_footy.Common.Int.{pos, ltb_ℤ}
use found_footy.Video.{Asset, active}
use found_footy.Video.Selection.{
  SelectionPolicy, SelectionNode, SelectionSource, SelectionGraph, new_selection_graph, graph_loop,
  check_prepared, check_media, eligible, root, root_from, lineage, index_of, validate_credits,
  credits_agree, observed_from, exact, selection_acceptance, is_root, out_of_fuel, node_match,
  normalize_frame_hash_version,
}
use found_footy.Video.Match.{
  match_frames, best_alignment, scan_offsets, scan, shrink, stronger_alignment, frame_differs,
  hamming, differing_bits, offset,
}
use found_footy.Video.Selection.Plan.{
  ClipQuality, SelectionPlan, plan_graph, restore, supported, matches, first_progress,
}
use found_footy.Video.Selection.Roots.{Leads, root_iff, root-ends}
use found_footy.Video.Selection.Cover.{AllCovered, restore-AllCovered}
use found_footy.Video.Selection.Planned.{AreKept, AreCounted}
use found_footy.Video.Selection.Total.{kept_of, votes_of, plan_graph-succeeds}

abbrev kept_asset : Asset
kept_asset = record {
  id = 1;
  event_id = 2;
  fixture_id = pos 7;
  s3_bucket = "clips";
  s3_key = "7/1.mp4";
  object_reclaimed_at = none;
  md5 = [];
  media_fingerprint = "";
  frame_hash_version = "dhash";
  frame_hashes = 0 ∷ 65535 ∷ 0 ∷ 65535 ∷ [];
  width = pos 1280;
  height = pos 720;
  duration_ms = pos 4000;
  file_size_bytes = pos 900_000;
  bitrate = none;
  popularity = pos 2;
  superseded_by = none;
  first_seen_at = 90;
}

abbrev kept_node : SelectionNode
kept_node = record {
  asset = kept_asset;
  share = some (record {
    id = "s_0123456789ab";
    asset_id = 1;
    event_id = 2;
    timestamp_verified = true;
    extracted_minute = some (pos 44);
    state = active;
    removed_reason = none;
    removed_at = none;
    rank = pos 1;
    created_at = 100;
  });
  validation = none;
}

-- the same clip from its second frame on, hidden by the first
abbrev hidden_node : SelectionNode
hidden_node = record {
  asset = record kept_asset {
    id = 3;
    frame_hashes = 65535 ∷ 1 ∷ 65535 ∷ [];
    superseded_by = some 1;
  };
  share = none;
  validation = some (record { verified = true; matched_minute = some (pos 44) });
}

abbrev two_nodes : List SelectionNode
two_nodes = kept_node ∷ hidden_node ∷ []

abbrev two_sources : List SelectionSource
two_sources =
    record { id = 11; observed_asset_id = 1; credited_asset_id = 1 }
    ∷ record { id = 12; observed_asset_id = 3; credited_asset_id = 1 }
    ∷ []

abbrev one_route : SelectionPolicy
one_route = record {
  max_hamming = pos 8;
  min_run = pos 3;
  max_gaps = pos 1;
  long_max_hamming = pos 0;
  long_min_run = pos 0;
  long_max_gaps = pos 0;
}

abbrev longer : ClipQuality → ClipQuality → Bool
longer a b = ltb_ℤ b.duration_ms a.duration_ms

abbrev two_rows : SelectionGraph
two_rows = record {
  nodes = two_nodes;
  rows =
      record { node = kept_node; root = 0; eligible = true }
      ∷ record { node = hidden_node; root = 0; eligible = true }
      ∷ [];
  selected = 0 ∷ [];
}

two_rows_run : new_selection_graph two_nodes (1 ∷ 3 ∷ []) two_sources ≡ inr two_rows
unfolding new_selection_graph graph_loop check_prepared check_media eligible root root_from lineage
    index_of validate_credits credits_agree observed_from exact selection_acceptance
two_rows_run = refl

plan_graph-succeeds_example :
    (plan : SelectionPlan) × (plan_graph longer one_route two_rows two_sources ≡ inr plan)
    × AreKept longer one_route two_rows.rows
        (kept_of longer one_route two_rows)
        two_rows.rows
        0
        plan.owners
    × AreCounted longer one_route two_rows.rows
        (votes_of longer one_route two_rows two_sources)
        (kept_of longer one_route two_rows)
        plan.selected
plan_graph-succeeds_example =
    plan_graph-succeeds longer one_route two_nodes (1 ∷ 3 ∷ []) two_sources two_rows two_rows_run

root-ends_example : root two_nodes 1 ≢ inl out_of_fuel
root-ends_example = root-ends two_nodes 1 (omega arith)

root_iff_example :
    (root two_nodes 1 ≡ inr 0)
    ↔ (((steps : ℕ) × Leads two_nodes steps 1 0) × (lineage two_nodes 0 ≡ is_root))
root_iff_example = root_iff two_nodes 1 0 (omega arith)

two_rows-AllCovered : AllCovered longer one_route two_rows.rows two_rows.rows 0 (0 ∷ [])
unfolding supported matches node_match selection_acceptance normalize_frame_hash_version str_eq
    match_frames best_alignment scan_offsets scan shrink stronger_alignment frame_differs hamming
    differing_bits offset
two_rows-AllCovered = (λ _. refl, (λ _. refl, tt))

restore-AllCovered_example :
    let s = restore longer one_route two_rows.rows two_rows.rows 0 (first_progress two_rows) in
    AllCovered longer one_route two_rows.rows two_rows.rows 0 s.selected
    × ((restore longer one_route two_rows.rows two_rows.rows 0 s).selected ≡ s.selected)
restore-AllCovered_example =
    restore-AllCovered longer one_route two_rows.rows two_rows.rows 0 (first_progress two_rows)
