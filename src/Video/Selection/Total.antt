-- ===== src/Video/Selection/Total.antt =====
-- What the validated graph guarantees to the plan (internal/domain/video/selection_graph.go).
use found_footy.Common.{
  All-weaken, ℕ, zero, suc, ◌+◌, ◌≤◌, ◌<◌, ◌≡◌, refl, sym, ap, ◌∙◌, subst, Bool, true, false, List,
  [], ◌∷◌, ◌++◌, length, length-append, count, All, All-append, ◌==◌, if◌then◌else◌, arith,
  Bool-cases, ◌⊎◌, inl, inr,
}
use found_footy.Video.Selection.{
  credits, check_prepared, SelectionPolicy, SelectionError, SelectionNode, SelectionSource,
  SelectionGraph, Row, follow, index_of, exact, observed_from, validate_credits, graph_loop,
  new_selection_graph, check_media, eligible, root, add_row,
}
use found_footy.Video.Selection.Plan.{
  ClipQuality, SelectionPlan, Progress, restore, restore_one, plan_graph, first_progress, supported,
  tally,
}
use found_footy.Video.Selection.Votes.{votes_for, tally-count}
use found_footy.Video.Selection.Cover.{restore-covers}
use found_footy.Video.Selection.Planned.{
  AreKept, AreCounted, AreCounted-same, find_owners-found, find_clips-found,
}

abbrev AllInside : ℕ → List ℕ → Type 0
AllInside n = All (λ k. k < n)

-- A failed step does not lead to a result; a step that succeeds hands its result on.
follow-inr :
    {A B : Type 0} (o : SelectionError ⊎ A) (f : A → SelectionError ⊎ B) (b : B)
    → follow o f ≡ inr b
    → (a : A) × (o ≡ inr a) × (f a ≡ inr b)
follow-inr (inl e) f b h = absurd (ground (arith, h))
follow-inr (inr a) f b h = (a, refl, h)

-- A predicate of what a step that succeeds gives.
abbrev OnRight : {A : Type 0} → (A → Type 0) → SelectionError ⊎ A → Type 0
OnRight P (inl e) = Unit
OnRight P (inr a) = P a

-- The graph has a row for each node met, and selects none of the others.
record IsBuilt (nodes : List SelectionNode) (i : ℕ) (g : SelectionGraph) : Type 0 where
  same_nodes : g.nodes ≡ nodes
  counted : length g.rows ≡ i
  inside : AllInside i g.selected

row_added :
    (n : SelectionNode) (fit : Bool) (r i : ℕ) (g : SelectionGraph)
    → length g.rows ≡ i
    → length (g.rows ++ record { node = n; root = r; eligible = fit } ∷ []) ≡ suc i
row_added n fit r i g h =
    omega (arith, length-append g.rows (record { node = n; root = r; eligible = fit } ∷ []), h)

add_row-IsBuilt :
    (nodes : List SelectionNode) (n : SelectionNode) (fit chosen : Bool) (r i : ℕ)
    (g : SelectionGraph)
    → IsBuilt nodes i g
    → IsBuilt nodes (suc i) (add_row n fit chosen r i g)
add_row-IsBuilt nodes n fit chosen r i g h =
    let wider : AllInside (suc i) g.selected =
      All-weaken g.selected (λ k less. omega (arith, less)) h.inside in
    record {
      same_nodes = h.same_nodes;
      counted = row_added n fit r i g h.counted;
      inside = elim (Bool-cases chosen) [
        | inl kept ↦
            rw kept (All-append (λ k. k < suc i) g.selected (i ∷ []) wider (omega arith, tt))
        | inr hidden ↦ rw hidden wider
      ];
    }

graph_loop-IsBuilt :
    (prepared : List ℕ) (nodes ns : List SelectionNode) (i : ℕ) (g g' : SelectionGraph)
    → IsBuilt nodes i g
    → graph_loop prepared ns i g ≡ inr g'
    → IsBuilt nodes (i + length ns) g'
unfolding graph_loop
graph_loop-IsBuilt prepared nodes [] i g g' h made =
    subst (λ n. IsBuilt nodes n g') (omega arith) (subst (OnRight (IsBuilt nodes i)) made h)
graph_loop-IsBuilt prepared nodes (n ∷ ns) i g g' h made =
    let (chosen, _, made') = follow-inr (check_media n (eligible prepared n)) _ g' made in
    let (r, _, made'') = follow-inr (root g.nodes i) _ g' made' in
    let built =
      graph_loop-IsBuilt prepared nodes ns (suc i) (add_row n (eligible prepared n) chosen r i g) g'
        (add_row-IsBuilt nodes n (eligible prepared n) chosen r i g h) made'' in
    subst (λ k. IsBuilt nodes k g') (omega arith) built

observed_from-each :
    (g : SelectionGraph) (sources : List SelectionSource) (rounds i k : ℕ)
    → observed_from g sources rounds i ≡ true
    → i ≤ k
    → k < i + rounds
    → 0 < exact g sources k
unfolding observed_from
observed_from-each g sources zero i k h low high = absurd (omega arith)
observed_from-each g sources (suc rounds) i k h low high = elim (Bool-cases (i == k)) [
  | inl at ↦ let same : i ≡ k = ground (arith, at) in ground (arith, h, ap (exact g sources) same)
  | inr later ↦
      observed_from-each g sources rounds (suc i) k (ground (arith, h)) (ground (arith, later))
        (omega arith)
]

abbrev IsValid : List SelectionSource → SelectionGraph → Type 0
IsValid sources g = IsBuilt g.nodes (length g.nodes) g × (validate_credits g sources ≡ true)

credited-IsValid :
    (sources : List SelectionSource) (g g' : SelectionGraph) (valid : Bool)
    → IsBuilt g.nodes (length g.nodes) g
    → validate_credits g sources ≡ valid
    → (if valid then inr g else inl credits) ≡ inr g'
    → IsValid sources g'
credited-IsValid sources g g' true h same made = subst (OnRight (IsValid sources)) made (h, same)
credited-IsValid sources g g' false h same made = absurd (ground (arith, made))

new_selection_graph-IsValid :
    (nodes : List SelectionNode) (prepared : List ℕ) (sources : List SelectionSource)
    (g : SelectionGraph)
    → new_selection_graph nodes prepared sources ≡ inr g
    → IsValid sources g
unfolding new_selection_graph
new_selection_graph-IsValid nodes prepared sources g made =
    let start : SelectionGraph = record { nodes = nodes; rows = []; selected = [] } in
    let (ready, _, made') = follow-inr (check_prepared nodes prepared) _ g made in
    let (g', built, checked) = follow-inr (graph_loop ready nodes 0 start) _ g made' in
    let h =
      graph_loop-IsBuilt ready nodes nodes 0 start g'
        (record { same_nodes = refl; counted = refl; inside = tt }) built in
    credited-IsValid sources g' g (validate_credits g' sources)
      (subst (λ ns. IsBuilt ns (length ns) g') (sym h.same_nodes)
        (subst (λ k. IsBuilt nodes k g') (omega arith) h))
      refl checked

module _ (is_upgrade : ClipQuality → ClipQuality → Bool) (p : SelectionPolicy) where
  restore_one-AllInside :
      (rows : List Row) (n : ℕ) (r : Row) (i : ℕ) (s : Progress)
      → i < n
      → AllInside n s.selected
      → AllInside n (restore_one is_upgrade p rows r i s).selected
  unfolding restore_one
  restore_one-AllInside rows n r i s low h = elim (Bool-cases r.eligible) [
    | inr unfit ↦ rw unfit h
    | inl fit ↦ rw fit (elim (Bool-cases (supported is_upgrade p rows i s.selected)) [
      | inl backed ↦ rw backed h
      | inr alone ↦ rw alone (All-append (λ k. k < n) s.selected (i ∷ []) h (low, tt))
    ])
  ]

  restore-AllInside :
      (rows rs : List Row) (n i : ℕ) (s : Progress)
      → i + length rs ≤ n
      → AllInside n s.selected
      → AllInside n (restore is_upgrade p rows rs i s).selected
  unfolding restore
  restore-AllInside rows [] n i s low h = h
  restore-AllInside rows (r ∷ rs) n i s low h =
      restore-AllInside rows rs n (suc i) (restore_one is_upgrade p rows r i s) (omega arith)
        (restore_one-AllInside rows n r i s (omega arith) h)

  -- the selection that the first loop of `PlanSelection` leaves
  abbrev pub kept_of : SelectionGraph → List ℕ
  kept_of g = (restore is_upgrade p g.rows g.rows 0 (first_progress g)).selected

  -- The number of the sources whose observed asset matches a keeper directly.
  abbrev pub votes_of : SelectionGraph → List SelectionSource → ℕ → ℕ
  votes_of g sources k =
      count (λ s. votes_for is_upgrade p g.rows (index_of g.nodes s.observed_asset_id) k) sources

  tally-votes :
      (g : SelectionGraph) (sources : List SelectionSource) (k : ℕ)
      → length g.rows ≡ length g.nodes
      → tally is_upgrade p g.rows (exact g sources) k (length g.rows) 0 ≡ votes_of g sources k
  tally-votes g sources k same =
      ap (λ n. tally is_upgrade p g.rows (exact g sources) k n 0) same
      ∙ tally-count is_upgrade p g.rows g sources k

  plan_graph-exists :
      (g : SelectionGraph) (sources : List SelectionSource)
      → IsBuilt g.nodes (length g.nodes) g
      → validate_credits g sources ≡ true
      → (plan : SelectionPlan) × (plan_graph is_upgrade p g sources ≡ inr plan)
        × AreKept is_upgrade p g.rows (kept_of g) g.rows 0 plan.owners
        × AreCounted is_upgrade p g.rows (votes_of g sources) (kept_of g) plan.selected
  unfolding plan_graph validate_credits
  plan_graph-exists g sources built valid =
      let inside =
        restore-AllInside g.rows g.rows (length g.rows) 0 (first_progress g) (omega arith)
          (subst (λ n. AllInside n g.selected) (sym built.counted) built.inside) in
      let (os, owners, fits) =
        find_owners-found is_upgrade p g.rows (kept_of g) g.rows 0
          (restore-covers is_upgrade p g.rows g.rows 0 (first_progress g)) in
      let (cs, clips, counted) =
        find_clips-found is_upgrade p g.rows (exact g sources) (kept_of g) (
          All-weaken (kept_of g)
            (λ k low. (
              low,
              observed_from-each g sources (length g.nodes) 0 k (ground (arith, valid))
                  (omega arith) (omega (arith, low, built.counted)),
            ))
            inside) in
      rw owners (
        rw clips (
          _,
          refl,
          fits,
          AreCounted-same is_upgrade p g.rows _ (votes_of g sources) (kept_of g) cs
              (λ k. tally-votes g sources k built.counted) counted,
        ))

  -- A snapshot that the graph accepts has a plan, for every decision of upgrades: no owner and no
  -- credit is ever missing. Every eligible asset is kept or owned by a kept asset that it matches
  -- directly, and the popularity of a clip is the number of the sources whose asset it matches.
  pub plan_graph-succeeds :
      (nodes : List SelectionNode) (prepared : List ℕ) (sources : List SelectionSource)
      (g : SelectionGraph)
      → new_selection_graph nodes prepared sources ≡ inr g
      → (plan : SelectionPlan) × (plan_graph is_upgrade p g sources ≡ inr plan)
        × AreKept is_upgrade p g.rows (kept_of g) g.rows 0 plan.owners
        × AreCounted is_upgrade p g.rows (votes_of g sources) (kept_of g) plan.selected
  plan_graph-succeeds nodes prepared sources g made =
      let (built, valid) = new_selection_graph-IsValid nodes prepared sources g made in
      plan_graph-exists g sources built valid
