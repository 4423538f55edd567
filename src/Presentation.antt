-- ===== src/Presentation.antt =====
-- internal/contract/eventpresentation/presentation.go: what public readers see of an event.
pub mod Clock
pub mod Scores
pub mod Timeline
pub mod Runs
pub mod Tracking
pub mod Boundary
use found_footy.Common.{
  ℕ, suc, String, Bool, true, false, not, Option, none, some, List, [], ◌∷◌, str_eq, select, count,
  length, ltb, before, ◌==◌, ◌&&◌, if◌then◌else◌,
}
use found_footy.Common.Int.{ℤ, pos, ltb_ℤ, eqb_ℤ}
use found_footy.Fixture.{Fixture}
use found_footy.Event.{Event, EventType, known}

-- `Kind`
pub data Kind : Type 0 where
  goal red_card missed_penalty other : Kind

-- `TeamSide`
pub data TeamSide : Type 0 where
  home away : TeamSide

-- `State`
pub data PublicState : Type 0 where
  unidentified confirming searching complete removed : PublicState

-- `Score`; the loop only counts up from nil-nil
pub record Score : Type 0 where
  pub home : ℕ
  pub away : ℕ

-- `Presentation`
pub record Presentation : Type 0 where
  pub label : String
  pub team_side : Option TeamSide
  pub score_before : Option Score
  pub score_after : Option Score

-- `Projection`
pub record Projection : Type 0 where
  pub kind : Kind
  pub presentation : Presentation

-- `kind`
abbrev pub kind_of : EventType → Kind
kind_of EventType.goal = Kind.goal
kind_of EventType.card = red_card
kind_of EventType.missed_penalty = Kind.missed_penalty
kind_of _ = other

-- `label`
unfoldable pub label_of : EventType → (detail : String) → String
label_of EventType.card detail = "Red Card"
label_of EventType.missed_penalty detail = "Penalty Miss"
label_of EventType.goal detail =
    if str_eq detail "penalty"
    then "Penalty Goal"
    else if str_eq detail "own goal"
    then "Own Goal"
    else "Goal"
label_of _ detail = "Event"

-- `Basic`
abbrev pub basic : Event → Projection
basic e = record {
  kind = kind_of e.event_type;
  presentation = record {
    label = label_of e.event_type e.detail;
    team_side = none;
    score_before = none;
    score_after = none;
  };
}

-- `DeriveState`
unfoldable pub derive_state : Event → (discovery_complete : Bool) → PublicState
derive_state e discovery_complete =
    if e.removed
    then removed
    else if not (known e.player)
    then unidentified
    else if discovery_complete
    then complete
    else if e.downstream_triggered
    then searching
    else confirming

-- `intValue`
abbrev pub int_value : Option ℤ → ℤ
int_value none = pos 0
int_value (some n) = n

-- `sameClock`
abbrev pub same_clock : Event → Event → Bool
same_clock a b = eqb_ℤ a.minute b.minute && eqb_ℤ (int_value a.extra) (int_value b.extra)

-- The test that `Build` sorts by. The text of an identifier has a fixed length, so that texts are
-- ordered as the numbers they write.
abbrev pub sorts_before : Event → Event → Bool
sorts_before a b =
    if not (eqb_ℤ a.minute b.minute)
    then ltb_ℤ a.minute b.minute
    else if not (eqb_ℤ (int_value a.extra) (int_value b.extra))
    then ltb_ℤ (int_value a.extra) (int_value b.extra)
    else if not (a.first_seen_at == b.first_seen_at)
    then before a.first_seen_at b.first_seen_at
    else ltb a.id b.id

-- `sort.SliceStable`, as the stable insertion sort
unfoldable pub insert : Event → List Event → List Event
insert e [] = e ∷ []
insert e (d ∷ ds) = let rest = insert e ds in if sorts_before d e then d ∷ rest else e ∷ d ∷ ds

unfoldable pub sort_events : List Event → List Event
sort_events [] = []
sort_events (e ∷ es) = insert e (sort_events es)

-- A run of events of one clock: its first and the others.
abbrev pub Group : Type 0
Group = Event × List Event

abbrev pub members : Group → List Event
members g = g.0 ∷ g.1

unfoldable pub join : Event → List Group → List Group
join e [] = (e, []) ∷ []
join e (g ∷ gs) = if same_clock e g.0 then (e, members g) ∷ gs else (e, []) ∷ g ∷ gs

-- The runs that the loop takes. It compares with the first of a run: as clocks are the same or not, a
-- comparison of neighbours cuts at the same places.
unfoldable pub cut : List Event → List Group
cut [] = []
cut (e ∷ es) = join e (cut es)

-- `teamSide`
abbrev pub team_side : Fixture → ℕ → Option TeamSide
team_side f team_id =
    if team_id == f.home.id
    then some TeamSide.home
    else if team_id == f.away.id
    then some TeamSide.away
    else none

-- the map of projections
abbrev pub Projections : Type 0
Projections = ℕ → Option Projection

abbrev pub put : ℕ → Projection → Projections → Projections
put id p shown i = if id == i then some p else shown i

abbrev pub sided : Fixture → Event → Projection
sided f e = record (basic e) {
  presentation = record (basic e).presentation { team_side = team_side f e.team.id };
}

-- the loop that fills the map
unfoldable pub put_all : Fixture → List Event → Projections → Projections
put_all f [] shown = shown
put_all f (e ∷ es) shown = put_all f es (put e.id (sided f e) shown)

abbrev pub is_goal : Event → Bool
is_goal e = elim e.event_type [ EventType.goal ↦ true | _ ↦ false ]

abbrev pub survives : Event → Bool
survives e = not e.removed

-- `before` with the goal of one side
abbrev pub with_goal : TeamSide → Score → Score
with_goal TeamSide.home s = record { home = suc s.home; away = s.away }
with_goal TeamSide.away s = record { home = s.home; away = suc s.away }

abbrev pub scored_on : Score → Option TeamSide → Projection → Projection
scored_on s none p = p
scored_on s (some side) p = record p {
  presentation = record p.presentation {
    score_before = some s;
    score_after = some (with_goal side s);
  };
}

-- the boundary of a goal, where the side of its team is known
abbrev pub scored : Score → Projection → Projection
scored s p = scored_on s p.presentation.team_side p

abbrev pub score_shown : Score → Option Projection → Option Projection
score_shown s none = none
score_shown s (some p) = some (scored s p)

-- `orderedBoundary`
abbrev pub is_ordered : (goals surviving : ℕ) → Event → Bool
is_ordered goals surviving e = if e.removed then goals == 1 else surviving == 1

-- the first loop over the goals of a run
unfoldable pub mark_goals :
    (boundary_known : Bool) → Score → (goals surviving : ℕ) → List Event → Projections → Projections
mark_goals boundary_known s goals surviving [] shown = shown
mark_goals boundary_known s goals surviving (e ∷ es) shown =
    mark_goals boundary_known s goals surviving es (λ i.
      if (boundary_known && is_ordered goals surviving e) && (e.id == i)
      then score_shown s (shown i)
      else shown i)

-- what the loop over the runs carries
pub record Board : Type 0 where
  pub score : Score
  pub boundary_known : Bool
  pub shown : Projections

abbrev pub side_shown : Option Projection → Option TeamSide
side_shown none = none
side_shown (some p) = p.presentation.team_side

abbrev pub advance_by : Option TeamSide → Board → Board
advance_by none b = record b { boundary_known = false }
advance_by (some side) b = record b { score = with_goal side b.score }

-- the second loop over the goals of a run
unfoldable pub advance : List Event → Board → Board
advance [] b = b
advance (e ∷ es) b = advance es (if e.removed then b else advance_by (side_shown (b.shown e.id)) b)

abbrev pub goals_of : Group → List Event
goals_of g = select is_goal (members g)

-- a round of the loop over the runs
abbrev pub play : Group → Board → Board
play g b =
    let goals = goals_of g in
    let marked =
      mark_goals b.boundary_known b.score (length goals) (count survives goals) goals b.shown in
    advance goals (record b { shown = marked })

unfoldable pub play_all : List Group → Board → Board
play_all [] b = b
play_all (g ∷ gs) b = play_all gs (play g b)

-- `Build`
unfoldable pub build : Fixture → List Event → Projections
build f events =
    let ordered = sort_events events in
    let kick_off : Board = record {
      score = record { home = 0; away = 0 };
      boundary_known = true;
      shown = put_all f ordered (λ i. none);
    } in
    (play_all (cut ordered) kick_off).shown
