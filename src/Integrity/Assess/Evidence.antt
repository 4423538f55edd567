-- ===== src/Integrity/Assess/Evidence.antt =====
-- internal/domain/providerintegrity/evaluate.go: what is missing from an observation, which
-- corrections and replacements explain it, and what regressed.
use found_footy.Common.{
  ℕ, String, Bool, true, false, not, Option, none, some, List, [], ◌∷◌, str_eq, ltb, ◌==◌, ◌&&◌,
  ◌||◌, if◌then◌else◌, any, select, count, is_some, is_none, option_eq,
}
use found_footy.Common.Int.{ℤ, pos, ◌+ℤ◌, ◌-ℤ◌, ltb_ℤ, leb_ℤ, eqb_ℤ, abs}
use found_footy.Integrity.Facts.{FixtureFacts, EventFact, FixtureComparison}
use found_footy.Integrity.Clock.{
  provider_phase_regressed, material_clock_regressed, fixture_clock, event_clock,
}

-- is an event with this key in the list?
unfoldable pub has_key : String → List EventFact → Bool
has_key key events = any (λ e. str_eq e.key key) events

-- `missingEvents`
unfoldable pub missing_events : (stored observed : List EventFact) → List EventFact
unfolding has_key
missing_events stored observed = select (λ e. not (has_key e.key observed)) stored

-- `optionalIntEqual`, `optionalIntDecreased`
abbrev pub optional_int_equal : Option ℤ → Option ℤ → Bool
optional_int_equal = option_eq eqb_ℤ

abbrev pub optional_int_decreased : (stored observed : Option ℤ) → Bool
optional_int_decreased (some s) (some o) = ltb_ℤ o s
optional_int_decreased none o = false
optional_int_decreased (some s) none = false

-- `scoresEqual`
unfoldable pub scores_equal : FixtureFacts → FixtureFacts → Bool
scores_equal stored observed =
    optional_int_equal stored.home_score observed.home_score
    && optional_int_equal stored.away_score observed.away_score

-- `providerScoreDecreased`
unfoldable pub provider_score_decreased : FixtureFacts → FixtureFacts → Bool
provider_score_decreased stored observed =
    optional_int_decreased stored.home_score observed.home_score
    || optional_int_decreased stored.away_score observed.away_score

-- both scores are present, `down` fell by one and `level` stayed
abbrev dropped_by_one : (down down' level level' : Option ℤ) → Bool
dropped_by_one (some d) (some d') (some l) (some l') = eqb_ℤ d (d' +ℤ pos 1) && eqb_ℤ l l'
dropped_by_one _ _ _ _ = false

-- `scoreDroppedForTeamByOne`
unfoldable pub score_dropped_for_team_by_one : (stored observed : FixtureFacts) → ℕ → Bool
score_dropped_for_team_by_one stored observed team =
    if team == stored.home_id
    then dropped_by_one stored.home_score observed.home_score stored.away_score observed.away_score
    else if team == stored.away_id
    then dropped_by_one stored.away_score observed.away_score stored.home_score observed.home_score
    else false

abbrev is_goal_of : ℕ → EventFact → Bool
is_goal_of team e = str_eq e.event_type "goal" && (e.team_id == team)

-- how many goals the events credit to a team
abbrev pub goals_of : ℕ → List EventFact → ℕ
goals_of team events = count (is_goal_of team) events

abbrev counts_to : ℕ → Option ℤ → Bool
counts_to n none = false
counts_to n (some score) = eqb_ℤ (pos n) score

-- `observedGoalInventoryMatchesScore`
unfoldable pub observed_goal_inventory_matches_score : FixtureFacts → List EventFact → Bool
observed_goal_inventory_matches_score observed events =
    counts_to (goals_of observed.home_id events) observed.home_score
    && counts_to (goals_of observed.away_id events) observed.away_score

-- `goalCorrectionWindowMinutes`
abbrev pub goal_correction_window_minutes : ℤ
goal_correction_window_minutes = pos 10

-- the tests of `supportedGoalCorrection` on the one missing goal
correction_of : FixtureComparison → EventFact → Bool
unfolding score_dropped_for_team_by_one scores_equal observed_goal_inventory_matches_score
correction_of c goal =
    let first_vote = score_dropped_for_team_by_one c.stored c.observed goal.team_id in
    let continuing_vote =
      ltb 0 goal.debounce_count
      && (ltb goal.debounce_count 3 && scores_equal c.stored c.observed) in
    let distance = fixture_clock c.observed -ℤ event_clock goal.minute goal.extra in
    (first_vote || continuing_vote)
    && (observed_goal_inventory_matches_score c.observed c.observed_events
        && (is_some c.observed.elapsed
            && (leb_ℤ (pos 0) distance && leb_ℤ distance goal_correction_window_minutes)))

-- `supportedGoalCorrection`
unfoldable pub supported_goal_correction :
    FixtureComparison → (missing : List EventFact) → (other_regression : Bool) → Bool
unfolding correction_of
supported_goal_correction c [] other = false
supported_goal_correction c (goal ∷ []) other =
    not other && (str_eq goal.event_type "goal" && correction_of c goal)
supported_goal_correction c (goal ∷ next ∷ rest) other = false

abbrev different_players : Option ℕ → Option ℕ → Bool
different_players (some a) (some b) = not (a == b)
different_players none b = false
different_players (some a) none = false

-- the tests of `supportedEventReplacement` on the one unmatched pair
unfoldable pub refines : (old fresh : EventFact) → Bool
refines old fresh =
    (old.team_id == fresh.team_id)
    && (str_eq old.event_type fresh.event_type
        && (str_eq old.detail fresh.detail
            && (different_players old.player_id fresh.player_id
                && leb_ℤ
                    (abs (event_clock old.minute old.extra -ℤ event_clock fresh.minute fresh.extra))
                    (pos 1))))

replaced_by : EventFact → (unmatched : List EventFact) → Bool
unfolding refines
replaced_by old [] = false
replaced_by old (fresh ∷ []) = refines old fresh
replaced_by old (fresh ∷ next ∷ rest) = false

-- `supportedEventReplacement`
unfoldable pub supported_event_replacement :
    FixtureComparison → (missing : List EventFact) → (other_regression : Bool) → Bool
unfolding replaced_by scores_equal missing_events
supported_event_replacement c [] other = false
supported_event_replacement c (old ∷ []) other =
    not other
    && (scores_equal c.stored c.observed
        && replaced_by old (missing_events c.observed_events c.confirmed_events))
supported_event_replacement c (old ∷ next ∷ rest) other = false

-- a score that is absent or 0
abbrev no_goals : Option ℤ → Bool
no_goals none = true
no_goals (some score) = eqb_ℤ score (pos 0)

abbrev empty_postponed : FixtureFacts → Bool
empty_postponed f = not (
    not (str_eq f.status "pst")
    || (f.terminal
        || (f.has_events
            || (is_some f.elapsed
                || (is_some f.extra
                    || (not (no_goals f.home_score) || not (no_goals f.away_score)))))))

abbrev is_empty {ℓ} : {A : Type ℓ} → List A → Bool
is_empty [] = true
is_empty (x ∷ xs) = false

-- `emptyPostponedScoreboard`
unfoldable pub empty_postponed_scoreboard : FixtureComparison → Bool
empty_postponed_scoreboard c =
    is_empty c.confirmed_events
    && (is_empty c.observed_events && (empty_postponed c.stored && empty_postponed c.observed))

abbrev cleared {ℓ} : {A : Type ℓ} → Option A → Option A → Bool
cleared stored observed = is_some stored && is_none observed

abbrev name_cleared : String → String → Bool
name_cleared stored observed = not (str_eq stored "") && str_eq observed ""

-- `providerFieldCleared`
unfoldable pub provider_field_cleared : FixtureComparison → Bool
unfolding empty_postponed_scoreboard
provider_field_cleared c =
    let s = c.stored in
    let o = c.observed in
    ((cleared s.home_score o.home_score || cleared s.away_score o.away_score)
      && not (empty_postponed_scoreboard c))
    || (cleared s.elapsed o.elapsed
        || (name_cleared s.home_name o.home_name
            || (name_cleared s.away_name o.away_name || name_cleared s.league_name o.league_name)))

-- the tests of `AssessFixture` that no event evidence can explain
unfoldable pub identity_changed : FixtureComparison → Bool
identity_changed c =
    let s = c.stored in
    let o = c.observed in
    not (s.fixture_id == o.fixture_id)
    || (not (s.home_id == o.home_id)
        || (not (s.away_id == o.away_id) || not (s.league_id == o.league_id)))

unfoldable pub other_regression : FixtureComparison → Bool
other_regression c =
    identity_changed c
    || (provider_phase_regressed c.stored.status c.observed.status
        || ((c.stored.terminal && not c.observed.terminal)
            || (material_clock_regressed c.stored c.observed || provider_field_cleared c)))
