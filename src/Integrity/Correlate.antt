-- ===== src/Integrity/Correlate.antt =====
-- internal/domain/providerintegrity/health_scope.go: incidents of several fixtures that begin
-- together.
pub mod Distinct
use found_footy.Common.{
  ℕ, Bool, true, false, not, List, [], ◌∷◌, ltb, leb, ◌==◌, ◌&&◌, ◌||◌, if◌then◌else◌, any, length,
  Time, Duration, after, since, is_zero, minute, ◌*◌,
}
use found_footy.Integrity.Policy.{MutationPolicy, trusted, positive_only}
use found_footy.Integrity.Facts.{Reason}

-- `CorrelationWindow`
abbrev pub correlation_window : Duration
correlation_window = 2 * minute

-- `HealthCause`: its constants, `CauseUnavailable` of collector_types.go, and a `Reason` as a cause.
pub data HealthCause : Type 0 where
  clock_stalled boundary_warning integrity_conflict unavailable : HealthCause
  integrity : Reason → HealthCause

-- `HealthEpisode`
pub record HealthEpisode : Type 0 where
  pub fixture_id : ℕ
  pub cause : HealthCause
  pub started_at : Time
  pub resolved_at : Time

-- `HealthCorrelation`
pub record HealthCorrelation : Type 0 where
  pub stalled_fixtures : List ℕ
  pub conflict_fixtures : List ℕ
  pub policy : MutationPolicy

-- the episodes that the loop of `CorrelateHealth` does not skip
unfoldable pub is_recent : Time → HealthEpisode → Bool
is_recent at e = not (
    is_zero at
    || ((e.fixture_id == 0)
        || (is_zero e.started_at
            || (not (is_zero e.resolved_at)
                || (after e.started_at at || ltb correlation_window (since at e.started_at))))))

abbrev pub is_stall : HealthCause → Bool
is_stall clock_stalled = true
is_stall _ = false

abbrev pub is_conflict : HealthCause → Bool
is_conflict integrity_conflict = true
is_conflict _ = false

abbrev pub holds_id : ℕ → List ℕ → Bool
holds_id id ids = any (λ i. i == id) ids

-- a key of a map to the empty struct: inserting it twice keeps one
unfoldable pub add_id : ℕ → List ℕ → List ℕ
add_id id ids = if holds_id id ids then ids else id ∷ ids

unfoldable pub note_if : Bool → ℕ → List ℕ → List ℕ
unfolding add_id
note_if test id ids = if test then add_id id ids else ids

-- the loop, over the two sets
unfoldable pub correlate_loop :
    Time → (stalled conflicts : List ℕ) → List HealthEpisode → List ℕ × List ℕ
correlate_loop at stalled conflicts [] = (stalled, conflicts)
correlate_loop at stalled conflicts (e ∷ es) =
    correlate_loop at (note_if (is_recent at e && is_stall e.cause) e.fixture_id stalled)
      (note_if (is_recent at e && is_conflict e.cause) e.fixture_id conflicts) es

insert_sorted : ℕ → List ℕ → List ℕ
insert_sorted id [] = id ∷ []
insert_sorted id (i ∷ is) = if leb id i then id ∷ i ∷ is else i ∷ insert_sorted id is

-- `sortedFixtureIDs`; the keys arrive in any order, and `slices.Sort` orders them
unfoldable pub sorted_fixture_ids : List ℕ → List ℕ
unfolding insert_sorted
sorted_fixture_ids [] = []
sorted_fixture_ids (id ∷ ids) = insert_sorted id (sorted_fixture_ids ids)

-- `CorrelateHealth`
unfoldable pub correlate_health : Time → List HealthEpisode → HealthCorrelation
correlate_health at episodes =
    let (stalled, conflicts) = correlate_loop at [] [] episodes in
    record {
      stalled_fixtures = if leb 2 (length stalled) then sorted_fixture_ids stalled else [];
      conflict_fixtures = if leb 2 (length conflicts) then sorted_fixture_ids conflicts else [];
      policy = if leb 2 (length conflicts) then positive_only else trusted;
    }
