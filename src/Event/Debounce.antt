-- ===== src/Event/Debounce.antt =====
-- internal/infra/pg/event_repo_debounce.go: presence and absence votes on one stored event. The
-- rows that the two transactions read and write are one record; a transaction takes the record to
-- the record that it commits, and an error rolls back to the record that it began with.
pub mod Votes
pub mod Trace
use found_footy.Common.{
  ℕ, ◌+◌, ◌-◌, min, String, Bool, true, false, Option, none, some, List, ◌∷◌, one_of, Time, is_none,
  ◌&&◌, not, if◌then◌else◌, map, ◌==◌,
}
use found_footy.Event.{RemovalReason}

-- `discovery.CandidateOutcome`, with the column's default `pending`
pub data CandidateOutcome : Type 0 where
  pending promoted duplicate superseded rejected failed : CandidateOutcome

-- A row of event_search_candidates; its JSON detail is not modelled.
pub record Candidate : Type 0 where
  pub tweet_url : String
  pub outcome : CandidateOutcome
  pub reject_reason : Option String
  pub outcome_at : Option Time
  pub credited_asset : Option ℕ

-- `event.DownstreamOutcome`, outcome.go
pub data DownstreamOutcome : Type 0 where
  success no_candidates event_removed stub_ok : DownstreamOutcome

-- A row of event_downstream_workflows.
pub record Downstream : Type 0 where
  pub workflow_id : String
  pub completed_at : Option Time
  pub outcome : Option DownstreamOutcome

pub data AuditKind : Type 0 where
  event_stable event_gone : AuditKind

pub record Store : Type 0 where
  pub fixture_id : ℕ
  pub debounce_count : ℕ
  pub downstream_triggered : Bool
  pub removed : Bool
  pub removed_reason : Option RemovalReason
  pub removed_at : Option Time
  pub presence_votes : List String  -- event_monitor_workflows
  pub absence_votes : List String  -- event_drop_workflows
  pub candidates : List Candidate
  pub downstream : List Downstream
  pub audit_log : List AuditKind

abbrev pub is_pending : CandidateOutcome → Bool
is_pending pending = true
is_pending _ = false

-- one row of the UPDATE of `terminalizePendingCandidatesForRemovedEvent`, at every URL
abbrev pub close_candidate : Time → Candidate → Candidate
close_candidate at c =
    if is_pending c.outcome
    then record c {
      outcome = rejected;
      reject_reason = some "event_removed";
      outcome_at = some at;
      credited_asset = none;
    }
    else c

-- one row of the UPDATE that closes the downstream checklist
abbrev pub close_downstream : Time → Downstream → Downstream
close_downstream at d =
    if is_none d.completed_at
    then record d { completed_at = some at; outcome = some event_removed }
    else d

-- does the audit record, if there is one, name the event's fixture?
abbrev pub audit_fits : Option ℕ → ℕ → Bool
audit_fits none fixture = true
audit_fits (some named) fixture = named == fixture

-- the INSERT … ON CONFLICT DO NOTHING of a vote, and whether it inserted
abbrev pub is_new : String → List String → Bool
is_new workflow votes = not (one_of workflow votes)

abbrev log_if : Option ℕ → AuditKind → List AuditKind → List AuditKind
log_if none kind log = log
log_if (some named) kind log = kind ∷ log

-- the vote and the increment, capped at 3
vote_presence : Store → String → Store
vote_presence s workflow =
    if is_new workflow s.presence_votes
    then record s {
      presence_votes = workflow ∷ s.presence_votes;
      debounce_count = min (s.debounce_count + 1) 3;
    }
    else s

-- `registerEventPresence`: the committed rows, and on success the count and `justTriggered`.
-- `audit` is the fixture that the audit record names, if the caller passes a record.
unfoldable pub register_presence : Store → String → (audit : Option ℕ) → Store × Option (ℕ × Bool)
unfolding vote_presence
register_presence s workflow audit =
    let t = vote_presence s workflow in
    if not (audit_fits audit s.fixture_id)
    then (s, none)
    else if (t.debounce_count == 3) && not t.downstream_triggered
    then (
      record t { downstream_triggered = true; audit_log = log_if audit event_stable t.audit_log },
      some (t.debounce_count, true),
    )
    else (t, some (t.debounce_count, false))

-- the vote and the decrement, which stops at 0
vote_absence : Store → String → Store
vote_absence s workflow =
    if is_new workflow s.absence_votes
    then record s {
      absence_votes = workflow ∷ s.absence_votes;
      debounce_count = s.debounce_count - 1;
    }
    else s

-- the rows after the soft delete
remove_rows : Store → (now : Time) → Option ℕ → Store
remove_rows t now audit = record t {
  removed = true;
  removed_reason = some RemovalReason.var;
  removed_at = some now;
  candidates = map (close_candidate now) t.candidates;
  downstream = map (close_downstream now) t.downstream;
  audit_log = log_if audit event_gone t.audit_log;
}

-- `registerEventAbsence`: the committed rows, and on success the count and `hitZero`. `now` is the
-- transaction's clock.
unfoldable pub register_absence :
    Store → String → (audit : Option ℕ) → (now : Time) → Store × Option (ℕ × Bool)
unfolding vote_absence remove_rows
register_absence s workflow audit now =
    let t = vote_absence s workflow in
    if not (audit_fits audit s.fixture_id)
    then (s, none)
    else if (t.debounce_count == 0) && not t.removed
    then (remove_rows t now audit, some (0, true))
    else (t, some (t.debounce_count, false))
