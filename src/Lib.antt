-- ===== src/Lib.antt =====
-- Found Footy: discovery and curation of football-event videos from live match data.
--
-- The program polls a football data provider, keeps fixtures and their events, and starts a video
-- search for every confirmed event. This library models the domain rules that decide what the
-- stored state becomes: they are pure Go functions, which become functions by clauses, the two
-- voting transactions of the event repository, which become functions on the rows that they read
-- and write, and a callback of the event workflow, which becomes a function on its state.
--
-- Common             shared notation: Boolean tests, lists by native numbers, texts, integers, instants,
--                    comparisons with three answers
-- Fixture            internal/domain/fixture/fixture.go: the fixture, its states, status codes, invariants
-- Fixture.Lifecycle  internal/domain/fixture/state.go: transitions, polls and results; Invariant is about
--                    sequences of operations and Result about terminal observations
-- Event              internal/domain/event/event.go and phase.go: the event and its classification; Key
--                    is its natural key and New
-- Event.Lifecycle    internal/domain/event/state.go: removal and the other transitions
-- Event.Debounce     internal/infra/pg/event_repo_debounce.go: presence and absence votes; Votes is about
--                    one vote and Trace about sequences of them
-- Integrity          internal/domain/providerintegrity: Facts (types.go), Clock and Assess with its
--                    Evidence (evaluate.go), Policy (enforcement.go and RestrictPolicies), Freshness
--                    (health.go), Recovery (health_recovery.go), Correlate (health_scope.go) and
--                    Collector (collector_types.go, collector_fixture.go, whose loop is Observe, and
--                    collector_provider.go, which is Provider; Poll is Validate); the other
--                    children hold theorems
-- Monitor            internal/infra/apifootball/fixtures.go: the response (Provider);
-- Monitor.Identity   internal/activity/monitor/event_identity.go: the match of a response with the stored
--                    events, about which Matching is; Groups is assignEventSequences, Sequences and
--                    Reserved are about what it gives out, Tombstones about what a stored event
--                    reserves, and RoundTrip about natural keys
-- Monitor.Score      internal/activity/monitor/score_consistency.go: the score of a response and its goals,
--                    about which Parity is
-- Video              internal/domain/video/video.go: assets and shares; Shares is the life of a share,
--                    Rank is rank.go and Match is match.go, whose children prove the scan of one offset
--                    (Diagonal), the loop over the offsets (Longest) and the result (Best);
--                    Symmetry is about the order of the two sequences
-- Video.Selection    internal/domain/video/selection_graph.go, and Plan is selection.go; Roots is about the
--                    recorded owners, Cover and Planned about keepers, Votes about the sources of a
--                    clip and Total about the plan of a validated graph
-- Vision             internal/domain/vision: what a frame reports and its readings (schema.go, clock.go);
--                    Scan is the texts and regular expressions of clock.go over code points, Label is
--                    period_label.go, Clock and Frame are the parsers of clock.go with
--                    running_stoppage.go, and Evaluate is evaluate.go, about which Verdict is; Reading,
--                    Rules and Stoppage are about single frames
-- Presentation       internal/contract/eventpresentation/presentation.go: what public readers see of the
--                    events of a fixture; Clock orders them, Timeline sorts and cuts them, Runs says where
--                    the runs lie from one event, Scores is about a round of the loop, Tracking about one
--                    event in all rounds and Boundary about
--                    the score at a goal
-- Workflow           internal/workflow/event_pipeline_intake.go, onHashDone: the claims on exact media, with
--                    the state of event_pipeline.go; Ownership is about the candidates of a claim
-- Examples           runs on concrete data, and each theorem at a concrete input
--
-- How the parts meet: a poll of the provider is assessed against the stored facts
-- (Integrity.Assess), its clock is judged for freshness (Integrity.Freshness), what is found
-- becomes an incident of the fixture until its own evidence resolves it (Integrity.Collector), and
-- the policies of the provider, the fixture and the observation compose to the one that is applied
-- (Integrity.Policy). What the policy permits changes the fixture (Fixture.Lifecycle) and casts
-- votes on its events (Event.Debounce); an event whose counter reaches three starts its downstream
-- work once, and one whose counter falls to zero is removed. Which stored event an element of a
-- response is, the monitor decides by sequences that are never used twice (Monitor.Identity). The
-- clips that the search finds are compared frame by frame (Video.Match), the assets to keep are
-- selected among those that match (Video.Selection), and the shares of an event are ranked
-- (Video.Rank) and removed with it (Video.Shares). Whether the clock on a clip fits the minute of its
-- event, the frames decide (Vision.Evaluate). The events of a fixture are shown with the score at
-- each goal (Presentation).
--
-- Conventions. A method that mutates its receiver returns the new record, beside its error where it
-- has one; an error is a value and its text is not modelled. A nil pointer is `none`. Identifiers
-- and counters are natural numbers, so a test for a non-positive identifier is a test for 0; clock
-- values and scores are integers, since the code tests them for negative values. Go's machine
-- integers do not wrap here: minutes, scores and counters stay far below 2^63. Instants count
-- nanoseconds from Go's zero time. A text type with constants has a constructor for each and one
-- for any other text, and the provider's status codes are texts. A loop is recursion on its list or
-- on the number of its rounds. Four loops take fuel: the inner loop of BestAlignment, a round for
-- each frame from the start of the overlap to the current one: it gives up one of these frames a
-- round, so the fuel is enough; the loop that follows the owners of an asset, a round for each
-- asset and one more, since it stops at an asset that it has seen; the digits of a number, as many
-- rounds as the number, which each divides by ten; and the removal of period hints from a clock, a
-- round for each code point, of which every round takes at least one. A cache or a memo
-- of the code, which holds answers of a pure function, is left out.
--
-- IsUpgrade compares floating-point qualities: it is a parameter of the selection, whose theorems
-- hold for every decision. The nodes of a selection come sorted, and checked for their scopes.
--
-- Capitals are those of the letters whose capital is ASCII: no pattern of a clock has another letter.
-- An identifier of an event is the number that its text writes in hexadecimal. The activities that a
-- workflow schedules are a list of commands, and its context is not canceled.
-- Recording an outcome is its command: the error where a candidate has no evidence, and what the
-- answer of the activity changes, are not modelled.
--
-- Not modelled: input and output, logging, the free-form telemetry map, JSON detail columns, the
-- concurrency of transactions (each is one step, as the row locks make it), and the components that
-- the manifest lists as such.
mod Common
pub mod Fixture
pub mod Event
pub mod Integrity
pub mod Video
pub mod Monitor
pub mod Vision
pub mod Presentation
pub mod Workflow
mod Examples
