-- ===== src/Monitor/Score/Parity.antt =====
-- What the parity of a score and its goals says
-- (internal/activity/monitor/score_consistency.go, `scoreEventParity`).
use found_footy.Common.{
  ℕ, suc, ◌+◌, ◌≡◌, ◌≢◌, ◌↔◌, ap, ◌∙◌, Bool, true, false, not, Option, none, some, List, [], ◌∷◌,
  ◌==◌, ◌&&◌, if◌then◌else◌, any, count, arith, Bool-cases, inl, inr,
}
use found_footy.Common.Int.{ℤ, pos, negsuc, ◌+ℤ◌}
use found_footy.Monitor.Provider.{ApiFixture, ApiEvent}
use found_footy.Monitor.Score.{
  scores, add_goal, count_goals, goals_of, total_goals, new_score_event_inventory, reported_score,
  parity_of, score_event_parity,
}

abbrev pub scores_for : ℕ → ApiEvent → Bool
scores_for team e = scores e && (e.team.id == team)

add_goal-goals :
    (t team : ℕ) (present : List (ℕ × ℕ))
    → goals_of (add_goal t present) team
      ≡ (if t == team then suc (goals_of present team) else goals_of present team)
unfolding add_goal goals_of
add_goal-goals t team [] = ground arith
add_goal-goals t team (entry ∷ rest) = ground (arith, add_goal-goals t team rest)

add_goal-total :
    (t : ℕ) (present : List (ℕ × ℕ)) → total_goals (add_goal t present) ≡ suc (total_goals present)
unfolding add_goal total_goals
add_goal-total t [] = omega arith
add_goal-total t (entry ∷ rest) = ground (arith, add_goal-total t rest)

count_goals-goals :
    (es : List ApiEvent) (present : List (ℕ × ℕ)) (team : ℕ)
    → goals_of (count_goals es present) team ≡ count (scores_for team) es + goals_of present team
unfolding count_goals
count_goals-goals [] present team = omega arith
count_goals-goals (e ∷ es) present team = elim (Bool-cases (scores e)) [
  | inl goal_here ↦ rw goal_here (
      ground (
        arith,
        count_goals-goals es (add_goal e.team.id present) team,
        add_goal-goals e.team.id team present,
        goal_here,
      ))
  | inr other ↦ rw other (count_goals-goals es present team)
]

count_goals-total :
    (es : List ApiEvent) (present : List (ℕ × ℕ))
    → total_goals (count_goals es present) ≡ count scores es + total_goals present
unfolding count_goals
count_goals-total [] present = omega arith
count_goals-total (e ∷ es) present = elim (Bool-cases (scores e)) [
  | inl goal_here ↦ rw goal_here (
      omega (
        arith,
        count_goals-total es (add_goal e.team.id present),
        add_goal-total e.team.id present,
      ))
  | inr other ↦ rw other (count_goals-total es present)
]

-- a goal of neither team
abbrev pub scores_for_other : (home away : ℕ) → ApiEvent → Bool
scores_for_other home away e = scores e && (not (e.team.id == home) && not (e.team.id == away))

count-teams :
    (es : List ApiEvent) (home away : ℕ)
    → home ≢ away
    → count scores es
      ≡ count (scores_for home) es
        + count (scores_for away) es
        + count (scores_for_other home away) es
count-teams [] home away distinct = omega arith
count-teams (e ∷ es) home away distinct = ground (arith, count-teams es home away distinct)

count-any : (p : ApiEvent → Bool) (es : List ApiEvent) → (count p es ≡ 0) ↔ (any p es ≡ false)
count-any p [] = ground arith
count-any p (e ∷ es) = ground (arith, count-any p es)

-- Two scores are in parity with a total exactly when both are reported, as the two numbers of goals,
-- and these make up the total.
parity_of_iff :
    (h a : Option ℤ) (home_goals away_goals total : ℕ)
    → (parity_of h a home_goals away_goals total ≡ true) ↔ (
        (h ≡ some (pos home_goals))
        × (a ≡ some (pos away_goals))
        × (total ≡ home_goals + away_goals))
unfolding ◌+ℤ◌
parity_of_iff none a home_goals away_goals total = ground arith
parity_of_iff (some h) none home_goals away_goals total = ground arith
parity_of_iff (some (pos h)) (some (pos a)) home_goals away_goals total = ground arith
parity_of_iff (some (negsuc h)) (some a) home_goals away_goals total = ground arith
parity_of_iff (some (pos h)) (some (negsuc a)) home_goals away_goals total = ground arith

-- The score of a response is in parity with its events exactly when both scores are reported, each
-- is the number of the goals of its team, and no goal is of another team, where the teams differ.
pub score_event_parity_iff :
    (f : ApiFixture)
    → f.home.id ≢ f.away.id
    → (score_event_parity (new_score_event_inventory f) f.home.id f.away.id ≡ true) ↔ (
        (f.home_goals ≡ some (pos (count (scores_for f.home.id) f.events)))
        × (f.away_goals ≡ some (pos (count (scores_for f.away.id) f.events)))
        × (any (scores_for_other f.home.id f.away.id) f.events ≡ false))
unfolding score_event_parity new_score_event_inventory goals_of total_goals
score_event_parity_iff f distinct =
    let i = new_score_event_inventory f in
    let home : reported_score i f.home.id ≡ f.home_goals = ground arith in
    let away : reported_score i f.away.id ≡ f.away_goals = ground arith in
    let teams = count-teams f.events f.home.id f.away.id distinct in
    let quiet = count-any (scores_for_other f.home.id f.away.id) f.events in
    rw
      (
        home,
        away,
        count_goals-goals f.events [] f.home.id,
        count_goals-goals f.events [] f.away.id,
        count_goals-total f.events [],
      )
      (
        λ agree.
            let (h, a, sum) = (parity_of_iff f.home_goals f.away_goals _ _ _).0 agree in
            (
              h ∙ ap (λ n. some (pos n)) (omega arith),
              a ∙ ap (λ n. some (pos n)) (omega arith),
              quiet.0 (omega (arith, sum, teams)),
            ),
        λ (h, a, none_other). (parity_of_iff f.home_goals f.away_goals _ _ _).1 (
          h ∙ ap (λ n. some (pos n)) (omega arith),
          a ∙ ap (λ n. some (pos n)) (omega arith),
          omega (arith, teams, quiet.1 none_other),
        ),
      )
