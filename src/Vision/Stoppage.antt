-- ===== src/Vision/Stoppage.antt =====
-- What an announced allowance does to a clock (internal/domain/vision/running_stoppage.go).
use found_footy.Common.{
  ℕ, ◌+◌, ◌<◌, ◌≡◌, ◌⊎◌, ◌↔◌, refl, sym, ap, ◌∙◌, subst, String, true, false, Option, none, some,
  any, ◌==◌, arith, inl, inr, Bool-cases, ◌||◌,
}
use found_footy.Common.Int.{pos}
use found_footy.Vision.{
  Period, first_half, second_half, extra_first, extra_second, unknown, period_of, ClockReading,
}
use found_footy.Vision.Frame.{
  with_running_stoppage, relabel_past, past_end, stopped_at, period_ends, positive, allowance,
  end_of,
}

-- The frame and the minutes of a reading, and whether they are certain.
abbrev pub IsSameClock : (r s : ClockReading) → Type 0
IsSameClock r s =
    (s.frame_index ≡ r.frame_index)
    × (s.minute ≡ r.minute)
    × (s.alternative_minutes ≡ r.alternative_minutes)
    × (s.exact_minute ≡ r.exact_minute)
    × (s.ambiguous ≡ r.ambiguous)

-- A clock runs fewer than fifteen minutes past the end of a period.
abbrev pub IsPast : (minute : ℕ) → Period → Type 0
IsPast minute p = (end : ℕ) × (end_of p ≡ some end) × (end < minute) × (minute < end + 15)

-- A clock without a period runs past the end of one, beside an announced allowance.
pub record IsRunning (r : ClockReading) (added : Option String) (p : Period) : Type 0 where
  pub free : (r.period_pinned ≡ false) × (r.ambiguous ≡ false)
  pub announced : (n : ℕ) × (allowance added ≡ some n) × (0 < n)
  pub past : IsPast r.minute p

positive-some : (o : Option ℕ) → positive o ≡ true → (n : ℕ) × (o ≡ some n) × (0 < n)
positive-some none h = absurd (ground (arith, h))
positive-some (some n) h = (n, refl, ground arith)

-- The loop over the ends changes nothing or stops at one.
record IsStopped (r s : ClockReading) (end : ℕ) : Type 0 where
  listed : any (λ e. e == end) period_ends ≡ true
  after : end < r.minute
  before : r.minute < end + 15
  equal : s ≡ stopped_at r end

relabel_past-IsStopped :
    (r : ClockReading)
    → (relabel_past period_ends r ≡ r) ⊎ ((end : ℕ) × IsStopped r (relabel_past period_ends r) end)
unfolding relabel_past
relabel_past-IsStopped r = elim (Bool-cases (past_end r.minute 45)) [
  | inl t ↦
      inr (
        45,
        record { listed = refl; after = ground arith; before = ground arith; equal = rw t refl },
      )
  | inr a ↦ elim (Bool-cases (past_end r.minute 90)) [
    | inl t ↦ inr (
      90,
      record { listed = refl; after = ground arith; before = ground arith; equal = rw (a, t) refl },
    )
    | inr b ↦ elim (Bool-cases (past_end r.minute 105)) [
      | inl t ↦ inr (
        105,
        record {
          listed = refl;
          after = ground arith;
          before = ground arith;
          equal = rw (a, b, t) refl;
        },
      )
      | inr c ↦ elim (Bool-cases (past_end r.minute 120)) [
        | inl t ↦ inr (
          120,
          record {
            listed = refl;
            after = ground arith;
            before = ground arith;
            equal = rw (a, b, c, t) refl;
          },
        )
        | inr d ↦ inl (rw (a, b, c, d) refl)
      ]
    ]
  ]
]

-- A reading is kept, or it is free, an allowance is announced, and the loop stops at an end.
record IsMoved (r : ClockReading) (added : Option String) (s : ClockReading) : Type 0 where
  free : (r.period_pinned ≡ false) × (r.ambiguous ≡ false)
  announced : (n : ℕ) × (allowance added ≡ some n) × (0 < n)
  end : ℕ
  stopped : IsStopped r s end

with_running_stoppage-cases :
    (r : ClockReading) (added : Option String)
    → (with_running_stoppage r added ≡ r) ⊎ IsMoved r added (with_running_stoppage r added)
unfolding with_running_stoppage
with_running_stoppage-cases r added =
    elim (Bool-cases (r.period_pinned || (r.ambiguous || r.stoppage))) [
      | inl bound ↦ inl (rw bound refl)
      | inr free ↦ elim (Bool-cases (positive (allowance added))) [
        | inr quiet ↦ inl (rw (free, quiet) refl)
        | inl told ↦
            rw (free, told)
              (elim (relabel_past-IsStopped r) [
                | inl kept ↦ inl kept
                | inr (end, stopped) ↦ inr (record {
                  free = (ground arith, ground arith);
                  announced = positive-some (allowance added) told;
                  end = end;
                  stopped = stopped;
                })
              ])
      ]
    ]

which_end :
    (end : ℕ)
    → any (λ e. e == end) period_ends ≡ true
    → (45 ≡ end) ⊎ (90 ≡ end) ⊎ (105 ≡ end) ⊎ (120 ≡ end)
which_end end h = ground arith

end_of-period_of :
    (end : ℕ) → any (λ e. e == end) period_ends ≡ true → end_of (period_of (pos end)) ≡ some end
unfolding period_of
end_of-period_of end h = elim (which_end end h) [
  | inl same ↦ subst (λ e. end_of (period_of (pos e)) ≡ some e) same refl
  | inr (inl same) ↦ subst (λ e. end_of (period_of (pos e)) ≡ some e) same refl
  | inr (inr (inl same)) ↦ subst (λ e. end_of (period_of (pos e)) ≡ some e) same refl
  | inr (inr (inr same)) ↦ subst (λ e. end_of (period_of (pos e)) ≡ some e) same refl
]

moved_to :
    (r s : ClockReading) (added : Option String) (p : Period)
    → IsMoved r added s
    → s.period ≡ p
    → IsRunning r added p
moved_to r s added p m e = record {
  free = m.free;
  announced = m.announced;
  past = (
    m.end,
    ap end_of (sym e ∙ ap (λ (c : ClockReading). c.period) m.stopped.equal)
        ∙ end_of-period_of m.end m.stopped.listed,
    m.stopped.after,
    m.stopped.before,
  );
}

stopped-IsSameClock :
    (r s : ClockReading) (added : Option String)
    → IsMoved r added s
    → IsSameClock r s × ((s.stoppage ≡ true) × (s.period_pinned ≡ true))
stopped-IsSameClock r s added m =
    subst (λ c. IsSameClock r c × ((c.stoppage ≡ true) × (c.period_pinned ≡ true)))
      (sym m.stopped.equal) ((refl, refl, refl, refl, refl), (refl, refl))

to_past :
    (r : ClockReading) (added : Option String) (p : Period)
    → r.stoppage ≡ false
    → IsRunning r added p
    → ((with_running_stoppage r added).stoppage ≡ true)
      × ((with_running_stoppage r added).period ≡ p)
unfolding with_running_stoppage relabel_past period_of
to_past r added first_half h k = ground (arith, h, k.free, k.announced, k.past)
to_past r added second_half h k = ground (arith, h, k.free, k.announced, k.past)
to_past r added extra_first h k = ground (arith, h, k.free, k.announced, k.past)
to_past r added extra_second h k = ground (arith, h, k.free, k.announced, k.past)
to_past r added (unknown t) h k = ground (arith, k.past)

-- An announced allowance moves a reading into the stoppage of a period exactly when its clock has no
-- period and runs fewer than fifteen minutes past the end of that one. It keeps the frame and the
-- minutes of every reading that was not in stoppage, and changes nothing or pins the period.
pub with_running_stoppage_iff :
    (r : ClockReading) (added : Option String) (p : Period)
    → r.stoppage ≡ false
    → let s = with_running_stoppage r added in
      (((s.stoppage ≡ true) × (s.period ≡ p)) ↔ IsRunning r added p)
      × IsSameClock r s
      × ((s ≡ r) ⊎ ((s.stoppage ≡ true) × (s.period_pinned ≡ true)))
with_running_stoppage_iff r added p h = elim (with_running_stoppage-cases r added) [
  | inl kept ↦ (
    (
      λ k. absurd (ground (arith, h, ap (λ (c : ClockReading). c.stoppage) kept, k.0)),
      to_past r added p h,
    ),
    subst (IsSameClock r) (sym kept) (refl, refl, refl, refl, refl),
    inl kept,
  )
  | inr moved ↦
      let (same, pinned) = stopped-IsSameClock r _ added moved in
      ((λ k. moved_to r _ added p moved k.1, to_past r added p h), same, inr pinned)
]
