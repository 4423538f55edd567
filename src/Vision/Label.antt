-- ===== src/Vision/Label.antt =====
-- internal/domain/vision/period_label.go: the period that a frame shows.
use found_footy.Common.{
  ℕ, String, Option, none, some, List, [], ◌∷◌, map, codes, ◌==◌, if◌then◌else◌,
}
use found_footy.Vision.{
  Period, first_half, second_half, extra_first, extra_second, period_eq, period_valid,
  FrameObservation,
}
use found_footy.Vision.Scan.{is_space, to_upper, is_one_of}

-- the replacer of superscript letters
abbrev plain_letter : ℕ → ℕ
plain_letter c =
    if c == 738
    then b's'
    else if c == 7511
    then b't'
    else if c == 7497
    then b'e'
    else if c == 691
    then b'r'
    else if c == 7496
    then b'd'
    else if c == 8319
    then b'n'
    else c

-- `strings.Join(strings.Fields(text), "")`
unfoldable pub without_spaces : List ℕ → List ℕ
without_spaces [] = []
without_spaces (c ∷ s) = let rest = without_spaces s in if is_space c then rest else c ∷ rest

abbrev pub label_period : List ℕ → Option Period
label_period text =
    if is_one_of text ("1H" ∷ "H1" ∷ "1ST" ∷ "1RE" ∷ "1ER" ∷ "1P" ∷ "HALF1" ∷ "1STHALF" ∷ [])
    then some first_half
    else if is_one_of text ("2H" ∷ "H2" ∷ "2ND" ∷ "2E" ∷ "2P" ∷ "HALF2" ∷ "2NDHALF" ∷ [])
    then some second_half
    else if is_one_of text ("ET1" ∷ "1ET" ∷ "1STEXTRATIME" ∷ [])
    then some extra_first
    else if is_one_of text ("ET2" ∷ "2ET" ∷ "2NDEXTRATIME" ∷ [])
    then some extra_second
    else none

-- `PeriodFromLabel`, none where it recognizes nothing
unfoldable pub period_from_label : String → Option Period
period_from_label label = label_period (to_upper (without_spaces (map plain_letter (codes label))))

-- What `framePeriodEvidence` returns: a period, no evidence, or two that disagree.
pub data PeriodEvidence : Type 0 where
  shown : Period → PeriodEvidence
  not_shown conflicting : PeriodEvidence

abbrev pub literal_evidence : Option Period → PeriodEvidence
literal_evidence none = not_shown
literal_evidence (some p) = shown p

abbrev pub compared : Option Period → (reported : Period) → PeriodEvidence
compared none reported = conflicting
compared (some p) reported =
    if period_valid reported
    then (if period_eq p reported then shown p else conflicting)
    else conflicting

abbrev pub reported_evidence : Option Period → PeriodEvidence
reported_evidence none = not_shown
reported_evidence (some p) = if period_valid p then shown p else conflicting

abbrev pub evidence_of :
    (literal : Option (Option Period)) → (reported : Option Period) → PeriodEvidence
evidence_of none reported = reported_evidence reported
evidence_of (some literal) none = literal_evidence literal
evidence_of (some literal) (some reported) = compared literal reported

abbrev pub label_of : Option String → Option (Option Period)
label_of none = none
label_of (some label) = some (period_from_label label)

-- `framePeriodEvidence`
unfoldable pub frame_period_evidence : FrameObservation → PeriodEvidence
frame_period_evidence f = evidence_of (label_of f.period_label) f.period
