-- ===== src/Integrity/Collector/Poll.antt =====
-- internal/domain/providerintegrity/collector_types.go: which polls are accepted.
use Prim.Native.String.{len}
use found_footy.Common.{
  ℕ, ◌≤◌, ◌<◌, ◌≡◌, ◌≢◌, ◌↔◌, refl, Bool, true, false, not, List, [], ◌∷◌, length, any, All, str_eq,
  leb, ◌==◌, ◌&&◌, arith, zero_time,
}
use found_footy.Integrity.Facts.{FixtureComparison}
use found_footy.Integrity.Collector.{
  Availability, usable, transport, contract, unobserved, HealthObservation, HealthPoll,
}

abbrev facts_fit : ℕ → FixtureComparison → Bool
facts_fit fixture c =
    (c.stored.fixture_id == fixture)
    && ((c.observed.fixture_id == fixture)
        && (leb (length c.stored_events) 256
            && (leb (length c.confirmed_events) 256 && leb (length c.observed_events) 256)))

-- the `switch` over the availability
unfoldable pub observation_valid : Availability → ℕ → FixtureComparison → Bool
observation_valid usable fixture c = facts_fit fixture c
observation_valid transport fixture c = true
observation_valid contract fixture c = true
observation_valid unobserved fixture c = true
observation_valid (Availability.unknown s) fixture c = false

-- the loop over the observations
unfoldable pub observations_valid : List HealthObservation → (seen : List ℕ) → Bool
observations_valid [] seen = true
observations_valid (o ∷ os) seen =
    not (o.fixture_id == 0)
    && (not (any (λ id. id == o.fixture_id) seen)
        && (leb (len o.failure_reason) 100
            && (observation_valid o.availability o.fixture_id o.comparison
                && observations_valid os (o.fixture_id ∷ seen))))

-- `HealthPoll.Validate`: is there no error?
unfoldable pub poll_valid : HealthPoll → Bool
poll_valid p =
    not (str_eq p.id "")
    && (leb (len p.id) 200
        && (not (p.at == zero_time)
            && (not (length p.observations == 0)
                && (leb (length p.observations) 1024 && observations_valid p.observations []))))

-- What a valid observation is, apart from the others.
abbrev pub IsFit : HealthObservation → Type 0
IsFit o =
    (o.fixture_id ≢ 0)
    × (len o.failure_reason ≤ 100)
    × (observation_valid o.availability o.fixture_id o.comparison ≡ true)

-- The observations are of different fixtures.
abbrev pub AreApart : List HealthObservation → Type 0
AreApart [] = Unit
AreApart (o ∷ os) = All (λ other. other.fixture_id ≢ o.fixture_id) os × AreApart os

abbrev Unseen : List ℕ → List HealthObservation → Type 0
Unseen seen = All (λ o. any (λ id. id == o.fixture_id) seen ≡ false)

split_seen :
    (id : ℕ) (seen : List ℕ) (os : List HealthObservation)
    → Unseen (id ∷ seen) os ↔ (All (λ o. o.fixture_id ≢ id) os × Unseen seen os)
split_seen id seen [] = (λ h. (tt, tt), λ h. tt)
split_seen id seen (o ∷ os) =
    let rest = split_seen id seen os in
    (
      λ h. (((λ same. ground arith), (rest.0 h.1).0), (ground arith, (rest.0 h.1).1)),
      λ (apart, fresh). (ground (arith, apart.0, fresh.0), rest.1 (apart.1, fresh.1)),
    )

none_seen : (os : List HealthObservation) → Unseen [] os
none_seen [] = tt
none_seen (o ∷ os) = (refl, none_seen os)

observations_valid_iff :
    (os : List HealthObservation) (seen : List ℕ)
    → (observations_valid os seen ≡ true) ↔ (All IsFit os × AreApart os × Unseen seen os)
unfolding observations_valid
observations_valid_iff [] seen = (λ h. (tt, tt, tt), λ h. refl)
observations_valid_iff (o ∷ os) seen =
    let rest = observations_valid_iff os (o.fixture_id ∷ seen) in
    let split = split_seen o.fixture_id seen os in
    (
      λ h.
          let (fit, apart, fresh) = rest.0 (ground arith) in
          let (others, fresh') = split.0 fresh in
          (
            (((λ zero_id. ground arith), ground arith, ground arith), fit),
            (others, apart),
            (ground arith, fresh'),
          ),
      λ (fit, apart, fresh).
          let more = rest.1 (fit.1, apart.1, split.1 (apart.0, fresh.1)) in
          ground (arith, more, fit.0, fresh.0),
    )

-- Validate accepts a poll exactly when it has an identity of at most 200 bytes and a time, and
-- between 1 and 1024 observations, of different fixtures, each valid by itself.
pub poll_valid_iff :
    (p : HealthPoll)
    → (poll_valid p ≡ true) ↔ (
        (str_eq p.id "" ≡ false)
        × (len p.id ≤ 200)
        × (p.at ≢ zero_time)
        × (0 < length p.observations)
        × (length p.observations ≤ 1024)
        × All IsFit p.observations
        × AreApart p.observations)
unfolding poll_valid
poll_valid_iff p =
    let inner = observations_valid_iff p.observations [] in
    (
      λ h.
          let (fit, apart, fresh) = inner.0 (ground arith) in
          (
            ground arith,
            ground arith,
            (λ same. ground arith),
            ground arith,
            ground arith,
            fit,
            apart,
          ),
      λ (named, short, timed, some_seen, few, fit, apart).
          let more = inner.1 (fit, apart, none_seen p.observations) in
          ground (arith, more, named, short, timed, some_seen, few),
    )
