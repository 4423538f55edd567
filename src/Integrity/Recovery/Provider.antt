-- ===== src/Integrity/Recovery/Provider.antt =====
-- When a provider restriction ends
-- (internal/domain/providerintegrity/health_recovery.go, `ProviderIntegrityRecovered`).
use found_footy.Common.{
  ◌<◌, refl, not, both_branches, str_eq, suc, ◌+◌, ◌≤◌, String, true, false, some, List, [], ◌∷◌,
  ◌++◌, ◌≡◌, ◌⊎◌, inl, inr, arith, count, one_of, Option-cases, All, Time,
}
use found_footy.Integrity.Freshness.{observation_gap_limit}
use found_footy.Integrity.Recovery.{
  ProviderHealthProbe, ProviderStreak, ObservationSequence, empty_sequence, accepts, extend,
  unidentified, is_clean, gap_after, provider_turn, provider_loop, provider_integrity_recovered,
}

abbrev start : ProviderStreak
start = record { sequence = empty_sequence; clean = 0 }

clean-turn :
    (s : ProviderStreak) (p : ProviderHealthProbe)
    → (provider_turn s p).clean ≤ s.clean + count is_clean (p ∷ [])
unfolding provider_turn
clean-turn s p = ground arith

clean-loop :
    (s t : ProviderStreak) (ps : List ProviderHealthProbe)
    → provider_loop s ps ≡ some t
    → t.clean ≤ s.clean + count is_clean ps
unfolding provider_loop
clean-loop s t [] h = ground arith
clean-loop s t (p ∷ ps) h = ground (arith, clean-turn s p, clean-loop (provider_turn s p) t ps)

identified-loop :
    (s t : ProviderStreak) (ps : List ProviderHealthProbe)
    → provider_loop s ps ≡ some t
    → All (λ p. unidentified p.id p.at ≡ false) ps
unfolding provider_loop
identified-loop s t [] h = tt
identified-loop s t (p ∷ ps) h =
    (ground arith, identified-loop (provider_turn s p) t ps (ground arith))

-- A restriction ends only on the evidence of at least three clean probes, and only if every probe
-- of the history has an identity and a time.
pub recovered_needs_three :
    (ps : List ProviderHealthProbe)
    → provider_integrity_recovered ps ≡ true
    → (3 ≤ count is_clean ps) × All (λ p. unidentified p.id p.at ≡ false) ps
unfolding provider_integrity_recovered
recovered_needs_three ps h = elim (Option-cases (provider_loop start ps)) [
  | inl e ↦ absurd (ground arith)
  | inr (t, e) ↦ (ground (arith, clean-loop start t ps e), identified-loop start t ps e)
]

loop-append :
    (s t : ProviderStreak) (ps qs : List ProviderHealthProbe)
    → provider_loop s ps ≡ some t
    → provider_loop s (ps ++ qs) ≡ provider_loop t qs
unfolding provider_loop
loop-append s t [] qs h = ground arith
loop-append s t (p ∷ ps) qs h = ground (arith, loop-append (provider_turn s p) t ps qs)

accepts-identified :
    (s : ObservationSequence) (id : String) (at : Time)
    → accepts s id at ≡ true
    → unidentified id at ≡ false
unfolding accepts
accepts-identified s id at h = ground arith

-- A clean probe that the sequence takes without a gap lengthens the streak.
clean_turn_lem :
    (s : ProviderStreak) (p : ProviderHealthProbe)
    → accepts s.sequence p.id p.at ≡ true
    → is_clean p ≡ true
    → ((provider_turn s p).sequence ≡ extend s.sequence p.id p.at)
      × (1 ≤ (provider_turn s p).clean)
      × (gap_after s.sequence.at p.at ≡ false → (provider_turn s p).clean ≡ suc s.clean)
unfolding provider_turn
clean_turn_lem s p new clean = (ground arith, ground arith, λ near. ground arith)

clean_run_lem :
    (ps : List ProviderHealthProbe) (t : ProviderStreak) (a b c : ProviderHealthProbe)
    → provider_loop start ps ≡ some t
    → (is_clean a ≡ true) × (is_clean b ≡ true) × (is_clean c ≡ true)
    → accepts t.sequence a.id a.at ≡ true
    → accepts (extend t.sequence a.id a.at) b.id b.at ≡ true
    → accepts (extend (extend t.sequence a.id a.at) b.id b.at) c.id c.at ≡ true
    → (b.at ≤ a.at + observation_gap_limit) × (c.at ≤ b.at + observation_gap_limit)
    → provider_integrity_recovered (ps ++ a ∷ b ∷ c ∷ []) ≡ true
unfolding provider_integrity_recovered provider_loop
clean_run_lem ps t a b c e (clean_a, clean_b, clean_c) new_a new_b new_c (near_b, near_c) =
    let after_a = provider_turn t a in
    let after_b = provider_turn after_a b in
    let (took_a, one, _) = clean_turn_lem t a new_a clean_a in
    let new_b' : accepts after_a.sequence b.id b.at ≡ true = rw took_a new_b in
    let (took_b, _, two) = clean_turn_lem after_a b new_b' clean_b in
    let new_c' : accepts after_b.sequence c.id c.at ≡ true = rw (took_b, took_a) new_c in
    let (took_c, _, three) = clean_turn_lem after_b c new_c' clean_c in
    let grown = two (rw took_a (ground arith)) in
    let full = three (rw took_b (ground arith)) in
    rw (loop-append start t ps (a ∷ b ∷ c ∷ []) e) (
      ground (
        arith,
        accepts-identified t.sequence a.id a.at new_a,
        accepts-identified after_a.sequence b.id b.at new_b',
        accepts-identified after_b.sequence c.id c.at new_c',
        one,
        grown,
        full,
      ))

-- A probe has an identity, it is older than an instant, and its identity is none of three.
pub record IsBefore (at : Time) (a b c : String) (p : ProviderHealthProbe) : Type 0 where
  pub identified : unidentified p.id p.at ≡ false
  pub older : p.at < at
  pub other : (str_eq a p.id ≡ false) × (str_eq b p.id ≡ false) × (str_eq c p.id ≡ false)

-- The sequence is older than an instant and has not seen an identity.
record IsOpen (s : ObservationSequence) (id : String) (at : Time) : Type 0 where
  older : s.at < at
  unseen : one_of id s.ids ≡ false

accepts-IsOpen :
    (s : ObservationSequence) (id : String) (at : Time)
    → str_eq id "" ≡ false
    → IsOpen s id at
    → accepts s id at ≡ true
unfolding accepts
accepts-IsOpen s id at h o = ground (arith, h, o.older, o.unseen)

extend-IsOpen :
    (s : ObservationSequence) (other : String) (then_at : Time) (id : String) (past at : Time)
    → str_eq id other ≡ false
    → then_at < at
    → IsOpen s id past
    → IsOpen (extend s other then_at) id at
unfolding one_of
extend-IsOpen s other then_at id past at h k o = record {
  older = k;
  unseen = ground (arith, h, o.unseen);
}

turn-IsOpen :
    (s : ProviderStreak) (p : ProviderHealthProbe) (id : String) (at : Time)
    → str_eq id p.id ≡ false
    → p.at < at
    → IsOpen s.sequence id at
    → IsOpen (provider_turn s p).sequence id at
unfolding provider_turn
turn-IsOpen s p id at h k o =
    both_branches (λ (t : ProviderStreak). IsOpen t.sequence id at)
      (not (accepts s.sequence p.id p.at)) o (extend-IsOpen s.sequence p.id p.at id at at h k o)

-- The streak after a history, whose sequence has seen none of three identities.
record IsHistory (at : Time) (a b c : String) (s : ProviderStreak) (ps : List ProviderHealthProbe)
    : Type 0 where
  streak : ProviderStreak
  reached : provider_loop s ps ≡ some streak
  a_open : IsOpen streak.sequence a at
  b_open : IsOpen streak.sequence b at
  c_open : IsOpen streak.sequence c at

loop-IsHistory :
    (at : Time) (a b c : String) (s : ProviderStreak) (ps : List ProviderHealthProbe)
    → All (IsBefore at a b c) ps
    → IsOpen s.sequence a at
    → IsOpen s.sequence b at
    → IsOpen s.sequence c at
    → IsHistory at a b c s ps
unfolding provider_loop
loop-IsHistory at a b c s [] h x y z = record {
  streak = s;
  reached = refl;
  a_open = x;
  b_open = y;
  c_open = z;
}
loop-IsHistory at a b c s (p ∷ ps) (h, hs) x y z =
    let (fresh_a, fresh_b, fresh_c) = h.other in
    let rest =
      loop-IsHistory at a b c (provider_turn s p) ps hs (turn-IsOpen s p a at fresh_a h.older x)
        (turn-IsOpen s p b at fresh_b h.older y) (turn-IsOpen s p c at fresh_c h.older z) in
    record {
      streak = rest.streak;
      reached = rw h.identified rest.reached;
      a_open = rest.a_open;
      b_open = rest.b_open;
      c_open = rest.c_open;
    }

-- After any older probes with identities and times, three clean probes in a row with new and different
-- identities, each later than the one before it and at most the gap limit after it, end the
-- restriction.
pub three_clean_recover :
    (ps : List ProviderHealthProbe) (a b c : ProviderHealthProbe)
    → All (IsBefore a.at a.id b.id c.id) ps
    → (is_clean a ≡ true) × (is_clean b ≡ true) × (is_clean c ≡ true)
    → (str_eq a.id "" ≡ false) × (str_eq b.id "" ≡ false) × (str_eq c.id "" ≡ false)
    → (str_eq b.id a.id ≡ false) × (str_eq c.id a.id ≡ false) × (str_eq c.id b.id ≡ false)
    → (0 < a.at) × (a.at < b.at) × (b.at < c.at)
    → (b.at ≤ a.at + observation_gap_limit) × (c.at ≤ b.at + observation_gap_limit)
    → provider_integrity_recovered (ps ++ a ∷ b ∷ c ∷ []) ≡ true
unfolding one_of
three_clean_recover ps a b c before clean (a_id, b_id, c_id) (ba, ca, cb) (started, ab, bc) near =
    let h =
      loop-IsHistory a.at a.id b.id c.id start ps before (record { older = started; unseen = refl })
        (record { older = started; unseen = refl }) (record { older = started; unseen = refl }) in
    let s = h.streak.sequence in
    let b_open = extend-IsOpen s a.id a.at b.id a.at b.at ba ab h.b_open in
    let c_open =
      extend-IsOpen (extend s a.id a.at) b.id b.at c.id b.at c.at cb bc
        (record { older = ab; unseen = ground (arith, ca, h.c_open.unseen) }) in
    clean_run_lem ps h.streak a b c h.reached clean (accepts-IsOpen s a.id a.at a_id h.a_open)
      (accepts-IsOpen (extend s a.id a.at) b.id b.at b_id b_open)
      (accepts-IsOpen (extend (extend s a.id a.at) b.id b.at) c.id c.at c_id c_open) near

-- An accepted probe that is not clean undoes all evidence before it, and a probe whose identity was
-- seen or that is not newer than the last accepted one changes nothing.
last_probe_lem :
    (ps : List ProviderHealthProbe) (t : ProviderStreak) (p : ProviderHealthProbe)
    → provider_loop start ps ≡ some t
    → unidentified p.id p.at ≡ false
    → (accepts t.sequence p.id p.at ≡ true
        → is_clean p ≡ false
        → provider_integrity_recovered (ps ++ p ∷ []) ≡ false)
      × (((one_of p.id t.sequence.ids ≡ true) ⊎ (p.at ≤ t.sequence.at))
          → provider_integrity_recovered (ps ++ p ∷ []) ≡ provider_integrity_recovered ps)
unfolding provider_integrity_recovered
last_probe_lem ps t p e known =
    rw (loop-append start t ps (p ∷ []) e, e)
      (unfold provider_loop provider_turn accepts in
        (λ new dirty. ground arith, λ old. ground arith))
