-- ===== src/Presentation/Clock.antt =====
-- The order of events by their clocks (internal/contract/eventpresentation/presentation.go, Build).
use found_footy.Common.{Bool, true, false, ◌≡◌, refl, ◌&&◌, ◌||◌, arith}
use found_footy.Common.Int.{ltb_ℤ, eqb_ℤ}
use found_footy.Event.{Event}
use found_footy.Presentation.{same_clock, int_value, sorts_before}

-- Is the clock of the first event earlier?
unfoldable pub earlier : Event → Event → Bool
earlier a b =
    ltb_ℤ a.minute b.minute
    || (eqb_ℤ a.minute b.minute && ltb_ℤ (int_value a.extra) (int_value b.extra))

unfoldable pub level : Event → Event → Bool
level a b = same_clock a b

pub earlier-level : (a b : Event) → level a b ≡ true → earlier a b ≡ false
unfolding earlier level
earlier-level a b h = ground (arith, h)

pub neither_level : (a b : Event) → earlier a b ≡ false → earlier b a ≡ false → level a b ≡ true
unfolding earlier level
neither_level a b h k = ground (arith, h, k)

pub level_sym : (a b : Event) → level a b ≡ level b a
unfolding level
level_sym a b = ground arith

pub level_trans : (a b c : Event) → level a b ≡ true → level b c ≡ level a c
unfolding level
level_trans a b c h = ground (arith, h)

pub not_later : (x d e : Event) → earlier d x ≡ false → earlier d e ≡ true → earlier x e ≡ true
unfolding earlier
not_later x d e h k = ground (arith, h, k)

pub not_earlier : (x y e : Event) → earlier y x ≡ false → earlier e x ≡ true → earlier e y ≡ true
unfolding earlier
not_earlier x y e h k = ground (arith, h, k)

pub earlier_asym : (a b : Event) → earlier a b ≡ true → earlier b a ≡ false
unfolding earlier
earlier_asym a b h = ground (arith, h)

pub sorts_before-earlier : (a b : Event) → sorts_before a b ≡ true → earlier b a ≡ false
unfolding earlier
sorts_before-earlier a b h = ground (arith, h)

pub sorts_before_not : (a b : Event) → sorts_before a b ≡ false → earlier a b ≡ false
unfolding earlier
sorts_before_not a b h = ground (arith, h)

pub not_earlier_trans :
    (a b c : Event) → earlier a b ≡ false → earlier b c ≡ false → earlier a c ≡ false
unfolding earlier
not_earlier_trans a b c h k = ground (arith, h, k)

pub same_clock_level : (a b : Event) → same_clock a b ≡ level a b
unfolding level
same_clock_level a b = refl

pub level_refl : (a : Event) → level a a ≡ true
unfolding level
level_refl a = ground arith
