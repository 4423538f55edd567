-- ===== src/Event/Key.antt =====
-- internal/domain/event/event.go: the natural key of an event, and a new event.
use Prim.Native.Char.{Char}
use Prim.Native.String.{◌++◌ as ◌+++◌}
use found_footy.Common.{
  ℕ, zero, suc, ◌/◌, ◌%◌, String, false, Option, none, some, ◌==◌, if◌then◌else◌, Time,
}
use found_footy.Common.Int.{ℤ}
use found_footy.Event.{
  Event, EventType, Team, Player, goal, card, subst, var, missed_penalty, unknown,
}

-- the text of an event type
unfoldable pub type_text : EventType → String
type_text goal = "goal"
type_text card = "card"
type_text subst = "subst"
type_text var = "var"
type_text missed_penalty = "missed penalty"
type_text (unknown s) = s

abbrev pub digit : ℕ → Char
digit zero = "0"
digit (suc zero) = "1"
digit (suc (suc zero)) = "2"
digit (suc (suc (suc zero))) = "3"
digit (suc (suc (suc (suc zero)))) = "4"
digit (suc (suc (suc (suc (suc zero))))) = "5"
digit (suc (suc (suc (suc (suc (suc zero)))))) = "6"
digit (suc (suc (suc (suc (suc (suc (suc zero))))))) = "7"
digit (suc (suc (suc (suc (suc (suc (suc (suc zero)))))))) = "8"
digit _ = "9"

-- the decimal digits of a number before a text; a round divides the number by ten, so that the
-- number is fuel enough
unfoldable pub decimal : (fuel n : ℕ) → String → String
decimal zero n out = out
decimal (suc fuel) n out =
    let rest = decimal fuel (n / 10) (String.◌∷◌ (digit (n % 10)) out) in
    if n == 0 then out else rest

-- `strconv.Itoa`, and `%d`, of a number that is not negative
unfoldable pub itoa : ℕ → String
itoa n = if n == 0 then "0" else decimal n n ""

abbrev pub player_text : Option ℕ → String
player_text none = "unknown"
player_text (some id) = itoa id

-- `ComposeNaturalKey`
unfoldable pub compose_natural_key :
    (team_id : ℕ) → (player_id : Option ℕ) → EventType → (seq : ℕ) → String
compose_natural_key team_id player_id t seq =
    (itoa team_id +++ "_" +++ player_text player_id +++ "_" +++ type_text t) +++ "_" +++ itoa seq

-- `New`; `id` is the generated identifier, and a nil assist is none
unfoldable pub new_event :
    (id fixture_id : ℕ)
    → Team
    → Player
    → EventType
    → (detail : String) → (minute : ℤ) → (extra : Option ℤ) → (seq : ℕ) → Time
    → Event
new_event id fixture_id team player t detail minute extra seq at = record {
  id = id;
  fixture_id = fixture_id;
  natural_key = compose_natural_key team.id player.id t seq;
  event_type = t;
  detail = detail;
  team = team;
  player = player;
  assist = record { id = none; name = none };
  minute = minute;
  extra = extra;
  first_seen_at = at;
  debounce_count = 0;
  downstream_triggered = false;
  monitor_complete = false;
  download_complete = false;
  removed = false;
  removed_reason = none;
  removed_at = none;
  created_at = at;
  updated_at = at;
}
