-- ===== src/Examples/Samples.antt =====
-- A number for `float64`, codecs that know one value, a snapshot, and an event.
use ai_control_hud.Prelude.{
  ℕ, zero, suc, pos, ◌≡◌, refl, String, true, Option, none, some, Bool-cases, inl, inr, ap, sym,
  ltb, str_eq, eq_iff, arith,
}
use native.Mathlib.Decide.{ℕ_discrete}
use ai_control_hud.Domain.{
  Time, HudState, SourceHealth, SourceStatus, TaskStatus, TaskSummary, Floating, OverallStatusValue,
}
use ai_control_hud.Events.{Event, EventType}
use ai_control_hud.Events.Outbox.{Env}
use ai_control_hud.Hub.Store.{HubEnv, HubLaws}

abbrev pub whole : Floating ℕ
whole = record { less = ltb; zero = 0; hundred = 100 }

-- The text of t letters, and the length of a text.
abbrev pub letters : Time → String
letters zero = ""
letters (suc t) = String.◌∷◌ "a" (letters t)

abbrev pub letter_count : String → ℕ
letter_count String.[] = 0
letter_count (String.◌∷◌ c s) = suc (letter_count s)

abbrev pub read_letters : String → Option Time
read_letters s = some (letter_count s)

count-letters : (t : Time) → letter_count (letters t) ≡ t
count-letters zero = refl
count-letters (suc t) = ground (arith, count-letters t)

abbrev pub source_down : SourceHealth
source_down = record {
  status = SourceStatus.error;
  observed_at = 5;
  last_success_at = none;
  message = some "offline";
}

abbrev pub sample_state : HudState ℕ
sample_state = record {
  schema_version = pos 1;
  server = record { version = "1.0"; time = 7; uptime_seconds = pos 2 };
  overall = record { status = OverallStatusValue.degraded };
  zcode = record { health = source_down; summary = none; tasks = none };
  command_code = record { health = source_down; usage = none };
}

abbrev pub done_task : TaskSummary
done_task = record {
  id = "t1";
  title = "Build";
  workspace = none;
  status = TaskStatus.completed;
  started_at = none;
  updated_at = some 3;
  duration_seconds = none;
  activity = none;
  changes = none;
}

abbrev pub sample_event : Event
sample_event = record {
  event_id = "event-0001";
  event_type = EventType.completed;
  occurred_at = 3;
  task = record { id = "t1"; title = "Build"; workspace = none; status = TaskStatus.completed };
}

String_discrete : Discrete String
String_discrete s t = elim (Bool-cases (str_eq s t)) [
  | inl same ↦ yes ((eq_iff s t).0 same)
  | inr other ↦ no (λ e. ground (arith, eq_iff s t))
]

pub state_discrete : Discrete (HudState ℕ)
state_discrete = hlevel (ℕ_discrete, String_discrete)

pub event_discrete : Discrete Event
event_discrete = hlevel (ℕ_discrete, String_discrete)

-- A codec for the one value `v`.
module _ {A : Type 0} (d : Discrete A) (v : A) where
  abbrev on_match : {B : Type 0} → Dec B → Option String
  on_match (yes _) = some "sample"
  on_match (no _) = none

  unfoldable pub encode_one : A → Option String
  encode_one a = on_match (d a v)

  abbrev pub decode_one : String → Option A
  decode_one _ = some v

  matched : (m : Dec (v ≡ v)) → on_match m ≡ some "sample"
  matched (yes _) = refl
  matched (no n) = absurd (n refl)

  encode_self : encode_one v ≡ some "sample"
  unfolding encode_one
  encode_self = matched (d v v)

  the_value : (a : A) (j : String) (m : Dec (a ≡ v)) → on_match m ≡ some j → a ≡ v
  the_value a j (yes e) h = e
  the_value a j (no n) h = cc

  decode-encode : (a : A) (j : String) → encode_one a ≡ some j → decode_one j ≡ some a
  unfolding encode_one
  decode-encode a j h = ap some (sym (the_value a j (d a v) h))

abbrev pub hub_env : HubEnv ℕ
hub_env = record {
  encode_state = encode_one state_discrete sample_state;
  decode_state = decode_one state_discrete sample_state;
  encode_event = encode_one event_discrete sample_event;
  decode_event = decode_one event_discrete sample_event;
  format = letters;
  parse = read_letters;
}

pub hub_laws : HubLaws hub_env
hub_laws = record {
  state_codec = decode-encode state_discrete sample_state;
  event_codec = decode-encode event_discrete sample_event;
  time_codec = λ t. ap some (count-letters t);
}

pub encodes_state : hub_env.encode_state sample_state ≡ some "sample"
encodes_state = encode_self state_discrete sample_state

pub encodes_event : hub_env.encode_event sample_event ≡ some "sample"
encodes_event = encode_self event_discrete sample_event

-- The agent's side: every event has a text.
abbrev pub outbox_env : Env
outbox_env = record {
  encode = λ e. some e.event_id;
  decode = λ _. none;
  format = letters;
  parse = read_letters;
  julian = letter_count;
  wal = true;
}
