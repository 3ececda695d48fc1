-- ===== src/Examples/OfTurns.antt =====
-- The theorems on the turn log, at the lines of one session and one line of another.
use ai_control_hud.Prelude.{
  ◌≡◌, ◌≢◌, refl, String, true, false, none, some, List, [], ◌∷◌, any, str_eq, eq_iff, lookup,
  is_none, not, arith, if◌then◌else◌,
}
use ai_control_hud.Domain.{Time}
use ai_control_hud.Zcode.TurnLog.{
  Root, Note, no_turn, turn_started, turn_ended, tracking_started, session_updated, state_or_zero,
  read_lines, is_busy, note,
}
use ai_control_hud.Zcode.Status.{background_task_status, normalize_status, plain, is_one_of}
use ai_control_hud.Zcode.Activity.{replay, last_turn, last_task, replay_lem}
use ai_control_hud.Zcode.Lines.{names, turn_of, task_of, read_lines_lem}
use ai_control_hud.Zcode.Since.{busy_since, started_at_lem}

abbrev line : String → String → Time → Root
line id event now = record {
  own = record {
    text = λ k. if str_eq k "event" then event else if str_eq k "sessionId" then id else "";
    timestamp = some now;
  };
  payload = none;
  context = none;
}

abbrev lines : List Root
lines =
    line "s1" "Turn.Started" 5
    ∷ line "s2" "turn.failed" 6
    ∷ line "s1" "turn.completed" 7
    ∷ line "" "turn.started" 8
    ∷ line "s3" " " 9
    ∷ []

abbrev entries : List (Note × Time)
entries =
    (turn_started, 5)
    ∷ (session_updated "b1" "In Progress", 6)
    ∷ (turn_ended, 7)
    ∷ (tracking_started, 8)
    ∷ []

abbrev task : String
task = "b1"

abbrev no_name : String
no_name = ""

task-ne : task ≢ no_name
task-ne e = let same : str_eq task no_name ≡ true = (eq_iff task no_name).1 e in cc

read_lines_lem_example :
    (is_none (lookup "s1" (read_lines lines [])) ≡ not (any (names "s1") lines))
    × ((state_or_zero (lookup "s1" (read_lines lines []))).is_open ≡ turn_of "s1" lines false)
    × (any (str_eq "b1") (state_or_zero (lookup "s1" (read_lines lines []))).background_tasks
        ≡ task_of "s1" "b1" lines false)
read_lines_lem_example = read_lines_lem "s1" task lines task-ne

replay_lem_example :
    ((replay entries no_turn).is_open ≡ last_turn entries false)
    × (any (str_eq "b1") (replay entries no_turn).background_tasks ≡ last_task "b1" entries false)
replay_lem_example = replay_lem "b1" entries no_turn task-ne

at_work : is_busy (replay entries no_turn) ≡ true
unfolding note background_task_status normalize_status plain is_one_of
at_work = refl

started_at_lem_example : busy_since entries no_turn none ≡ some (replay entries no_turn).started_at
started_at_lem_example =
    started_at_lem entries (omega arith, (omega arith, (omega arith, (omega arith, tt)))) at_work
