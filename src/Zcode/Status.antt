-- ===== src/Zcode/Status.antt =====
-- `normalizeStatus` of agent/internal/collector/zcode/collector.go and `backgroundTaskStatus` of
-- turn_log.go.
use ai_control_hud.Prelude.{
  ℕ, ◌+◌, String, Bool, true, false, ◌&&◌, ◌||◌, List, [], ◌∷◌, map, any, leb, ◌==◌, codes, trim,
  if◌then◌else◌,
}
use ai_control_hud.Domain.{TaskStatus}
use ai_control_hud.Domain.Spec.{IsKnownTask}

-- The lower case of a character, as far as it is ASCII: İ and the Kelvin sign have such a one too.
-- No other letter is compared.
lower : ℕ → ℕ
lower c =
    if leb b'A' c && leb c b'Z'
    then c + 32
    else if c == 304
    then b'i'
    else if c == 8490
    then b'k'
    else c

-- strings.ToLower(strings.TrimSpace(value))
unfoldable pub plain : String → List ℕ
unfolding lower trim
plain value = map lower (trim (codes value))

-- The class of the expression [\s-].
is_separator : ℕ → Bool
is_separator c = c == 9 || c == 10 || c == 12 || c == 13 || c == 32 || c == b'-'

-- Each run of separators as one `_`; `within` says that such a run goes on.
join_words : Bool → List ℕ → List ℕ
unfolding is_separator
join_words within [] = []
join_words within (c ∷ cs) =
    let inside = join_words true cs in
    let outside = join_words false cs in
    if is_separator c then (if within then inside else b'_' ∷ inside) else c ∷ outside

unfoldable pub same_codes : List ℕ → List ℕ → Bool
same_codes [] [] = true
same_codes (a ∷ l) (b ∷ m) = a == b && same_codes l m
same_codes _ _ = false

unfoldable pub is_one_of : List String → List ℕ → Bool
unfolding same_codes
is_one_of words value = any (λ w. same_codes (codes w) value) words

abbrev pub running_statuses : List String
running_statuses =
    "running" ∷ "in_progress" ∷ "inprogress" ∷ "active" ∷ "working" ∷ "executing" ∷ "streaming"
    ∷ "in_flight" ∷ "inflight" ∷ []

abbrev pub waiting_statuses : List String
waiting_statuses = "waiting" ∷ "queued" ∷ "pending" ∷ "ready" ∷ "todo" ∷ []

abbrev pub failed_statuses : List String
failed_statuses = "failed" ∷ "failure" ∷ "error" ∷ "errored" ∷ []

abbrev pub completed_statuses : List String
completed_statuses = "completed" ∷ "complete" ∷ "done" ∷ "success" ∷ "succeeded" ∷ "finished" ∷ []

unfoldable pub normalize_status : String → TaskStatus
unfolding plain join_words is_one_of
normalize_status value =
    let normalized = join_words false (plain value) in
    if is_one_of running_statuses normalized
    then TaskStatus.running
    else if is_one_of waiting_statuses normalized
    then TaskStatus.waiting
    else if is_one_of failed_statuses normalized
    then TaskStatus.failed
    else if is_one_of completed_statuses normalized
    then TaskStatus.completed
    else TaskStatus.unknown

picked-IsKnown :
    (a b c d : Bool)
    → IsKnownTask (
        if a
        then TaskStatus.running
        else if b
        then TaskStatus.waiting
        else if c
        then TaskStatus.failed
        else if d
        then TaskStatus.completed
        else TaskStatus.unknown)
picked-IsKnown true b c d = tt
picked-IsKnown false true c d = tt
picked-IsKnown false false true d = tt
picked-IsKnown false false false true = tt
picked-IsKnown false false false false = tt

pub normalize_status-IsKnown : (value : String) → IsKnownTask (normalize_status value)
unfolding normalize_status
normalize_status-IsKnown value =
    let is_in : List String → Bool = λ words. is_one_of words (join_words false (plain value)) in
    picked-IsKnown (is_in running_statuses) (is_in waiting_statuses) (is_in failed_statuses)
      (is_in completed_statuses)

pub data BackgroundTaskState : Type 0 where
  background_unknown background_running background_terminal : BackgroundTaskState

abbrev pub ended_words : List String
ended_words = "cancelled" ∷ "canceled" ∷ "stopped" ∷ "killed" ∷ "terminated" ∷ []

unfoldable pub background_task_status : String → BackgroundTaskState
unfolding normalize_status
background_task_status raw = elim (normalize_status raw) [
  | TaskStatus.running ↦ background_running
  | TaskStatus.waiting ↦ background_running
  | TaskStatus.completed ↦ background_terminal
  | TaskStatus.failed ↦ background_terminal
  | _ ↦ if is_one_of ended_words (plain raw) then background_terminal else background_unknown
]
