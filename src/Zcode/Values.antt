-- ===== src/Zcode/Values.antt =====
-- The helpers of agent/internal/collector/zcode/collector.go on numbers, times and texts. A
-- `sql.NullString` and a `sql.NullInt64` are Options.
use ai_control_hud.Prelude.{
  ℕ, ◌+◌, ◌-◌, ◌*◌, ◌/◌, ◌^◌, min, ℤ, pos, negsuc, String, Bool, true, ◌&&◌, ◌||◌, Option, none,
  some, List, [], ◌∷◌, ltb, leb, ◌==◌, str_eq, str_append, any, codes, size, trim_with, trim_text,
  fields, cut, if◌then◌else◌,
}
use ai_control_hud.Domain.{Time, TaskStatus, after, task_eq}

-- `.String` of a NullString.
abbrev pub text_or_empty : Option String → String
text_or_empty none = ""
text_or_empty (some s) = s

-- `_, ok := set[key]`, of a set given by its keys.
abbrev pub has : List String → String → Bool
has keys k = any (str_eq k) keys

unfoldable pub bounded : ℤ → ℕ → ℕ → ℕ
bounded (negsuc n) fallback maximum = fallback
bounded (pos n) fallback maximum = if n == 0 then fallback else if ltb maximum n then maximum else n

-- `parsed` is what strconv.Atoi gives of a text.
unfoldable pub bounded_positive_env : (String → Option ℤ) → String → ℕ → ℕ → ℕ
bounded_positive_env atoi raw fallback maximum =
    let value = trim_text raw in
    if str_eq value ""
    then fallback
    else elim (atoi value) [ none ↦ fallback | some parsed ↦ bounded parsed fallback maximum ]

-- `len(value) <= limit`, or else its first `limit` bytes.
unfoldable pub truncate : String → ℕ → String
truncate value limit = if leb (size (codes value)) limit then value else cut limit value

unfoldable pub first_non_empty : ℕ → List String → String
first_non_empty limit [] = ""
first_non_empty limit (v ∷ vs) =
    if str_eq (trim_text v) "" then first_non_empty limit vs else truncate (trim_text v) limit

unfoldable pub optional_string : String → Option String
optional_string value = if str_eq value "" then none else some value

abbrev pub is_slash : ℕ → Bool
is_slash c = c == b'/' || c == b'\\'

abbrev pub last_of : List String → Option String
last_of [] = none
last_of (p ∷ []) = some p
last_of (p ∷ q ∷ ps) = last_of (q ∷ ps)

unfoldable pub workspace_label : List String → String
workspace_label [] = ""
workspace_label (candidate ∷ candidates) =
    let raw = trim_with is_slash (trim_text candidate) in
    let rest = workspace_label candidates in
    if str_eq raw ""
    then rest
    else elim (last_of (fields is_slash raw)) [ none ↦ rest | some part ↦ truncate part 500 ]

-- The Unix epoch in seconds after the zero time.
abbrev pub unix_epoch : ℕ
unix_epoch = 62135596800

unfoldable pub timestamp : Option ℤ → Option Time
timestamp none = none
timestamp (some (negsuc n)) = none
timestamp (some (pos raw)) =
    if raw == 0
    then none
    else if ltb 100000000000000 raw
    then some (unix_epoch * 10 ^ 9 + raw * 10 ^ 3)
    else if ltb 100000000000 raw
    then some (unix_epoch * 10 ^ 9 + raw * 10 ^ 6)
    else some ((unix_epoch + raw) * 10 ^ 9)

unfoldable pub nonnegative_int : Option ℤ → Option ℤ
nonnegative_int none = none
nonnegative_int (some (negsuc n)) = none
nonnegative_int (some (pos n)) = some (pos n)

-- `ageSeconds` in nanoseconds: `Sub` stops at the largest Duration.
unfoldable pub age : Time → Time → ℕ
age now moment = if after moment now then 0 else min (now - moment) (2 ^ 63 - 1)

-- `ageSeconds(…) <= float64(seconds)`; the bounds are below 2 ^ 22 seconds, where a float64 still
-- tells nanoseconds.
unfoldable pub is_within : Time → Time → ℕ → Bool
unfolding age
is_within now moment seconds = leb (age now moment) (seconds * 10 ^ 9)

-- `int(ageSeconds(…))`, without the rounding of a float64.
unfoldable pub whole_seconds : Time → Time → ℤ
unfolding age
whole_seconds now moment = pos (age now moment / 10 ^ 9)

unfoldable pub contains_status : List TaskStatus → TaskStatus → Bool
contains_status values target = any (λ s. task_eq s target) values

unfoldable pub all_completed : List TaskStatus → Bool
all_completed [] = true
all_completed (s ∷ ss) = task_eq s TaskStatus.completed && all_completed ss

-- `digest` is the hexadecimal text of the first 16 bytes of a SHA-256 sum.
module _ (digest : String → String) where
  unfoldable pub goal_id : String → String
  goal_id session_id = str_append "zcode-goal-" (digest session_id)

  unfoldable pub task_id_hash : String → String → String
  task_id_hash workspace_key task_id =
      str_append "zcode-" (digest (str_append workspace_key (str_append "\0" task_id)))
