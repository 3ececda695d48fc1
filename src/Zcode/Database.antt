-- ===== src/Zcode/Database.antt =====
-- The tables that agent/internal/collector/zcode reads, and its queries. The tables are ZCode's:
-- a row has the columns that the queries name. A NULL is none; a key that is NULL and a value of
-- another type make a scan fail, and so does a fault of SQLite, which is an argument of each read.
use ai_control_hud.Prelude.{
  ℕ, ◌*◌, ℤ, String, Bool, true, false, ◌&&◌, Option, none, some, List, [], ◌∷◌, ◌++◌, map, ltb_ℤ,
  str_eq, take, select, is_none, sort_by, if◌then◌else◌, message, ok, err,
}
use ai_control_hud.Prelude.Result.{Result}
use ai_control_hud.Zcode.Values.{has}

pub record TargetRow : Type 0 where
  pub session_id : String
  pub objective : Option String
  pub status : Option String
  pub time_used_seconds : Option ℤ
  pub time_updated : Option ℤ
  pub summary_title : Option String
  pub active_run_started_at : Option ℤ
  pub active_run_last_seen_at : Option ℤ

pub record SessionRow : Type 0 where
  pub id : String
  pub directory : Option String
  pub path : Option String
  pub title : Option String
  pub summary_additions : Option ℤ
  pub summary_deletions : Option ℤ

pub record TodoRow : Type 0 where
  pub session_id : String
  pub content : String
  pub status : Option String
  pub position : ℤ

pub record UsageRow : Type 0 where
  pub session_id : String
  pub status : Option String
  pub started_at : Option ℤ

pub data Query : Type 0 where
  goal_query todo_query usage_query : Query
  session_query : String → Query

-- What `collectGoals` or `collectRuntimeSessionsExcluding` finds: `opens` that the file can be
-- opened, `columns` what can be read of a table's columns, `answers` that a query and its scans
-- succeed, and `broken_at` the row at which the scans of the usage rows fail.
pub record RuntimeDb : Type 0 where
  pub opens : Bool
  pub columns : String → Option (List String)
  pub answers : Query → Bool
  pub broken_at : Option ℕ
  pub targets : List TargetRow
  pub sessions : List SessionRow
  pub todos : List TodoRow
  pub usages : List UsageRow

all_in : List String → List String → Bool
all_in columns [] = true
all_in columns (r ∷ rs) = has columns r && all_in columns rs

-- The table is there and has the columns.
unfoldable pub verify_table_columns : Option (List String) → List String → Bool
unfolding all_in
verify_table_columns none required = false
verify_table_columns (some columns) required = all_in columns required

abbrev pub goal_target_columns : List String
goal_target_columns =
    "session_id" ∷ "objective" ∷ "status" ∷ "time_used_seconds" ∷ "time_updated" ∷ "summary_title"
    ∷ "active_run_started_at" ∷ "active_run_last_seen_at" ∷ []

abbrev pub goal_todo_columns : List String
goal_todo_columns = "session_id" ∷ "content" ∷ "status" ∷ "position" ∷ []

abbrev pub goal_session_columns : List String
goal_session_columns =
    "id" ∷ "directory" ∷ "path" ∷ "title" ∷ "summary_additions" ∷ "summary_deletions" ∷ []

abbrev pub runtime_session_columns : List String
runtime_session_columns = "id" ∷ "directory" ∷ "path" ∷ "title" ∷ []

abbrev pub runtime_usage_columns : List String
runtime_usage_columns = "session_id" ∷ "status" ∷ "started_at" ∷ []

unfoldable pub verify_goal_schema : RuntimeDb → Bool
unfolding verify_table_columns
verify_goal_schema db =
    verify_table_columns (db.columns "session_target") goal_target_columns
    && verify_table_columns (db.columns "todo") goal_todo_columns
    && verify_table_columns (db.columns "session") goal_session_columns

-- A value comes before another in descending order; NULL comes last.
abbrev pub greater : Option ℤ → Option ℤ → Bool
greater none y = false
greater (some x) none = true
greater (some x) (some y) = ltb_ℤ y x

abbrev pub coalesce : Option ℤ → Option ℤ → Option ℤ
coalesce none y = y
coalesce (some x) y = some x

abbrev null_session : SessionRow
null_session = record {
  id = "";
  directory = none;
  path = none;
  title = none;
  summary_additions = none;
  summary_deletions = none;
}

-- goalRow
pub record GoalRow : Type 0 where
  pub target : TargetRow
  pub session : SessionRow

abbrev pair_with : TargetRow → List SessionRow → List GoalRow
pair_with t [] = []
pair_with t (s ∷ ss) = record { target = t; session = s } ∷ pair_with t ss

abbrev or_null : List SessionRow → List SessionRow
or_null [] = null_session ∷ []
or_null (s ∷ ss) = s ∷ ss

left_join : List SessionRow → List TargetRow → List GoalRow
left_join sessions [] = []
left_join sessions (t ∷ ts) =
    pair_with t (or_null (select (λ s. str_eq s.id t.session_id) sessions)) ++ left_join sessions ts

abbrev sooner_seen : GoalRow → GoalRow → Bool
sooner_seen a b =
    greater (coalesce a.target.active_run_last_seen_at a.target.time_updated)
      (coalesce b.target.active_run_last_seen_at b.target.time_updated)

-- The query of `collectGoals`.
unfoldable pub goal_rows : RuntimeDb → ℕ → List GoalRow
unfolding left_join
goal_rows db limit = take (limit * 4) (sort_by sooner_seen (left_join db.sessions db.targets))

-- `loadTodos`: the rows of one session in the map it returns.
unfoldable pub todos_of : RuntimeDb → String → List TodoRow
todos_of db id =
    sort_by (λ a b. ltb_ℤ a.position b.position) (select (λ r. str_eq r.session_id id) db.todos)

pub record UsageMeta : Type 0 where
  pub usage : UsageRow
  pub meta : SessionRow

join_sessions : UsageRow → List SessionRow → List UsageMeta
join_sessions u [] = []
join_sessions u (s ∷ ss) =
    if str_eq s.id u.session_id
    then record { usage = u; meta = s } ∷ join_sessions u ss
    else join_sessions u ss

started_usages : List SessionRow → List UsageRow → List UsageMeta
unfolding join_sessions
started_usages sessions [] = []
started_usages sessions (u ∷ us) =
    let rest = started_usages sessions us in
    if is_none u.started_at then rest else join_sessions u sessions ++ rest

abbrev later_started : UsageMeta → UsageMeta → Bool
later_started a b = greater a.usage.started_at b.usage.started_at

-- The rows of a query up to the one whose scan fails.
abbrev pub scanned : {A : Type 0} → Option ℕ → List A → List (Option A)
scanned none rows = map some rows
scanned (some k) rows = map some (take k rows) ++ none ∷ []

-- The query of `collectRuntimeSessionsExcluding`.
unfoldable pub usage_rows : RuntimeDb → ℕ → List (Option UsageMeta)
unfolding started_usages
usage_rows db limit =
    scanned db.broken_at
      (take (limit * 8) (sort_by later_started (started_usages db.sessions db.usages)))

abbrev first_session : List SessionRow → Option SessionRow
first_session [] = none
first_session (s ∷ ss) = some s

-- `loadRuntimeSessionMeta`, whose own error is not shown further on.
unfoldable pub load_runtime_session_meta : RuntimeDb → String → Result (Option SessionRow)
load_runtime_session_meta db id =
    if db.answers (session_query id)
    then ok (first_session (select (λ s. str_eq s.id id) db.sessions))
    else err (message "session query failed")
