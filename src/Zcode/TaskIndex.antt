-- ===== src/Zcode/TaskIndex.antt =====
-- `collectTaskIndexExcluding` of agent/internal/collector/zcode/collector.go.
use ai_control_hud.Prelude.{
  ℕ, ◌+◌, ◌*◌, ◌/◌, ◌^◌, ℤ, pos, sub_ℕ, ltb_ℤ, String, Bool, true, false, not, ◌&&◌, ◌||◌, Option,
  none, some, List, [], ◌∷◌, ◌++◌, length, leb, take, select, sort_by, str_eq, trim_text,
  if◌then◌else◌, message, ok, err,
}
use ai_control_hud.Prelude.Result.{Result}
use ai_control_hud.Domain.{Time, TaskStatus, TaskSummary, ZCodeSummary}
use ai_control_hud.Zcode.Status.{normalize_status}
use ai_control_hud.Zcode.Counts.{Snapshot, no_counts, count_statuses}
use ai_control_hud.Zcode.Database.{verify_table_columns, greater}
use ai_control_hud.Zcode.Goal.{Settings}
use ai_control_hud.Zcode.Goals.{limit_of}
use ai_control_hud.Zcode.Values.{
  text_or_empty, has, bounded, truncate, optional_string, workspace_label, timestamp, task_id_hash,
  unix_epoch,
}

pub record IndexRow : Type 0 where
  pub workspace_key : String
  pub workspace_path : String
  pub task_id : String
  pub title : String
  pub task_status : Option String
  pub updated_at : Option ℤ
  pub pinned : Option ℤ
  pub archived : Option ℤ
  pub deleted : Option ℤ

-- `opens` and `columns` as in a `RuntimeDb`. The two queries are two reads: `listed` and `counted`
-- are the rows of the table at each, and `lists` and `counts` whether it succeeds with its scans.
pub record IndexDb : Type 0 where
  pub opens : Bool
  pub columns : Option (List String)
  pub lists : Bool
  pub listed : List IndexRow
  pub counts : Bool
  pub counted : List IndexRow

abbrev pub task_index_columns : List String
task_index_columns =
    "workspace_key" ∷ "workspace_path" ∷ "task_id" ∷ "title" ∷ "task_status" ∷ "updated_at"
    ∷ "pinned" ∷ "archived" ∷ "deleted" ∷ []

-- `now` less the greatest age, in Unix milliseconds.
unfoldable pub cutoff_ms : Settings → Time → ℤ
cutoff_ms c now =
    sub_ℕ (now / 10 ^ 6)
      (unix_epoch * 10 ^ 3 + bounded c.task_max_age_seconds 86400 2592000 * 10 ^ 3)

abbrev pub is_zero_value : Option ℤ → Bool
is_zero_value (some (pos n)) = leb n 0
is_zero_value _ = false

abbrev pub at_least : ℤ → Option ℤ → Bool
at_least bound none = false
at_least bound (some n) = not (ltb_ℤ n bound)

-- WHERE archived = 0 AND deleted = 0 AND updated_at >= ?
unfoldable pub in_window : ℤ → IndexRow → Bool
in_window cutoff r =
    is_zero_value r.archived && is_zero_value r.deleted && at_least cutoff r.updated_at

-- ORDER BY pinned DESC, updated_at DESC
unfoldable pub pinned_first : IndexRow → IndexRow → Bool
pinned_first a b =
    greater a.pinned b.pinned
    || (not (greater b.pinned a.pinned) && greater a.updated_at b.updated_at)

unfoldable pub index_rows : IndexDb → ℤ → ℕ → List IndexRow
unfolding in_window pinned_first
index_rows db cutoff limit =
    take (limit * 4) (sort_by pinned_first (select (in_window cutoff) db.listed))

abbrev pub untitled : String → String
untitled title = if str_eq title "" then "(untitled task)" else title

-- The statuses of the rows that are counted.
unfoldable pub counted_statuses : List String → List IndexRow → List TaskStatus
counted_statuses exclude [] = []
counted_statuses exclude (r ∷ rs) =
    let rest = counted_statuses exclude rs in
    if has exclude r.task_id then rest else normalize_status (text_or_empty r.task_status) ∷ rest

unfoldable pub index_counts : IndexDb → ℤ → List String → ZCodeSummary
unfolding counted_statuses in_window count_statuses
index_counts db cutoff exclude =
    count_statuses no_counts (counted_statuses exclude (select (in_window cutoff) db.counted))

module _ (digest : String → String) where
  unfoldable pub index_task : IndexRow → TaskSummary
  index_task r = record {
    id = task_id_hash digest r.workspace_key r.task_id;
    title = untitled (truncate (trim_text r.title) 500);
    workspace = optional_string (workspace_label (r.workspace_path ∷ r.workspace_key ∷ []));
    status = normalize_status (text_or_empty r.task_status);
    started_at = none;
    updated_at = timestamp r.updated_at;
    duration_seconds = none;
    activity = none;
    changes = none;
  }

  -- The loop over the listed rows: `tasks` are those so far.
  unfoldable pub add_index_rows :
      ℕ → List String → List IndexRow → List TaskSummary → List TaskSummary
  unfolding index_task
  add_index_rows limit exclude [] tasks = tasks
  add_index_rows limit exclude (r ∷ rs) tasks = elim (has exclude r.task_id) [
    | true ↦ add_index_rows limit exclude rs tasks
    | false ↦ elim (leb limit (length tasks)) [
      | true ↦ add_index_rows limit exclude rs tasks
      | false ↦ add_index_rows limit exclude rs (tasks ++ index_task r ∷ [])
    ]
  ]

  unfoldable pub collect_task_index_excluding :
      Settings → Time → IndexDb → List String → Result Snapshot
  unfolding add_index_rows index_counts index_rows verify_table_columns
  collect_task_index_excluding c now db exclude =
      if not db.opens
      then err (message "ZCode task index read failed")
      else if not (verify_table_columns db.columns task_index_columns)
      then err (message "Unsupported ZCode task index schema")
      else if not db.lists
      then err (message "ZCode task index read failed")
      else if not db.counts
      then err (message "ZCode task index read failed")
      else ok (record {
        summary = index_counts db (cutoff_ms c now) exclude;
        tasks =
            add_index_rows (limit_of c) exclude (index_rows db (cutoff_ms c now) (limit_of c)) [];
        session_ids = [];
      })
