-- ===== src/Events/Outbox/Maintain.antt =====
-- `Stats` and `Maintain` of agent/internal/events/hygiene.go. The page counts of the database file
-- and what a checkpoint reports are not modelled; whether these statements succeed is.
use Prim.Native.Nat.{Ordering}
use Prim.Native.String.{compare}
use ai_control_hud.Prelude.{
  ℕ, ◌-◌, ◌*◌, ◌^◌, String, Bool, not, ◌&&◌, ◌||◌, Option, none, some, List, [], ◌∷◌, map, any,
  select, take, length, count, ltb, leb, str_eq, is_none, Table, message, ok, err, ◌>>=◌, ◌>>◌,
  reject, if◌then◌else◌,
}
use ai_control_hud.Prelude.Result.{Result}
use ai_control_hud.Domain.{Time}
use ai_control_hud.Events.Outbox.Tables.{
  Env, TaskRow, EventRow, Outbox, Io, exec, compact_tasks, optimize, read_journal_mode, checkpoint,
  read_stats,
}
use ai_control_hud.Events.Outbox.Observe.{terminal}

abbrev pub hour : ℕ
hour = 3600 * 10 ^ 9

abbrev pub default_compact_batch : ℕ
default_compact_batch = 1000

pub record OutboxStats : Type 0 where
  pub pending_events : ℕ
  pub task_baseline_rows : ℕ
  pub compacted_task_rows : ℕ
  pub oldest_pending_at : Option Time

-- MIN of a text column: the bytes are compared.
earlier : String → String → String
earlier a b = elim (compare b a) [ Ordering.lt ↦ b | _ ↦ a ]

unfoldable pub min_created : List EventRow → Option String
unfolding earlier
min_created [] = none
min_created (r ∷ rs) =
    some (elim (min_created rs) [ none ↦ r.created_at | some t ↦ earlier r.created_at t ])

is_compacted : String × TaskRow → Bool
is_compacted (k, r) = str_eq r.title "" && terminal r.status

oldest : Env → Option String → Result (Option Time)
oldest env none = ok none
oldest env (some raw) = if str_eq raw "" then ok none else elim (env.parse raw) [
  | none ↦ err (message "decode oldest pending event time")
  | some t ↦ ok (some t)
]

unfoldable pub stats : Env → Io → Outbox → Result OutboxStats
unfolding oldest is_compacted
stats env io db = do
  exec io read_stats "read event outbox stats"
  t ← oldest env (min_created db.event_outbox)
  ok (record {
    pending_events = length db.event_outbox;
    task_baseline_rows = length db.task_state;
    compacted_task_rows = count is_compacted db.task_state;
    oldest_pending_at = t;
  })

-- The rows that the subquery of the UPDATE takes, before its LIMIT.
unfoldable pub is_candidate : Env → String → String × TaskRow → Bool
is_candidate env cutoff (k, r) =
    terminal r.status
    && ltb (env.julian r.last_seen_at) (env.julian cutoff)
    && (not (str_eq r.title "") || not (is_none r.workspace) || not (is_none r.updated_at))

insert_by_age : Env → String × TaskRow → Table TaskRow → Table TaskRow
insert_by_age env (k, r) [] = (k, r) ∷ []
insert_by_age env (k, r) ((j, q) ∷ m) =
    if leb (env.julian r.last_seen_at) (env.julian q.last_seen_at)
    then (k, r) ∷ (j, q) ∷ m
    else (j, q) ∷ insert_by_age env (k, r) m

-- ORDER BY julianday(last_seen_at) ASC
sort_by_age : Env → Table TaskRow → Table TaskRow
unfolding insert_by_age
sort_by_age env [] = []
sort_by_age env (e ∷ m) = insert_by_age env e (sort_by_age env m)

first_key : String × TaskRow → String
first_key (k, r) = k

unfoldable pub compact_keys : Env → String → Table TaskRow → List String
unfolding sort_by_age first_key is_candidate
compact_keys env cutoff m =
    map first_key
      (take default_compact_batch (sort_by_age env (select (is_candidate env cutoff) m)))

-- SET title = '', workspace = NULL, updated_at = NULL WHERE task_id IN …
unfoldable pub compact_row : TaskRow → TaskRow
compact_row r = record r { title = ""; workspace = none; updated_at = none }

unfoldable pub compact_table : List String → Table TaskRow → Table TaskRow
unfolding compact_row
compact_table keys [] = []
compact_table keys ((k, r) ∷ m) =
    (if any (λ j. str_eq j k) keys then (k, compact_row r) else (k, r)) ∷ compact_table keys m

pub record MaintenanceResult : Type 0 where
  pub compacted_rows : ℕ
  pub stats : OutboxStats

-- The statements after the UPDATE.
finish : Env → Io → ℕ → Outbox → Result MaintenanceResult
finish env io rows db = do
  exec io optimize "optimize event outbox"
  exec io read_journal_mode "read event outbox journal mode"
  reject (env.wal && not (io checkpoint)) (message "checkpoint event outbox WAL")
  st ← stats env io db
  ok (record { compacted_rows = rows; stats = st })

-- The UPDATE commits by itself: a later failure does not undo it.
unfoldable pub maintain : Env → Io → Time → ℕ → Outbox → Outbox × Result MaintenanceResult
unfolding finish
maintain env io now compact_after db =
    if ltb compact_after (24 * hour)
    then (db, err (message "task baseline compact age must be at least 24 hours"))
    else if not (io compact_tasks)
    then (db, err (message "compact terminal task baselines"))
    else let keys = compact_keys env (env.format (now - compact_after)) db.task_state in
      let db' = record db { task_state = compact_table keys db.task_state } in
      (db', finish env io (length keys) db')
