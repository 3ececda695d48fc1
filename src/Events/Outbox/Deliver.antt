-- ===== src/Events/Outbox/Deliver.antt =====
-- `Pending`, `Ack` and `Count` of agent/internal/events/outbox.go.
use ai_control_hud.Prelude.{
  ℕ, ◌+◌, String, not, ◌||◌, Option, none, some, List, [], ◌∷◌, select, take, length, ltb, ◌==◌,
  str_eq, Error, message, ok, err, ◌>>=◌, ◌>>◌, reject, within,
}
use ai_control_hud.Prelude.Result.{Result}
use ai_control_hud.Events.{Event, validate}
use ai_control_hud.Events.Outbox.Tables.{
  Env, EventRow, Outbox, Io, exec, transact, begin, commit, select_pending, count_events,
  delete_event,
}

unfoldable pub decode_row : Env → EventRow → Result Event
decode_row env r = elim (env.decode r.event_json) [
  | none ↦ err (message "decode event outbox row")
  | some e ↦ within "invalid event outbox row" (validate e) >> ok e
]

-- The loop over the rows.
unfoldable pub decode_rows : Env → List EventRow → Result (List Event)
unfolding decode_row
decode_rows env [] = ok []
decode_rows env (r ∷ rs) = do e ← decode_row env r; es ← decode_rows env rs; ok (e ∷ es)

-- A limit below 1 is refused as 0 is.
unfoldable pub pending : Env → Io → Outbox → ℕ → Result (List Event)
pending env io db limit = do
  reject (limit == 0 || ltb 100 limit) (message "event pending limit must be within 1..100")
  exec io select_pending "query event outbox"
  decode_rows env (take limit db.event_outbox)

-- DELETE FROM event_outbox WHERE event_id = ?
unfoldable pub delete_row : String → Outbox → Outbox
delete_row id db = record db {
  event_outbox = select (λ (r : EventRow). not (str_eq r.event_id id)) db.event_outbox;
}

unfoldable pub delete_rows : Io → ℕ → List String → Outbox → Result Outbox
delete_rows io i [] db = ok db
delete_rows io i (id ∷ ids) db =
    exec io (delete_event i) "ack event" >> delete_rows io (i + 1) ids (delete_row id db)

unfoldable pub ack_tx : Io → List String → Outbox → Result Outbox
ack_tx io ids db = do
  exec io begin "begin event ack"
  db' ← delete_rows io 0 ids db
  exec io commit "commit event ack"
  ok db'

unfoldable pub ack : Io → List String → Outbox → Outbox × Option Error
ack io [] db = (db, none)
ack io (id ∷ ids) db = transact (ack_tx io (id ∷ ids) db) db

unfoldable pub count_pending : Io → Outbox → Result ℕ
count_pending io db = exec io count_events "count event outbox" >> ok (length db.event_outbox)
