-- ===== src/Hub/Retention/Batch.antt =====
-- `pruneAgentBatch` of agent/internal/hub/retention.go.
use ai_control_hud.Prelude.{
  ℕ, ◌-◌, ◌^◌, String, Bool, not, ◌&&◌, ◌||◌, Option, none, some, List, map, any, select, take,
  length, get_elem?, ltb, leb, ◌==◌, ok, err, ◌>>=◌, ◌>>◌, if◌then◌else◌,
}
use ai_control_hud.Prelude.Result.{Result}
use ai_control_hud.Hub.Store.{
  HubRow, Db, Io, exec, of_agent, or_error, text_ltb, begin, count_retained, read_floor,
  read_minimum, prune, commit,
}
use ai_control_hud.Hub.Retention.Rules.{Policy}

abbrev pub seq_of : HubRow → ℕ
seq_of r = r.seq

-- SELECT seq … ORDER BY seq ASC LIMIT 1 OFFSET k
abbrev pub seq_at : List HubRow → ℕ → Option ℕ
seq_at l k = elim (get_elem? l k) [ none ↦ none | some r ↦ some r.seq ]

-- SELECT seq … ORDER BY seq DESC LIMIT 1 OFFSET k: the rows are held in ascending order.
abbrev pub seq_from_end : List HubRow → ℕ → Option ℕ
seq_from_end l k = if ltb k (length l) then seq_at l (length l - 1 - k) else none

-- `forceDeleteThrough`
unfoldable pub force_through : Io → Policy → List HubRow → Result ℕ
force_through io p mine =
    if ltb p.max_events (length mine)
    then (exec io read_floor "resolve event maximum retention floor"
        >> or_error (seq_at mine (length mine - p.max_events - 1))
            "resolve event maximum retention floor")
    else ok 0

-- `minKeepSeq`
unfoldable pub min_keep : Io → Policy → List HubRow → Result ℕ
min_keep io p mine =
    if p.min_events == 0
    then ok (2 ^ 63 - 1)
    else if ltb p.min_events (length mine)
    then (exec io read_minimum "resolve event minimum retention floor"
        >> or_error (seq_from_end mine (p.min_events - 1)) "resolve event minimum retention floor")
    else ok 0

-- The condition of the DELETE; `cutoff` is a text.
unfoldable pub is_doomed : ℕ → ℕ → String → HubRow → Bool
is_doomed force keep cutoff r =
    (ltb 0 force && leb r.seq force)
    || (ltb 0 keep && (ltb r.seq keep && text_ltb r.received_at cutoff))

unfoldable pub victims : ℕ → ℕ → String → ℕ → List HubRow → List ℕ
victims force keep cutoff batch mine =
    map seq_of (take batch (select (is_doomed force keep cutoff) mine))

-- seq IN (…)
abbrev pub is_among : List ℕ → HubRow → Bool
is_among keys r = any (λ k. k == r.seq) keys

unfoldable pub delete_keys : List ℕ → Db → Db
delete_keys keys db = record db { events = select (λ r. not (is_among keys r)) db.events }

-- The transaction, which commits only where it deletes: the database after it, and the rows deleted.
unfoldable pub prune_tx : Io → String → String → Policy → Db → Result (Db × ℕ)
prune_tx io agent_id cutoff p db = do
  exec io begin "begin event retention transaction"
  exec io count_retained "count retained events"
  let mine = select (of_agent agent_id) db.events
  if length mine == 0 then ok (db, 0) else do
    force ← force_through io p mine
    keep ← min_keep io p mine
    exec io prune "prune retained events"
    let keys = victims force keep cutoff p.batch_size mine
    exec io commit "commit event retention transaction"
    ok (delete_keys keys db, length keys)

unfoldable pub prune_agent_batch : Io → String → String → Policy → Db → Db × Result ℕ
prune_agent_batch io agent_id cutoff p db = elim (prune_tx io agent_id cutoff p db) [
  | err e ↦ (db, err e)
  | ok (db', n) ↦ (db', ok n)
]
