-- ===== src/Hub/Retention/Prune.antt =====
-- `PruneEvents` and `eventAgentIDs` of agent/internal/hub/retention.go.
use ai_control_hud.Prelude.{
  ℕ, zero, suc, ◌+◌, ◌-◌, String, true, false, not, length, Option, none, some, List, [], ◌∷◌, ltb,
  str_eq, Error, message, ok, err, if◌then◌else◌,
}
use ai_control_hud.Prelude.Result.{Result}
use ai_control_hud.Domain.{Time}
use ai_control_hud.Hub.Store.{HubRow, Db, Io, text_ltb, context_alive, query_agents}
use ai_control_hud.Hub.Retention.Rules.{Policy, validate_policy}
use ai_control_hud.Hub.Retention.Batch.{prune_agent_batch}

-- What a run leaves: the database, its `PruneResult`, and the error that ended it.
pub record Pruned : Type 0 where
  pub db : Db
  pub deleted : ℕ
  pub agents : ℕ
  pub failure : Option Error

abbrev pub stopped : Pruned → Error → Pruned
stopped s e = record s { failure = some e }

-- One round: the number of rows that it deleted, or an error.
unfoldable pub round : Io → String → String → Policy → Pruned → Pruned × Result ℕ
round io agent_id cutoff p s =
    if not (io context_alive)
    then (s, err (message "context canceled"))
    else let (db', r) = prune_agent_batch io agent_id cutoff p s.db in
      elim r [
        | err e ↦ (record s { db = db' }, err e)
        | ok n ↦ (record s { db = db'; deleted = s.deleted + n }, ok n)
      ]

-- The inner loop, on fuel: none if the fuel runs out. `io i` says what the database does in the
-- i-th round.
unfoldable pub prune_agent : ℕ → (ℕ → Io) → ℕ → String → String → Policy → Pruned → Option Pruned
prune_agent zero io i agent_id cutoff p s = none
prune_agent (suc fuel) io i agent_id cutoff p s =
    let (s', r) = round (io i) agent_id cutoff p s in
    elim r [
      | err e ↦ some (stopped s' e)
      | ok n ↦ elim (ltb n p.batch_size) [
        | true ↦ some s'
        | false ↦ prune_agent fuel io (i + 1) agent_id cutoff p s'
      ]
    ]

-- SELECT DISTINCT agent_id … ORDER BY agent_id
unfoldable pub insert_id : String → List String → List String
insert_id a [] = a ∷ []
insert_id a (b ∷ bs) =
    let rest = insert_id a bs in
    if str_eq a b then b ∷ bs else if text_ltb a b then a ∷ b ∷ bs else b ∷ rest

unfoldable pub agent_ids : List HubRow → List String
unfolding insert_id
agent_ids [] = []
agent_ids (r ∷ rs) = insert_id r.agent_id (agent_ids rs)

-- The outer loop: an error ends it.
unfoldable pub prune_agents :
    ℕ → (String → ℕ → Io) → List String → String → Policy → Pruned → Option Pruned
prune_agents fuel io [] cutoff p s = some s
prune_agents fuel io (a ∷ rest) cutoff p s = elim (prune_agent fuel (io a) 0 a cutoff p s) [
  | none ↦ none
  | some t ↦ elim t.failure [ some e ↦ some t | none ↦ prune_agents fuel io rest cutoff p t ]
]

-- `format` is `formatTime`.
unfoldable pub prune_events :
    (Time → String) → ℕ → Io → (String → ℕ → Io) → Time → Policy → Db → Option Pruned
prune_events format fuel io loops now p db =
    let start : Pruned = record { db = db; deleted = 0; agents = 0; failure = none } in
    elim (validate_policy p) [
      | err e ↦ some (stopped start e)
      | ok _ ↦ elim (io query_agents) [
        | false ↦ some (stopped start (message "query event Agent IDs"))
        | true ↦
            let ids = agent_ids db.events in
            prune_agents fuel loops ids (format (now - p.max_age)) p
              (record start { agents = length ids })
      ]
    ]
