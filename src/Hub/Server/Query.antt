-- ===== src/Hub/Server/Query.antt =====
-- `handleState`, `handleHealth`, `handleEvents` and `parseInt64Query` of
-- agent/internal/hub/server.go.
use ai_control_hud.Prelude.{
  ℕ, ℤ, pos, negsuc, ◌-◌, ◌^◌, String, Bool, not, ◌||◌, Option, none, some, List, [], ◌∷◌, message,
  ok, err, ltb_ℤ, codes, trim, size, ◌==◌, if◌then◌else◌,
}
use ai_control_hud.Prelude.Result.{Result}
use ai_control_hud.Domain.{Time, HudState, SourceStatus, Floating}
use ai_control_hud.Hub.Store.{HubEnv, Db, Io, HubEvent, event_bounds, list_events}
use ai_control_hud.Hub.Server.Types.{Server, Response, refused, written, HealthResponse, EventPage}
use ai_control_hud.Hub.Server.Project.{project_state, load_primary_state}

-- `parse` is strconv.ParseInt(…, 10, 64).
unfoldable pub parse_int64_query : (List ℕ → Option ℤ) → String → ℤ → ℤ → ℤ → Result ℤ
parse_int64_query parse raw fallback minimum maximum =
    let text = trim (codes raw) in
    if size text == 0 then ok fallback else elim (parse text) [
      | none ↦ err (message "the parameter is out of range")
      | some value ↦
          if ltb_ℤ value minimum || ltb_ℤ maximum value
          then err (message "the parameter is out of range")
          else ok value
    ]

abbrev pub last_seq_of : ℤ → List HubEvent → ℤ
last_seq_of after [] = after
last_seq_of after (e ∷ es) = last_seq_of (pos e.seq) es

abbrev pub natural : ℤ → ℕ
natural (pos n) = n
natural (negsuc n) = 0

abbrev pub max_int64 : ℤ
max_int64 = pos (2 ^ 63 - 1)

abbrev pub health_of : {F : Type 0} → HudState F → Time → HealthResponse
health_of st now = record {
  time = now;
  zcode = st.zcode.health.status;
  command_code = st.command_code.health.status;
}

module _ {F : Type 0} (fl : Floating F) (env : HubEnv F) (seconds : ℕ → String) where
  unfoldable pub handle_state : Io → Time → Bool → Server F → Server F × Response (HudState F)
  handle_state io now is_get s =
      if not is_get
      then (s, refused 405 (message "method not allowed"))
      else let (s', result) = load_primary_state fl env io s in
        (
          s',
          elim result [
            | err _ ↦ refused 500 (message "load state failed")
            | ok found ↦ elim found [
              | none ↦ refused 503 (message "primary agent has not uploaded a state snapshot")
              | some l ↦ written (project_state seconds s' l.state l.last_seen now)
            ]
          ],
        )

  unfoldable pub handle_health : Io → Time → Bool → Server F → Server F × Response HealthResponse
  handle_health io now is_get s =
      if not is_get
      then (s, refused 405 (message "method not allowed"))
      else let (s', result) = load_primary_state fl env io s in
        (
          s',
          elim result [
            | err _ ↦ refused 500 (message "load health failed")
            | ok found ↦ elim found [
              | none ↦ written (record {
                time = now;
                zcode = SourceStatus.error;
                command_code = SourceStatus.error;
              })
              | some l ↦ written (health_of (project_state seconds s' l.state l.last_seen now) now)
            ]
          ],
        )

  -- The two reads of the database: the bounds of the log, then a page of it. Another request or a
  -- pruning may come between them, so the second has a database of its own.
  unfoldable pub page_of : Io → String → ℤ → ℤ → Db → Db → Response EventPage
  page_of io agent_id after limit db db' = elim (event_bounds io agent_id db) [
    | err _ ↦ refused 500 (message "load event bounds failed")
    | ok bounds ↦ elim (list_events env io agent_id after (natural limit) db') [
      | err _ ↦ refused 500 (message "load events failed")
      | ok (items, latest) ↦ written (record {
        events = items;
        next_after = last_seq_of after items;
        latest_seq = latest;
        oldest_seq = bounds.oldest;
      })
    ]
  ]

  unfoldable pub handle_events :
      (List ℕ → Option ℤ) → Io → Bool → String → String → Server F → Db → Response EventPage
  unfolding page_of parse_int64_query
  handle_events parse io is_get raw_after raw_limit s db' =
      if not is_get
      then refused 405 (message "method not allowed")
      else elim (parse_int64_query parse raw_after (pos 0) (pos 0) max_int64) [
        | err e ↦ refused 422 e
        | ok after ↦ elim (parse_int64_query parse raw_limit (pos 100) (pos 1) (pos 100)) [
          | err e ↦ refused 422 e
          | ok limit ↦ page_of io s.config.primary_agent_id after limit s.db db'
        ]
      ]
