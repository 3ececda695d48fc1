-- ===== src/Hub/Server/Project.antt =====
-- `projectState` and `staleHealth` of agent/internal/hub/server.go, `loadPrimaryState` and the
-- cache's operations of agent/internal/hub/state_cache.go.
use ai_control_hud.Prelude.{
  ℕ, ◌-◌, ◌/◌, ◌^◌, pos, min, String, str_append, ◌&&◌, Option, none, some, ltb, ok, err,
  if◌then◌else◌,
}
use ai_control_hud.Prelude.Result.{Result}
use ai_control_hud.Domain.{
  Time, HudState, SourceHealth, SourceStatus, OverallStatusValue, Floating, source_eq,
}
use ai_control_hud.Hub.Store.{HubEnv, Io, Loaded, load_state}
use ai_control_hud.Hub.Clone.{clone_hud_state}
use ai_control_hud.Hub.Server.Types.{Server}

abbrev pub second : ℕ
second = 10 ^ 9

-- The largest time.Duration, at which `Sub` saturates.
abbrev pub max_duration : ℕ
max_duration = 2 ^ 63 - 1

-- `now.Sub(then)`, set to 0 where it is negative.
unfoldable pub elapsed : Time → Time → ℕ
elapsed now past = min (now - past) max_duration

-- The `message` of `projectState`.
unfoldable pub stale_text : (ℕ → String) → ℕ → String
stale_text seconds age =
    str_append "agent heartbeat stale; last seen " (str_append (seconds age) "s ago")

unfoldable pub stale_health : SourceHealth → Time → String → SourceHealth
stale_health h observed_at text = record h {
  status = SourceStatus.stale;
  observed_at = observed_at;
  message = some text;
}

-- `if health.Status == SourceOK { health = staleHealth(…) }`
unfoldable pub age_health : SourceHealth → Time → String → SourceHealth
unfolding stale_health
age_health h now text = if source_eq h.status SourceStatus.ok then stale_health h now text else h

module _ {F : Type 0} where
  unfoldable pub age_state : HudState F → Time → String → HudState F
  unfolding age_health
  age_state st now text = record st {
    zcode = record st.zcode { health = age_health st.zcode.health now text };
    command_code = record st.command_code { health = age_health st.command_code.health now text };
  }

  unfoldable pub stamp_state : Server F → HudState F → Time → HudState F
  unfolding elapsed
  stamp_state s st now = record st {
    server = record {
      version = s.version;
      time = now;
      uptime_seconds = pos (elapsed now s.started_at / second);
    };
    overall = record {
      status =
          if source_eq st.zcode.health.status SourceStatus.ok
            && source_eq st.command_code.health.status SourceStatus.ok
          then OverallStatusValue.live
          else OverallStatusValue.degraded;
    };
  }

  -- `seconds` prints the whole seconds of an age in nanoseconds.
  unfoldable pub project_state : (ℕ → String) → Server F → HudState F → Time → Time → HudState F
  unfolding age_state stamp_state stale_text
  project_state seconds s st last_seen now =
      let age = elapsed now last_seen in
      stamp_state s
        (if ltb s.config.stale_after age then age_state st now (stale_text seconds age) else st) now

  unfoldable pub cache_load : Option (Loaded F) → Option (Loaded F)
  cache_load none = none
  cache_load (some c) = some (record c { state = clone_hud_state c.state })

  unfoldable pub cache_store : HudState F → Time → Option (Loaded F) → Option (Loaded F)
  cache_store st last_seen c = some (record { state = clone_hud_state st; last_seen = last_seen })

  unfoldable pub cache_heartbeat : Time → Option (Loaded F) → Option (Loaded F)
  cache_heartbeat last_seen none = none
  cache_heartbeat last_seen (some c) = some (record c { last_seen = last_seen })

module _ {F : Type 0} (fl : Floating F) (env : HubEnv F) where
  -- What a read of the store does to the cache, and what it returns.
  unfoldable pub seed :
      Server F → Result (Option (Loaded F)) → Server F × Result (Option (Loaded F))
  unfolding cache_store
  seed s (err e) = (s, err e)
  seed s (ok none) = (s, ok none)
  seed s (ok (some l)) = (
    record s { cache = cache_store l.state l.last_seen s.cache },
    ok (some (record l { state = clone_hud_state l.state })),
  )

  unfoldable pub load_primary_state : Io → Server F → Server F × Result (Option (Loaded F))
  unfolding cache_load seed
  load_primary_state io s = elim (cache_load s.cache) [
    | some c ↦ (s, ok (some c))
    | none ↦ seed s (load_state env fl io s.config.primary_agent_id s.db)
  ]
