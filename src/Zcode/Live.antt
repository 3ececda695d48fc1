-- ===== src/Zcode/Live.antt =====
-- What `collectRuntimeSessionsExcluding` of agent/internal/collector/zcode/runtime_session.go
-- returns.
use ai_control_hud.Prelude.{
  ◌<◌, ◌≡◌, ◌≢◌, refl, sym, String, Bool, true, false, not, ◌||◌, ◌&&◌, Option, List, [], ◌∷◌,
  length, Table, All-map, arith, Bool-cases, Result-cases, inl, inr, ◌⊎◌, subst, Pairwise-select,
  Pairwise-sort_by, All-selected, All-sort_by, pos_part,
}
use ai_control_hud.Domain.{Time}
use ai_control_hud.Zcode.TurnLog.{TurnLogState, active}
use ai_control_hud.Zcode.Counts.{Snapshot}
use ai_control_hud.Zcode.Database.{
  RuntimeDb, usage_query, verify_table_columns, usage_rows, runtime_session_columns,
  runtime_usage_columns,
}
use ai_control_hud.Zcode.Goal.{Settings}
use ai_control_hud.Zcode.Goals.{Found, nothing_found, snapshot_of, limit_of}
use ai_control_hud.Zcode.Sessions.{
  active_turns, add_turns, add_usages, fill_up, collect_runtime_sessions_excluding,
}
use ai_control_hud.Zcode.Gathers.{limit-pos}
use ai_control_hud.Zcode.Runs.{IsFound}
use ai_control_hud.Zcode.Apart.{
  HasDistinctKeys, KeysUnseen, Returns, add_usages-IsFound, add_turns-IsFound,
}
use ai_control_hud.Zcode.Whole.{ReturnsLive, snapshot_of-IsLive}
use ai_control_hud.Zcode.Values.{has}

module _ (digest : String → String) (c : Settings) (now : Time) (turns : Table TurnLogState)
    (db : RuntimeDb) (exclude : List String) where
  abbrev IsGood : Found → Type 0
  IsGood g = IsFound digest (limit_of c) exclude g.session_ids g

  active_turns-Distinct : HasDistinctKeys turns → HasDistinctKeys (active_turns c now exclude turns)
  unfolding active_turns
  active_turns-Distinct d =
      Pairwise-sort_by _ (λ (a b : String × TurnLogState). a.0 ≢ b.0) _ (λ a b n e. n (sym e))
        (Pairwise-select _ _ turns d)

  active_turns-Unseen : KeysUnseen exclude (active_turns c now exclude turns)
  unfolding active_turns
  active_turns-Unseen = All-sort_by _ _ _ (
      All-map _ _ (λ e h. ground arith) _
        (All-selected
          (λ (e : String × TurnLogState).
            not (has exclude e.0) && active now (pos_part c.turn_fresh_seconds) e.1)
          turns))

  unseen_by_none : (m : Table TurnLogState) → KeysUnseen [] m
  unseen_by_none [] = tt
  unseen_by_none (e ∷ m) = (refl, unseen_by_none m)

  nothing-IsGood : IsGood nothing_found
  nothing-IsGood = record {
    tasks = tt;
    room = omega arith;
    apart = tt;
    distinct = tt;
    seen_ids = tt;
    named = refl;
  }

  -- What a session snapshot is made of.
  abbrev pub FromGood : Option Snapshot → Type 0
  FromGood o = (g : Found) × IsGood g × (o ≡ snapshot_of g)

  fill_up-Good :
      (full : Bool) (f : Found)
      → IsGood f
      → (full ≡ true) ⊎ (length f.tasks < limit_of c)
      → Returns FromGood (fill_up digest c now turns db (limit_of c) exclude (full, f))
  unfolding fill_up
  fill_up-Good true f h room = (f, h, refl)
  fill_up-Good false f h (inl e) = absurd (cc)
  fill_up-Good false f h (inr room) =
      let rows = usage_rows db (limit_of c) in
      let k =
        add_usages-IsFound digest (limit_of c) exclude c now turns rows f.session_ids f h room in
      elim (Bool-cases (db.answers usage_query)) [
        | inr fails ↦ rw (fill_up, fails) tt
        | inl answers ↦
            elim (Result-cases
              (add_usages digest c now turns (limit_of c) exclude rows f.session_ids f)) [
                | inr (e, failed) ↦ rw (fill_up, answers, failed) tt
                | inl (g, added) ↦ rw (fill_up, answers, added) (g, subst (Returns _) added k, refl)
              ]
      ]

  pub sessions-Good :
      HasDistinctKeys turns
      → Returns FromGood (collect_runtime_sessions_excluding digest c now turns db exclude)
  unfolding collect_runtime_sessions_excluding
  sessions-Good d =
      let active_ones = active_turns c now exclude turns in
      let k =
        add_turns-IsFound digest (limit_of c) exclude c now turns db active_ones nothing_found
          nothing-IsGood (limit-pos c) (active_turns-Distinct d) (unseen_by_none active_ones)
          active_turns-Unseen in
      let schema =
        not (verify_table_columns (db.columns "session") runtime_session_columns)
        || not (verify_table_columns (db.columns "model_usage") runtime_usage_columns) in
      elim (Bool-cases (not db.opens)) [
        | inl shut ↦ rw (collect_runtime_sessions_excluding, shut) tt
        | inr opens ↦ elim (Bool-cases schema) [
          | inl missing ↦
              rw (collect_runtime_sessions_excluding, opens, missing)
                (nothing_found, nothing-IsGood, refl)
          | inr there ↦
              elim (Result-cases
                (add_turns digest c now turns db (limit_of c) active_ones nothing_found)) [
                  | inr (e, failed) ↦
                      rw (collect_runtime_sessions_excluding, opens, there, failed) tt
                  | inl ((full, f), added) ↦
                      let (h, room) = subst (Returns _) added k in
                      rw (collect_runtime_sessions_excluding, opens, there, added)
                        (fill_up-Good full f h room)
                ]
        ]
      ]

  pub sessions-IsLive :
      HasDistinctKeys turns
      → ReturnsLive c (collect_runtime_sessions_excluding digest c now turns db exclude)
  sessions-IsLive d =
      elim (Result-cases (collect_runtime_sessions_excluding digest c now turns db exclude)) [
        | inr (e, failed) ↦ rw failed tt
        | inl (o, returned) ↦
            let (g, h, made) = subst (Returns FromGood) returned (sessions-Good d) in
            rw (returned, made) (snapshot_of-IsLive (limit_of c) g h.tasks h.room)
      ]
