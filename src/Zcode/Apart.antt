-- ===== src/Zcode/Apart.antt =====
-- The runs of agent/internal/collector/zcode/runtime_session.go keep `IsFound`.
use ai_control_hud.Prelude.{
  ℕ, ◌<◌, ◌≡◌, ◌≢◌, refl, String, Bool, true, false, ◌||◌, Option, none, some, List, [], ◌∷◌, ◌++◌,
  length, leb, Table, All, arith, str_eq, eq_iff, any-append, Bool-cases, Option-cases,
  Result-cases, leb_false→lt, ◌⊎◌, inl, inr, ok, err, subst, Pairwise,
}
use ai_control_hud.Prelude.Result.{Result}
use ai_control_hud.Domain.{Time, TaskStatus}
use ai_control_hud.Domain.Spec.{IsTask, WhenPresent}
use ai_control_hud.Zcode.Status.{normalize_status, normalize_status-IsKnown}
use ai_control_hud.Zcode.TurnLog.{TurnLogState}
use ai_control_hud.Zcode.Database.{RuntimeDb, UsageMeta, load_runtime_session_meta}
use ai_control_hud.Zcode.Goal.{Settings}
use ai_control_hud.Zcode.Goals.{Found, found}
use ai_control_hud.Zcode.Sessions.{
  add_turns, add_usages, usage_task, runtime_session_task, turn_start,
}
use ai_control_hud.Zcode.Gathers.{runtime_session_task-IsTask}
use ai_control_hud.Zcode.Runs.{IsFound, IsFound-own, IsFound-found, IsFound-seen}
use ai_control_hud.Zcode.Values.{has, text_or_empty, task_id_hash, timestamp}

-- No key stands twice.
abbrev pub HasDistinctKeys : Table TurnLogState → Type 0
HasDistinctKeys = Pairwise (λ (a b : String × TurnLogState). a.0 ≢ b.0)

abbrev pub KeysUnseen : List String → Table TurnLogState → Type 0
KeysUnseen ks = All (λ (e : String × TurnLogState). has ks e.0 ≡ false)

-- What holds of a value that is returned.
abbrev pub Returns {ℓ} : {A : Type 0} → (A → Type ℓ) → Result A → Type ℓ
Returns P (err e) = Unit
Returns P (ok a) = P a

has-snoc_ne :
    (ks : List String) (k j : String) → has ks j ≡ false → k ≢ j → has (ks ++ k ∷ []) j ≡ false
has-snoc_ne ks k j h n = ground (arith, any-append (str_eq j) ks (k ∷ []), eq_iff j k)

KeysUnseen-snoc :
    (ks : List String) (k : String) (rest : Table TurnLogState)
    → KeysUnseen ks rest
    → All (λ (e : String × TurnLogState). k ≢ e.0) rest
    → KeysUnseen (ks ++ k ∷ []) rest
KeysUnseen-snoc ks k [] h n = tt
KeysUnseen-snoc ks k ((j, s) ∷ rest) (h, hs) (n, ns) =
    (has-snoc_ne ks k j h n, KeysUnseen-snoc ks k rest hs ns)

module _ (digest : String → String) (limit : ℕ) (exclude : List String) where
  usage_task-IsTask :
      (c : Settings) (now : Time) (turns : Table TurnLogState) (row : UsageMeta)
      → WhenPresent
          (λ t. IsTask t × (t.id ≡ task_id_hash digest "runtime-session" row.usage.session_id))
          (usage_task digest c now turns row)
  unfolding usage_task
  usage_task-IsTask c now turns row =
      let status = normalize_status (text_or_empty row.usage.status) in
      elim (Option-cases (timestamp row.usage.started_at)) [
        | inl no_time ↦ ground arith
        | inr (t, timed) ↦
            let task = runtime_session_task digest row.usage.session_id row.meta status now t t in
            let named : task.id ≡ task_id_hash digest "runtime-session" row.usage.session_id =
              unfold runtime_session_task in refl in
            let v =
              runtime_session_task-IsTask digest row.usage.session_id row.meta status now t t
                (normalize_status-IsKnown (text_or_empty row.usage.status)) in
            ground (arith, v, named)
      ]

  -- The usage rows.
  pub add_usages-IsFound :
      (c : Settings) (now : Time) (turns : Table TurnLogState) (rows : List (Option UsageMeta))
      (seen : List String) (f : Found)
      → IsFound digest limit exclude seen f
      → length f.tasks < limit
      → Returns
          (λ g. IsFound digest limit exclude g.session_ids g)
          (add_usages digest c now turns limit exclude rows seen f)
  unfolding add_usages
  add_usages-IsFound c now turns [] seen f h room = IsFound-own digest limit exclude seen f h
  add_usages-IsFound c now turns (none ∷ rows) seen f h room = tt
  add_usages-IsFound c now turns (some row ∷ rows) seen f h room =
      let id = row.usage.session_id in
      elim (Bool-cases (has exclude id || has seen id)) [
        | inl skip ↦ rw (add_usages, skip) (add_usages-IsFound c now turns rows seen f h room)
        | inr new ↦ elim (Option-cases (usage_task digest c now turns row)) [
          | inl hidden ↦
              rw (add_usages, new, hidden)
                (add_usages-IsFound c now turns rows (id ∷ seen) f
                  (IsFound-seen digest limit exclude seen id f h) room)
          | inr (t, shows) ↦
              let (v, n) = subst (WhenPresent _) shows (usage_task-IsTask c now turns row) in
              let k =
                IsFound-found digest limit exclude seen id t f h room (ground arith) (ground arith)
                  v n in
              elim (Bool-cases (leb limit (length (found f id t).tasks))) [
                | inl full ↦
                    rw (add_usages, new, shows, full)
                      (IsFound-own digest limit exclude (id ∷ seen) (found f id t) k)
                | inr more ↦
                    rw (add_usages, new, shows, more)
                      (add_usages-IsFound c now turns rows (id ∷ seen) (found f id t) k
                        (leb_false→lt _ _ more))
              ]
        ]
      ]

  -- The active turns; `full` tells that the limit ended the loop.
  pub add_turns-IsFound :
      (c : Settings) (now : Time) (turns : Table TurnLogState) (db : RuntimeDb)
      (rest : Table TurnLogState) (f : Found)
      → IsFound digest limit exclude f.session_ids f
      → length f.tasks < limit
      → HasDistinctKeys rest
      → KeysUnseen f.session_ids rest
      → KeysUnseen exclude rest
      → Returns
          (λ (r : Bool × Found).
            IsFound digest limit exclude r.1.session_ids r.1
            × ((r.0 ≡ true) ⊎ (length r.1.tasks < limit)))
          (add_turns digest c now turns db limit rest f)
  unfolding add_turns
  add_turns-IsFound c now turns db [] f h room d u e = (h, inr room)
  add_turns-IsFound c now turns db ((id, s) ∷ rest) f h room (a, d) (u, us) (e, es) =
      elim (Result-cases (load_runtime_session_meta db id)) [
        | inr (cause, failed) ↦ rw (add_turns, failed) tt
        | inl (found_meta, loaded) ↦ elim (Option-cases found_meta) [
          | inl absent ↦
              rw (add_turns, loaded, absent)
                (add_turns-IsFound c now turns db rest f h room d us es)
          | inr (meta, present) ↦
              let t =
                runtime_session_task digest id meta TaskStatus.running now (turn_start s)
                  s.updated_at in
              let named : t.id ≡ task_id_hash digest "runtime-session" id =
                unfold runtime_session_task in refl in
              let v =
                runtime_session_task-IsTask digest id meta TaskStatus.running now (turn_start s)
                  s.updated_at tt in
              let g = found f id t in
              let k =
                IsFound-own digest limit exclude (id ∷ f.session_ids) g
                  (IsFound-found digest limit exclude f.session_ids id t f h room e u v named) in
              elim (Bool-cases (leb limit (length g.tasks))) [
                | inl full ↦ rw (add_turns, loaded, present, full) (k, inl refl)
                | inr more ↦
                    rw (add_turns, loaded, present, more)
                      (add_turns-IsFound c now turns db rest g k (leb_false→lt _ _ more) d
                        (KeysUnseen-snoc f.session_ids id rest us a) es)
              ]
        ]
      ]
