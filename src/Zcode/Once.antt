-- ===== src/Zcode/Once.antt =====
-- Which sessions agent/internal/collector/zcode/runtime_session.go shows, and by which rows.
use ai_control_hud.Prelude.{
  ℕ, ◌≡◌, ◌≢◌, String, true, false, Option, none, some, List, [], ◌∷◌, map, length, Table, All,
  Bool-cases, Result-cases, inl, inr, subst, str_eq, eq_iff, upsert, ◌==◌,
}
use ai_control_hud.Domain.{Time}
use ai_control_hud.Domain.Spec.{WhenPresent, Distinct}
use ai_control_hud.Zcode.Apart.{HasDistinctKeys, Returns}
use ai_control_hud.Zcode.Counts.{Snapshot}
use ai_control_hud.Zcode.Database.{RuntimeDb}
use ai_control_hud.Zcode.Goal.{Settings}
use ai_control_hud.Zcode.Goals.{Found, snapshot_of, limit_of}
use ai_control_hud.Zcode.Live.{FromGood, sessions-Good}
use ai_control_hud.Zcode.Runs.{IsFound, ids_of}
use ai_control_hud.Zcode.Sessions.{collect_runtime_sessions_excluding}
use ai_control_hud.Zcode.TurnLog.{TurnLogState, Root, Note, entry_of, take_entry, read_lines}
use ai_control_hud.Zcode.Values.{has, task_id_hash}

-- The sessions of a snapshot: each once, none of those excluded, and the tasks are theirs.
abbrev pub AreSessions : (String → String) → List String → Snapshot → Type 0
AreSessions digest exclude s =
    Distinct s.session_ids
    × All (λ k. has exclude k ≡ false) s.session_ids
    × (ids_of s.tasks ≡ map (task_id_hash digest "runtime-session") s.session_ids)

snapshot_of-AreSessions :
    (digest : String → String) (limit : ℕ) (exclude : List String) (g : Found)
    → IsFound digest limit exclude g.session_ids g
    → WhenPresent (AreSessions digest exclude) (snapshot_of g)
unfolding snapshot_of
snapshot_of-AreSessions digest limit exclude g h = elim (Bool-cases (length g.tasks == 0)) [
  | inl empty ↦ rw (snapshot_of, empty) tt
  | inr full ↦ rw (snapshot_of, full) (h.distinct, h.apart, h.named)
]

-- The runtime sessions that are shown are each shown once, none is one that is excluded, and the
-- ids of the tasks are made of their sessions, if the turn log gives one state for each session.
pub sessions_once :
    (digest : String → String) (c : Settings) (now : Time) (turns : Table TurnLogState)
    (db : RuntimeDb) (exclude : List String)
    → HasDistinctKeys turns
    → Returns
        (WhenPresent (AreSessions digest exclude))
        (collect_runtime_sessions_excluding digest c now turns db exclude)
sessions_once digest c now turns db exclude d =
    elim (Result-cases (collect_runtime_sessions_excluding digest c now turns db exclude)) [
      | inr (e, failed) ↦ rw failed tt
      | inl (o, returned) ↦
          let (g, h, made) =
            subst (Returns (FromGood digest c now turns db exclude)) returned
              (sessions-Good digest c now turns db exclude d) in
          rw (returned, made) (snapshot_of-AreSessions digest (limit_of c) exclude g h)
    ]

key-upsert :
    (k : String) (merge : Option TurnLogState → TurnLogState) (j : String) (m : Table TurnLogState)
    → j ≢ k
    → All (λ (e : String × TurnLogState). j ≢ e.0) m
    → All (λ (e : String × TurnLogState). j ≢ e.0) (upsert k merge m)
unfolding upsert
key-upsert k merge j [] n h = (n, tt)
key-upsert k merge j ((i, w) ∷ m) n (h, hs) = elim (Bool-cases (str_eq i k)) [
  | inl here ↦ rw here (h, hs)
  | inr later ↦ rw later (h, key-upsert k merge j m n hs)
]

upsert-HasDistinctKeys :
    (k : String) (merge : Option TurnLogState → TurnLogState) (m : Table TurnLogState)
    → HasDistinctKeys m
    → HasDistinctKeys (upsert k merge m)
unfolding upsert
upsert-HasDistinctKeys k merge [] h = (tt, tt)
upsert-HasDistinctKeys k merge ((i, w) ∷ m) (h, hs) = elim (Bool-cases (str_eq i k)) [
  | inl here ↦ rw here (h, hs)
  | inr later ↦ rw later (
    key-upsert k merge i m (λ e. let q : str_eq i k ≡ true = (eq_iff i k).1 e in cc) h,
    upsert-HasDistinctKeys k merge m hs,
  )
]

take_entry-HasDistinctKeys :
    (o : Option (String × Note × Time)) (m : Table TurnLogState)
    → HasDistinctKeys m
    → HasDistinctKeys (take_entry o m)
take_entry-HasDistinctKeys none m h = h
take_entry-HasDistinctKeys (some (id, n, now)) m h = upsert-HasDistinctKeys id _ m h

-- The turn log gives one state for each session.
pub read_lines-HasDistinctKeys :
    (roots : List Root) (m : Table TurnLogState)
    → HasDistinctKeys m
    → HasDistinctKeys (read_lines roots m)
unfolding read_lines
read_lines-HasDistinctKeys [] m h = h
read_lines-HasDistinctKeys (root ∷ roots) m h =
    read_lines-HasDistinctKeys roots (take_entry (entry_of root) m)
      (take_entry-HasDistinctKeys (entry_of root) m h)
