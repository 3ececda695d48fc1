-- ===== src/Collect/Shown.antt =====
-- What the snapshot shows after collections (agent/internal/runtime/runtime.go).
use ai_control_hud.Prelude.{◌<◌, ◌≤◌, ◌≡◌, refl, ap, ◌∙◌, String, Option, some, none, All, arith}
use ai_control_hud.Domain.{Time, HudState, ZCodeState, Floating}
use ai_control_hud.Domain.Spec.{IsValid, IsHealth, IsZCode, IsSummary, IsTask}
use ai_control_hud.Snapshot.{SnapshotStore, get, update_zcode, derive_overall, clone-eq}
use ai_control_hud.Snapshot.Laws.{update_zcode_lem}
use ai_control_hud.Collect.{
  Outcome, failed, nothing, collected, Gathered, healthy, erring, aged, or_empty, without_zcode,
  record_zcode_failure, collect_zcode_once,
}
use ai_control_hud.Collect.Messages.{zcode_message}

-- A collection that can be shown.
abbrev pub IsGathered : Gathered → Type 0
IsGathered g = IsSummary g.summary × All IsTask (or_empty g.tasks)

-- The last collection that succeeded, and its time.
abbrev pub Memory : Type 0
Memory = Option (Gathered × Time)

abbrev pub remember : Memory → Time → Outcome Gathered → Memory
remember m now (collected g) = some (g, now)
remember m now _ = m

abbrev pub text_of : Outcome Gathered → String
text_of (failed text) = text
text_of _ = "ZCode collection returned no snapshot"

-- The part that is to be shown after a collection: the data of the last one that succeeded, as of
-- now if this is it, and else as stale; an error where none has succeeded.
abbrev pub shown : Memory → Time → Outcome Gathered → ZCodeState
shown m now (collected g) = record {
  health = healthy now;
  summary = some g.summary;
  tasks = some (or_empty g.tasks);
}
shown none now o = record {
  health = erring now (zcode_message (text_of o));
  summary = none;
  tasks = none;
}
shown (some (g, last)) now o = record {
  health = aged now last (zcode_message (text_of o));
  summary = some g.summary;
  tasks = some (or_empty g.tasks);
}

-- The part holds what is remembered.
abbrev pub Recalls : Memory → ZCodeState → Type 0
Recalls none z = z.summary ≡ none
Recalls (some (g, last)) z =
    (z.summary ≡ some g.summary)
    × (z.tasks ≡ some (or_empty g.tasks))
    × (z.health.last_success_at ≡ some last)

-- What is remembered can be shown, and is not of the future.
abbrev pub IsSafe : Memory → Time → Type 0
IsSafe none now = Unit {0}
IsSafe (some (g, last)) now = IsGathered g × (0 < last) × (last ≤ now)

abbrev pub IsShowable : Outcome Gathered → Type 0
IsShowable (collected g) = IsGathered g
IsShowable _ = Unit {0}

pub shown-Recalls :
    (m : Memory) (now : Time) (o : Outcome Gathered) → Recalls (remember m now o) (shown m now o)
shown-Recalls m now (collected g) = (refl, refl, refl)
shown-Recalls none now (failed t) = refl
shown-Recalls none now nothing = refl
shown-Recalls (some (g, last)) now (failed t) = (refl, refl, refl)
shown-Recalls (some (g, last)) now nothing = (refl, refl, refl)

pub remember-IsSafe :
    (m : Memory) (now : Time) (o : Outcome Gathered)
    → 0 < now
    → IsSafe m now
    → IsShowable o
    → IsSafe (remember m now o) now
remember-IsSafe m now (collected g) p s v = (v, p, omega arith)
remember-IsSafe m now (failed t) p s v = s
remember-IsSafe m now nothing p s v = s

shown-IsZCode :
    (m : Memory) (now : Time) (o : Outcome Gathered)
    → 0 < now
    → IsSafe m now
    → IsShowable o
    → IsHealth (shown m now o).health × IsZCode (shown m now o)
shown-IsZCode m now (collected g) p s v = ((p, (p, omega arith)), v)
shown-IsZCode none now (failed t) p s v = ((p, tt), (tt, tt))
shown-IsZCode none now nothing p s v = ((p, tt), (tt, tt))
shown-IsZCode (some (g, last)) now (failed t) p (v, q, r) _ = ((p, (q, r)), v)
shown-IsZCode (some (g, last)) now nothing p (v, q, r) _ = ((p, (q, r)), v)

pub without_zcode-shown :
    (m : Memory) (now : Time) (text : String) (z : ZCodeState)
    → Recalls m z
    → without_zcode now (zcode_message text) z.summary z.tasks z.health.last_success_at
      ≡ shown m now (failed text)
without_zcode-shown none now text z h = rw h refl
without_zcode-shown (some (g, last)) now text z (h, k, l) = rw (h, k, l) refl

module _ {F : Type 0} (fl : Floating F) where
  put_in :
      (s : SnapshotStore F) (z : ZCodeState)
      → IsValid fl s.state
      → IsHealth z.health × IsZCode z
      → (update_zcode fl s z).0.state.zcode ≡ z
  unfolding derive_overall
  put_in s z v p =
      let (q, r, _) = update_zcode_lem fl s z v in ap (λ (t : HudState F). t.zcode) (r (q.1 p))

  -- The state that a failure starts from.
  unfoldable pub failure_from : Time → String → SnapshotStore F → HudState F → SnapshotStore F
  failure_from now text s st =
      (update_zcode fl s (
        without_zcode now (zcode_message text) st.zcode.summary st.zcode.tasks
          st.zcode.health.last_success_at)).0

  pub failure-eq :
      (now : Time) (text : String) (s : SnapshotStore F)
      → record_zcode_failure fl now text s ≡ failure_from now text s s.state
  unfolding record_zcode_failure get failure_from
  failure-eq now text s = ap (failure_from now text s) (clone-eq s.state)

  failure_zcode :
      (m : Memory) (now : Time) (text : String) (s : SnapshotStore F)
      → IsValid fl s.state
      → Recalls m s.state.zcode
      → 0 < now
      → IsSafe m now
      → (record_zcode_failure fl now text s).state.zcode ≡ shown m now (failed text)
  unfolding failure_from
  failure_zcode m now text s v r p q =
      ap (λ (t : SnapshotStore F). t.state.zcode) (failure-eq now text s)
      ∙ ap (λ z. (update_zcode fl s z).0.state.zcode)
          (without_zcode-shown m now text s.state.zcode r)
      ∙ put_in s _ v (shown-IsZCode m now (failed text) p q tt)

  pub collect_zcode :
      (m : Memory) (now : Time) (o : Outcome Gathered) (s : SnapshotStore F)
      → IsValid fl s.state
      → Recalls m s.state.zcode
      → 0 < now
      → IsSafe m now
      → IsShowable o
      → (collect_zcode_once fl now o s).state.zcode ≡ shown m now o
  unfolding collect_zcode_once
  collect_zcode m now (failed text) s v r p q w = failure_zcode m now text s v r p q
  collect_zcode none now nothing s v r p q w = failure_zcode none now _ s v r p q
  collect_zcode (some (g, last)) now nothing s v r p q w =
      failure_zcode (some (g, last)) now _ s v r p q
  collect_zcode m now (collected g) s v r p q w =
      put_in s _ v (shown-IsZCode m now (collected g) p q w)
