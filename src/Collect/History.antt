-- ===== src/Collect/History.antt =====
-- Any course of both collection loops of agent/internal/runtime/runtime.go from the start on.
use ai_control_hud.Prelude.{
  ◌<◌, ◌≤◌, ◌≡◌, ◌≢◌, refl, sym, ap, ◌∙◌, subst, String, Bool, some, none, List, [], ◌∷◌, arith, ok,
  inl, inr, Option-cases,
}
use ai_control_hud.Domain.{Time, HudState, CommandCodeState, UsageSummary, Floating}
use ai_control_hud.Domain.Validate.{expected_overall}
use ai_control_hud.Domain.Spec.{IsValid}
use ai_control_hud.Domain.Spec.Decides.{validate_iff}
use ai_control_hud.Snapshot.{SnapshotStore, new, get, update_command_code, derive_overall, clone-eq}
use ai_control_hud.Snapshot.Laws.{
  update_command_code_lem, apply, apply-IsValid, put_zcode, put_command_code,
}
use ai_control_hud.Collect.{
  Outcome, failed, nothing, collected, Gathered, initial_health, initial_state,
  record_zcode_failure, record_command_code_failure, collect_zcode_once, collect_command_code_once,
}
use ai_control_hud.Collect.Shown.{
  Memory, remember, shown, Recalls, IsSafe, IsShowable, shown-Recalls, remember-IsSafe,
  collect_zcode,
}

-- Collections of both loops, in the order in which their results come in.
pub data Collection (F : Type 0) : Type 0 where
  of_zcode : Time → Outcome Gathered → Collection F
  of_usage : Time → Outcome (UsageSummary F) → Collection F

abbrev pub remember_all : {F : Type 0} → Memory → List (Collection F) → Memory
remember_all m [] = m
remember_all m (of_zcode now o ∷ xs) = remember_all (remember m now o) xs
remember_all m (of_usage now o ∷ xs) = remember_all m xs

-- The clock of the task loop does not go back from `lo` up to `hi`, and what is collected of the
-- tasks can be shown.
abbrev pub Orderly : {F : Type 0} → Time → List (Collection F) → Time → Type 0
Orderly lo [] hi = lo ≤ hi
Orderly lo (of_zcode now o ∷ xs) hi = (lo ≤ now) × IsShowable o × Orderly now xs hi
Orderly lo (of_usage now o ∷ xs) hi = Orderly lo xs hi

module _ {F : Type 0} (fl : Floating F) where
  unfoldable pub collect : Collection F → SnapshotStore F → SnapshotStore F
  collect (of_zcode now o) s = collect_zcode_once fl now o s
  collect (of_usage now o) s = collect_command_code_once fl now o s

  unfoldable pub collect_all : List (Collection F) → SnapshotStore F → SnapshotStore F
  unfolding collect
  collect_all [] s = s
  collect_all (x ∷ xs) s = collect_all xs (collect x s)

  put_usage :
      (s : SnapshotStore F) (c : CommandCodeState F)
      → IsValid fl s.state
      → (update_command_code fl s c).0.state.zcode ≡ s.state.zcode
  unfolding derive_overall
  put_usage s c v =
      let (q, r, t) = update_command_code_lem fl s c v in
      elim (Option-cases (update_command_code fl s c).1) [
        | inl done ↦ ap (λ (t : HudState F). t.zcode) (r done)
        | inr (e, refused) ↦
            ap (λ (t : SnapshotStore F). t.state.zcode)
              (t (λ h. let bad : some e ≡ none = sym refused ∙ h in cc))
      ]

  usage_leaves :
      (now : Time) (o : Outcome (UsageSummary F)) (s : SnapshotStore F)
      → IsValid fl s.state
      → (collect_command_code_once fl now o s).state.zcode ≡ s.state.zcode
  unfolding collect_command_code_once record_command_code_failure
  usage_leaves now (failed text) s v = put_usage s _ v
  usage_leaves now nothing s v = put_usage s _ v
  usage_leaves now (collected u) s v = put_usage s _ v

  collect-IsValid :
      (x : Collection F) (s : SnapshotStore F) → IsValid fl s.state → IsValid fl (collect x s).state
  unfolding collect collect_zcode_once collect_command_code_once record_zcode_failure
      record_command_code_failure apply
  collect-IsValid (of_zcode now (failed t)) s v = apply-IsValid fl s (put_zcode _) v
  collect-IsValid (of_zcode now nothing) s v = apply-IsValid fl s (put_zcode _) v
  collect-IsValid (of_zcode now (collected g)) s v = apply-IsValid fl s (put_zcode _) v
  collect-IsValid (of_usage now (failed t)) s v = apply-IsValid fl s (put_command_code _) v
  collect-IsValid (of_usage now nothing) s v = apply-IsValid fl s (put_command_code _) v
  collect-IsValid (of_usage now (collected u)) s v = apply-IsValid fl s (put_command_code _) v

  initial_state-IsValid :
      (now : Time) (version : String) (z c : Bool)
      → 0 < now
      → version ≢ ""
      → IsValid fl (initial_state {F = F} now version z c)
  unfolding initial_state initial_health expected_overall
  initial_state-IsValid now version z c p v = record {
    schema = refl;
    version = v;
    time = p;
    uptime = omega arith;
    zcode_health = ground arith;
    command_code_health = ground arith;
    zcode = ground arith;
    command_code = ground arith;
    overall = ground arith;
  }

  -- The snapshot that the agent starts from is accepted, whichever collectors there are.
  pub initial_accepted :
      (now : Time) (version : String) (z c : Bool)
      → 0 < now
      → version ≢ ""
      → new fl (initial_state now version z c)
        ≡ ok (record { state = initial_state now version z c })
  unfolding new
  initial_accepted now version z c p v =
      let e =
        (validate_iff fl (initial_state now version z c)).1
          (initial_state-IsValid now version z c p v) in
      rw (e, clone-eq (initial_state {F = F} now version z c)) refl

  initial_zcode :
      (now : Time) (version : String) (z c : Bool)
      → (initial_state {F = F} now version z c).zcode.summary ≡ none
  unfolding initial_state
  initial_zcode now version z c = refl

  -- What holds between collections.
  record Holds (m : Memory) (now : Time) (s : SnapshotStore F) : Type 0 where
    valid : IsValid fl s.state
    recalls : Recalls m s.state.zcode
    safe : IsSafe m now
    started : 0 < now

  IsSafe-later : (m : Memory) (lo hi : Time) → lo ≤ hi → IsSafe m lo → IsSafe m hi
  IsSafe-later none lo hi h s = tt
  IsSafe-later (some (g, last)) lo hi h (v, p, q) = (v, p, omega arith)

  collect_all-Holds :
      (m : Memory) (lo hi : Time) (xs : List (Collection F)) (s : SnapshotStore F)
      → Holds m lo s
      → Orderly lo xs hi
      → Holds (remember_all m xs) hi (collect_all xs s)
  unfolding collect_all collect
  collect_all-Holds m lo hi [] s h o = record {
    valid = h.valid;
    recalls = h.recalls;
    safe = IsSafe-later m lo hi o h.safe;
    started = omega (arith, h.started);
  }
  collect_all-Holds m lo hi (of_zcode now o ∷ xs) s h (le, w, rest) =
      let p : 0 < now = omega (arith, h.started) in
      let safe = IsSafe-later m lo now le h.safe in
      collect_all-Holds (remember m now o) now hi xs (collect_zcode_once fl now o s)
        (record {
          valid = collect-IsValid (of_zcode now o) s h.valid;
          recalls =
              subst (Recalls (remember m now o))
                (sym (collect_zcode fl m now o s h.valid h.recalls p safe w))
                (shown-Recalls m now o);
          safe = remember-IsSafe m now o p safe w;
          started = p;
        })
        rest
  collect_all-Holds m lo hi (of_usage now o ∷ xs) s h rest =
      collect_all-Holds m lo hi xs (collect_command_code_once fl now o s)
        (record {
          valid = collect-IsValid (of_usage now o) s h.valid;
          recalls = subst (Recalls m) (sym (usage_leaves now o s h.valid)) h.recalls;
          safe = h.safe;
          started = h.started;
        })
        rest

  -- Whatever the two loops have collected since the start, with a clock of the task loop that did
  -- not go back and tasks that can be shown: after one more collection of the tasks, the snapshot
  -- shows the data of the last one that succeeded, as of now if it is this one and else as stale
  -- since then, and an error without data where none has.
  pub collections_shown :
      (start now : Time) (version : String) (z c : Bool) (s : SnapshotStore F)
      (xs : List (Collection F)) (o : Outcome Gathered)
      → 0 < start
      → version ≢ ""
      → new fl (initial_state start version z c) ≡ ok s
      → Orderly start xs now
      → IsShowable o
      → (get fl (collect_zcode_once fl now o (collect_all xs s))).zcode
        ≡ shown (remember_all none xs) now o
  unfolding get
  collections_shown start now version z c s xs o p v h q w =
      let same : record { state = initial_state start version z c } ≡ s =
        let e = sym (initial_accepted start version z c p v) ∙ h in cc in
      let held =
        collect_all-Holds none start now xs s
          (subst (Holds none start) same (record {
            valid = initial_state-IsValid start version z c p v;
            recalls = initial_zcode start version z c;
            safe = tt;
            started = p;
          }))
          q in
      ap (λ (t : HudState F). t.zcode) (clone-eq _)
      ∙ collect_zcode fl (remember_all none xs) now o (collect_all xs s) held.valid held.recalls
          held.started held.safe w
