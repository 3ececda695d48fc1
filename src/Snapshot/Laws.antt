-- ===== src/Snapshot/Laws.antt =====
-- What holds of the snapshot store under its updates.
use ai_control_hud.Prelude.{◌≡◌, ◌≢◌, ◌↔◌, none, List, [], ◌∷◌, arith, ok}
use ai_control_hud.Domain.{HudState, ZCodeState, CommandCodeState, Floating}
use ai_control_hud.Domain.Validate.{validate, expected_overall}
use ai_control_hud.Domain.Spec.{IsValid, IsHealth, IsZCode, IsCommandCode}
use ai_control_hud.Domain.Spec.Decides.{validate_iff}
use ai_control_hud.Snapshot.{
  SnapshotStore, commit, clone-eq, new, get, replace, mutate, derive_overall, update_zcode,
  update_command_code,
}

module _ {F : Type 0} (fl : Floating F) where
  -- What a caller of the store may do to it.
  pub data Op : Type 0 where
    replace_with : HudState F → Op
    put_zcode : ZCodeState → Op
    put_command_code : CommandCodeState F → Op

  unfoldable pub apply : SnapshotStore F → Op → SnapshotStore F
  apply s (replace_with next) = (replace fl s next).0
  apply s (put_zcode z) = (update_zcode fl s z).0
  apply s (put_command_code c) = (update_command_code fl s c).0

  unfoldable pub run : SnapshotStore F → List Op → SnapshotStore F
  unfolding apply
  run s [] = s
  run s (o ∷ os) = run (apply s o) os

  commit-IsValid :
      (s : SnapshotStore F) (n : HudState F)
      → IsValid fl s.state
      → IsValid fl (commit fl (validate fl n) s (record { state = n })).0.state
  commit-IsValid s n v = ground (arith, validate_iff fl n)

  replace-eq :
      (s : SnapshotStore F) (next : HudState F)
      → replace fl s next ≡ commit fl (validate fl next) s (record { state = next })
  unfolding replace
  replace-eq s next = simp clone-eq

  mutate-eq :
      (update : HudState F → HudState F) (s : SnapshotStore F)
      → mutate fl update s
        ≡ commit fl
            (validate fl (derive_overall fl (update s.state)))
            s
            (record { state = derive_overall fl (update s.state) })
  unfolding mutate
  mutate-eq update s = simp clone-eq

  mutate-IsValid :
      (update : HudState F → HudState F) (s : SnapshotStore F)
      → IsValid fl s.state
      → IsValid fl (mutate fl update s).0.state
  mutate-IsValid update s v = rw (mutate-eq update s) (commit-IsValid s _ v)

  replace-IsValid :
      (s : SnapshotStore F) (n : HudState F)
      → IsValid fl s.state
      → IsValid fl (replace fl s n).0.state
  replace-IsValid s n v = rw (replace-eq s n) (commit-IsValid s n v)

  pub apply-IsValid :
      (s : SnapshotStore F) (o : Op) → IsValid fl s.state → IsValid fl (apply s o).state
  unfolding apply update_zcode update_command_code
  apply-IsValid s (replace_with n) v = replace-IsValid s n v
  apply-IsValid s (put_zcode z) v = mutate-IsValid (λ st. record st { zcode = z }) s v
  apply-IsValid s (put_command_code c) v = mutate-IsValid (λ st. record st { command_code = c }) s v

  run_from-IsValid :
      (s : SnapshotStore F) (os : List Op) → IsValid fl s.state → IsValid fl (run s os).state
  unfolding run
  run_from-IsValid s [] v = v
  run_from-IsValid s (o ∷ os) v = run_from-IsValid (apply s o) os (apply-IsValid s o v)

  -- Whatever the initial snapshot that `New` accepts and whatever updates follow, accepted or
  -- refused, what `Get` returns is a valid snapshot.
  pub run-IsValid :
      (initial : HudState F) (s : SnapshotStore F) (os : List Op)
      → new fl initial ≡ ok s
      → IsValid fl (get fl (run s os))
  unfolding new get
  run-IsValid initial s os h =
      rw clone-eq
        (run_from-IsValid s os (ground (arith, validate_iff fl initial, clone-eq initial)))

  with_zcode-IsValid :
      (st : HudState F) (z : ZCodeState)
      → IsValid fl st
      → IsValid fl (derive_overall fl (record st { zcode = z })) ↔ (IsHealth z.health × IsZCode z)
  unfolding derive_overall expected_overall
  with_zcode-IsValid st z v = ground arith

  with_command_code-IsValid :
      (st : HudState F) (c : CommandCodeState F)
      → IsValid fl st
      → IsValid fl (derive_overall fl (record st { command_code = c }))
        ↔ (IsHealth c.health × IsCommandCode fl c)
  unfolding derive_overall expected_overall
  with_command_code-IsValid st c v = ground arith

  -- Of a valid store: `UpdateZCode` succeeds exactly if the new part is valid on its own; then it
  -- puts that part in, derives the overall status anew and leaves the rest; else nothing changes.
  pub update_zcode_lem :
      (s : SnapshotStore F) (z : ZCodeState)
      → IsValid fl s.state
      → (((update_zcode fl s z).1 ≡ none) ↔ (IsHealth z.health × IsZCode z))
        × ((update_zcode fl s z).1 ≡ none
            → (update_zcode fl s z).0.state ≡ derive_overall fl (record s.state { zcode = z }))
        × ((update_zcode fl s z).1 ≢ none → (update_zcode fl s z).0 ≡ s)
  unfolding update_zcode
  update_zcode_lem s z v = rw (mutate-eq (λ st. record st { zcode = z }) s) (
      ground (
        arith,
        validate_iff fl (derive_overall fl (record s.state { zcode = z })),
        with_zcode-IsValid s.state z v,
      ))

  -- The same of `UpdateCommandCode`.
  pub update_command_code_lem :
      (s : SnapshotStore F) (c : CommandCodeState F)
      → IsValid fl s.state
      → (((update_command_code fl s c).1 ≡ none) ↔ (IsHealth c.health × IsCommandCode fl c))
        × ((update_command_code fl s c).1 ≡ none
            → (update_command_code fl s c).0.state
              ≡ derive_overall fl (record s.state { command_code = c }))
        × ((update_command_code fl s c).1 ≢ none → (update_command_code fl s c).0 ≡ s)
  unfolding update_command_code
  update_command_code_lem s c v = rw (mutate-eq (λ st. record st { command_code = c }) s) (
      ground (
        arith,
        validate_iff fl (derive_overall fl (record s.state { command_code = c })),
        with_command_code-IsValid s.state c v,
      ))
