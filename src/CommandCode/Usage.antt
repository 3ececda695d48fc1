-- ===== src/CommandCode/Usage.antt =====
-- What agent/internal/collector/commandcode returns passes the checks of
-- agent/internal/domain/state.go.
use ai_control_hud.Prelude.{
  ℕ, ◌<◌, ◌≡◌, ◌≢◌, refl, sym, ◌∙◌, subst, String, true, false, Option, none, some, List, [], ◌∷◌,
  ◌++◌, arith, str_eq, eq_iff, ltb, size, codes, cut, trim_text, Option-cases, Bool-cases, inl, inr,
  ◌⊎◌, if◌then◌else◌,
}
use ai_control_hud.Domain.{UsageSummary, CreditBalance, UsageWindow}
use ai_control_hud.Domain.Spec.{IsUsage, IsCredit, IsWindow, AreWindows, AtMost, WhenPresent}
use ai_control_hud.CommandCode.Billing.{
  Answer, credits_of, plan_of, parse_plan, plan_by_id, known_plan, with_plan, with_limit, limited,
  window_of, plan_in, plan_body, unreachable, oversized, answered, parse_usage_window,
}
use ai_control_hud.CommandCode.Values.{
  Outside, Members, Json, json_null, json_array, json_bool, json_number, json_text, json_object,
  number, field, or_zero, as_object,
}

-- What the code relies on of float64, whose values here are no NaN.
pub record FloatLaws {F : Type 0} (out : Outside F) : Type 0 where
  pub sum :
      (x y : F)
      → out.floating.less x out.floating.zero ≡ false
      → out.floating.less y out.floating.zero ≡ false
      → out.floating.less (out.add x y) out.floating.zero ≡ false
  pub larger_zero :
      (x : F) → out.floating.less (out.larger out.floating.zero x) out.floating.zero ≡ false
  pub share :
      (x cap : F)
      → out.floating.less out.floating.zero cap ≡ true
      → out.floating.less x out.floating.zero ≡ false
      → out.floating.less
          (out.smaller out.floating.hundred (out.times (out.divide x cap) out.floating.hundred))
          out.floating.zero
        ≡ false
  pub smaller_hundred :
      (x : F) → out.floating.less out.floating.hundred (out.smaller out.floating.hundred x) ≡ false
  pub positive : (n : ℕ) → 0 < n → out.floating.less out.floating.zero (out.of_nat n) ≡ true
  pub not_less : (x y : F) → out.at_most x y ≡ true → out.floating.less y x ≡ false

text-ne : (s t : String) → str_eq s t ≡ false → s ≢ t
text-ne s t h e = let k : str_eq s t ≡ true = (eq_iff s t).1 e in cc

module _ {F : Type 0} (out : Outside F) (laws : FloatLaws out) where
  open out use {floating, at_most, of_nat}

  -- No window, or one of this name.
  IsNamed : String → List (UsageWindow F) → Type 0
  IsNamed name ws =
      (ws ≡ []) ⊎ ((w : UsageWindow F) × (ws ≡ w ∷ []) × (w.name ≡ name) × IsWindow floating w)

  window_of-IsNamed :
      (name : String) (o : Members) → name ≢ "" → IsNamed name (window_of out name o)
  unfolding IsNamed window_of
  window_of-IsNamed name o n = elim (Option-cases (number out (field "cap" o))) [
    | inl no_cap ↦ inl (rw (window_of, no_cap) refl)
    | inr (cap, given) ↦ elim (Bool-cases (floating.less floating.zero cap)) [
      | inr not_positive ↦ inl (rw (window_of, given, not_positive) refl)
      | inl positive ↦
          rw (window_of, given, positive)
            (inr (
              _,
              refl,
              refl,
              (
                n,
                (
                  laws.share _ cap positive
                      (laws.larger_zero (or_zero out (number out (field "used" o)))),
                  laws.smaller_hundred _,
                ),
              ),
            ))
    ]
  ]

  parse-IsNamed :
      (limits : Option Members) (key name : String)
      → name ≢ ""
      → IsNamed name (parse_usage_window out limits key name)
  unfolding IsNamed parse_usage_window
  parse-IsNamed none key name n = inl refl
  parse-IsNamed (some limits) key name n = elim (Option-cases (as_object (field key limits))) [
    | inl absent ↦ inl (rw (parse_usage_window, absent) refl)
    | inr (o, there) ↦ rw (parse_usage_window, there) (window_of-IsNamed name o n)
  ]

  AreWindows-two :
      (a b : String) (vs ws : List (UsageWindow F))
      → a ≢ b
      → IsNamed a vs
      → IsNamed b ws
      → AreWindows floating (vs ++ ws)
  unfolding IsNamed
  AreWindows-two a b vs ws n (inl e) (inl f) = rw (e, f) (tt, tt)
  AreWindows-two a b vs ws n (inl e) (inr (w, f, _, v)) = rw (e, f) ((v, tt), (tt, tt))
  AreWindows-two a b vs ws n (inr (w, e, _, v)) (inl f) = rw (e, f) ((v, tt), (tt, tt))
  AreWindows-two a b vs ws n (inr (w, e, p, v)) (inr (x, f, q, y)) =
      rw (e, f) ((v, (y, tt)), (((λ h. n (sym p ∙ h ∙ q)), tt), (tt, tt)))

  pub credits_of-IsUsage :
      (root credits : Members) (monthly : F)
      → floating.less monthly floating.zero ≡ false
      → IsUsage floating (credits_of out root credits monthly)
  unfolding credits_of
  credits_of-IsUsage root credits monthly h = (
    (laws.sum _ _ (laws.sum _ _ h (laws.larger_zero _)) (laws.larger_zero _), tt, tt),
    AreWindows-two "5h" "weekly" _ _ (text-ne "5h" "weekly" refl)
        (parse-IsNamed _ "fiveHour" "5h" (text-ne "5h" "" refl))
        (parse-IsNamed _ "weekly" "weekly" (text-ne "weekly" "" refl)),
  )

  abbrev IsLimit : Option F → Type 0
  IsLimit = WhenPresent (λ x. floating.less floating.zero x ≡ true)

  limited-IsCredit :
      (limit o : Option F) (c : CreditBalance F)
      → IsLimit limit
      → o ≡ c.remaining
      → IsCredit floating c
      → IsCredit floating (limited out limit o c)
  unfolding limited
  limited-IsCredit none o c l e h = h
  limited-IsCredit (some x) none c l e h = h
  limited-IsCredit (some x) (some r) c l e (low, high, most) = elim (Bool-cases (at_most r x)) [
    | inr over ↦ rw (limited, over) (low, high, most)
    | inl within ↦
        rw (limited, within)
          (low, l, subst (λ q. AtMost floating q (some x)) e (laws.not_less r x within))
  ]

  known_plan-positive : (id : String) → WhenPresent (λ (p : String × ℕ). 0 < p.1) (known_plan id)
  unfolding known_plan
  known_plan-positive id = ground arith

  plan_by_id-IsLimit : (id : String) → IsLimit (plan_by_id out id).1
  unfolding plan_by_id
  plan_by_id-IsLimit id = elim (Bool-cases (str_eq id "")) [
    | inl empty ↦ rw (plan_by_id, empty) tt
    | inr text ↦
        let short = if ltb 128 (size (codes id)) then cut 128 id else id in
        elim (Option-cases (known_plan short)) [
          | inl unknown ↦ rw (plan_by_id, text, unknown) tt
          | inr ((label, n), known) ↦
              rw (plan_by_id, text, known)
                (laws.positive n (
                  subst (WhenPresent (λ (p : String × ℕ). 0 < p.1)) known
                    (known_plan-positive short)))
        ]
  ]

  plan_value-IsLimit : (o : Members) → IsLimit (plan_in out (some o)).1
  unfolding plan_in
  plan_value-IsLimit o = by_value (field "planId" o) refl
    where
      by_value : (j : Json) → field "planId" o ≡ j → IsLimit (plan_in out (some o)).1
      by_value (json_text id) e = rw (plan_in, e) (plan_by_id-IsLimit (trim_text id))
      by_value json_null e = rw (plan_in, e) tt
      by_value json_array e = rw (plan_in, e) tt
      by_value (json_bool b) e = rw (plan_in, e) tt
      by_value (json_number t) e = rw (plan_in, e) tt
      by_value (json_object m) e = rw (plan_in, e) tt

  plan_in-IsLimit : (o : Option Members) → IsLimit (plan_in out o).1
  unfolding plan_in
  plan_in-IsLimit none = tt
  plan_in-IsLimit (some o) = plan_value-IsLimit o

  plan_body-IsLimit : (j : Option Json) → IsLimit (plan_body out j).1
  unfolding plan_body parse_plan
  plan_body-IsLimit (some (json_object o)) =
      ground (arith, plan_in-IsLimit (as_object (field "data" o)))
  plan_body-IsLimit none = tt
  plan_body-IsLimit (some json_null) = tt
  plan_body-IsLimit (some json_array) = tt
  plan_body-IsLimit (some (json_bool b)) = tt
  plan_body-IsLimit (some (json_number t)) = tt
  plan_body-IsLimit (some (json_text t)) = tt

  pub plan_of-IsLimit : (a : Answer) → IsLimit (plan_of out a).1
  unfolding plan_of
  plan_of-IsLimit unreachable = tt
  plan_of-IsLimit oversized = tt
  plan_of-IsLimit (answered status body) = ground (arith, plan_body-IsLimit (out.decode body))

  pub with_plan-IsUsage :
      (p : String × Option F) (u : UsageSummary F)
      → IsLimit p.1
      → IsUsage floating u
      → IsUsage floating (with_plan out p u)
  unfolding with_plan with_limit
  with_plan-IsUsage (plan, limit) u l (c, w) = (credit-IsCredit u.credit c, w)
    where
      credit-IsCredit :
          (o : Option (CreditBalance F))
          → WhenPresent (IsCredit floating) o
          → WhenPresent (IsCredit floating) (with_limit out limit o)
      credit-IsCredit none h = tt
      credit-IsCredit (some b) h = limited-IsCredit limit b.remaining b l refl h
