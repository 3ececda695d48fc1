-- ===== src/CommandCode/Values.antt =====
-- Decoded JSON, and `number` and `timestamp` of agent/internal/collector/commandcode/collector.go.
-- JSON, the texts of numbers and times, and the arithmetic of `float64` come from outside; the code
-- reads no array.
use ai_control_hud.Prelude.{
  ℕ, ◌+◌, ◌*◌, ◌^◌, ℤ, pos, String, Bool, ◌||◌, Option, none, some, ltb, ◌==◌, str_eq, trim_text,
  if◌then◌else◌,
}
use ai_control_hud.Domain.{Time, Floating}
use ai_control_hud.Zcode.Values.{unix_epoch}

-- A decoded value. The keys of an object are unique.
mutual
  pub data Json : Type 0 where
    json_null json_array : Json
    json_bool : Bool → Json
    json_number json_text : String → Json
    json_object : Members → Json

  pub data Members : Type 0 where
    no_members : Members
    member : String → Json → Members → Members

-- `object[key]`, nil for a missing key.
unfoldable pub field : String → Members → Json
field key no_members = json_null
field key (member k v rest) = if str_eq k key then v else field key rest

-- `value.(map[string]any)`
abbrev pub as_object : Json → Option Members
as_object (json_object o) = some o
as_object _ = none

-- What comes from outside: `number_of` is the finite float64 of a text, if it is one, `int_of` is
-- strconv.ParseInt, `has_fraction` tells of '.', 'e' or 'E', `float_time` is the branch of
-- `timestamp` on a float64, and `text_time` is time.Parse.
pub record Outside (F : Type 0) : Type 0 where
  pub floating : Floating F
  pub add : F → F → F
  pub divide : F → F → F
  pub times : F → F → F
  pub larger : F → F → F
  pub smaller : F → F → F
  pub at_most : F → F → Bool
  pub of_nat : ℕ → F
  pub number_of : String → Option F
  pub int_of : String → Option ℤ
  pub has_fraction : String → Bool
  pub float_time : F → Option Time
  pub text_time : String → Option Time
  pub decode : String → Option Json

module _ {F : Type 0} (out : Outside F) where
  open out use {floating, number_of, int_of, has_fraction, float_time, text_time}

  unfoldable pub number : Json → Option F
  number (json_number t) = number_of t
  number (json_text t) = number_of (trim_text t)
  number _ = none

  -- `value, _ := number(…)`
  abbrev pub or_zero : Option F → F
  or_zero none = floating.zero
  or_zero (some x) = x

  by_float : Option F → Option Time → Option Time
  by_float none rest = rest
  by_float (some x) rest = if floating.less floating.zero x then float_time x else rest

  -- A whole number above 0: milliseconds above 10^10, else seconds.
  whole_time : ℕ → Time
  whole_time raw =
      if ltb (10 ^ 10) raw then unix_epoch * 10 ^ 9 + raw * 10 ^ 6 else (unix_epoch + raw) * 10 ^ 9

  -- The integer that is read before any conversion.
  whole_of : String → Option ℕ
  whole_of text =
      if str_eq text "" || has_fraction text
      then none
      else elim (int_of text) [ some (pos n) ↦ if n == 0 then none else some n | _ ↦ none ]

  unfoldable pub timestamp : Json → Option Time
  unfolding number by_float whole_time whole_of
  timestamp (json_number t) = elim (whole_of (trim_text t)) [
    | some raw ↦ some (whole_time raw)
    | none ↦ by_float (number (json_number t)) none
  ]
  timestamp (json_text t) =
      by_float (number (json_text t))
        (if str_eq (trim_text t) "" then none else text_time (trim_text t))
  timestamp _ = none
