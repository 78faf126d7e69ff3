-- ===== src/Panel/EggVars.antt =====
-- The variables of an egg and the rules for their values: crates/panel/src/egg_vars.rs.
pub mod Fuel
pub mod Editable
pub mod Longest
mod Examples
use Prim.Native.Char.{code}
use Prim.Native.String.{[], ◌∷◌, len}
use mathlib.Core.List.{[] as []ᴸ, ◌∷◌ as ◌∷ᴸ◌}
use oxydactylus.Base.{
  ℕ, zero, suc, String, Bool, true, false, not, ◌&&◌, ◌||◌, ◌==◌, ltb, leb, str_eq, Option, none,
  some, List, any, select, if◌then◌else◌,
}
use oxydactylus.Base.Int.{ℤ, pos, ltb_ℤ}
use oxydactylus.Base.Text.{◌+++◌, split_once, strip_prefix, is_empty, parse_i64, parse_usize}
use oxydactylus.Panel.Error.{
  PanelError, validation, of_text, of_number, Result, ok, err, ◌>>=◌, ◌>>◌,
}
use oxydactylus.Panel.Store.{Uuid, EggVariable, Db, Panel, lift, query, continue}

-- `strip_prefix('|').unwrap_or(remaining)`
abbrev pub drop_bar : String → String
drop_bar [] = []
drop_bar (c ∷ s) = if code c == b'|' then s else c ∷ s

-- The two ways in which the loop of `parse_rules` goes on: the rule that is pushed, and what
-- remains, or `none` after the last one.
abbrev pub after_pattern : String → Option (String × String) → String × Option String
after_pattern remaining none = (remaining, none)
after_pattern remaining (some (pattern, rest)) =
    ("regex:/" +++ pattern +++ "/", some (drop_bar rest))

abbrev pub after_bar : String → Option (String × String) → String × Option String
after_bar remaining none = (remaining, none)
after_bar remaining (some (rule, rest)) = (rule, some rest)

abbrev pub next_of : String → Option String → String × Option String
next_of remaining none = after_bar remaining (split_once b'|' remaining)
next_of remaining (some rest) = after_pattern remaining (split_once b'/' rest)

unfoldable pub next_rule : String → String × Option String
next_rule remaining = next_of remaining (strip_prefix "regex:/" remaining)

-- The loop on what remains, on fuel. (The second clause is out of fuel.)
unfoldable pub rules_from : ℕ → Option String → List String
rules_from n none = []ᴸ
rules_from zero (some remaining) = []ᴸ
rules_from (suc n) (some []) = []ᴸ
rules_from (suc n) (some (c ∷ s)) = (next_rule (c ∷ s)).0 ∷ᴸ rules_from n (next_rule (c ∷ s)).1

-- As many rounds as the text has bytes, and one for its end.
unfoldable pub parse_rules : String → List String
unfolding rules_from
parse_rules rules = rules_from (suc (len rules)) (some rules)

-- `strip_suffix('/')`
unfoldable pub strip_slash : String → Option String
strip_slash [] = none
strip_slash (c ∷ []) = if code c == b'/' then some [] else none
strip_slash (c ∷ d ∷ s) = elim (strip_slash (d ∷ s)) [ none ↦ none | some t ↦ some (c ∷ t) ]

abbrev pub or_invalid : {A : Type 0} → PanelError → Option A → Result A
or_invalid e none = err e
or_invalid e (some a) = ok a

abbrev pub unless : Bool → PanelError → Result (Unit {0})
unless b e = if b then err e else ok tt

-- `parts.iter().any(|r| r == …)`
abbrev pub has_rule : String → List String → Bool
has_rule name parts = any (λ r. str_eq r name) parts

-- `new_regex` is `Regex::new`: `none` for a text that is no pattern, or else its `is_match`.
module _ (new_regex : String → Option (String → Bool)) (env_variable value : String) where
  abbrev pub must_be_integer : PanelError
  must_be_integer = validation (of_text "{}: must be an integer" env_variable)

  unfoldable pub check_max : Bool → String → Result (Unit {0})
  check_max is_integer_field n =
      if is_integer_field
      then (or_invalid (validation (of_text "{}: invalid max rule" env_variable)) (parse_i64 n)
          >>= λ max_val. or_invalid must_be_integer (parse_i64 value) >>= λ int_val.
              unless (ltb_ℤ max_val int_val)
                (validation (of_number "{}: must be <= {}" env_variable max_val)))
      else (or_invalid (validation (of_text "{}: invalid max rule" env_variable)) (parse_usize n)
          >>= λ max.
              unless (ltb max (len value))
                (validation (of_number "{}: exceeds max length {}" env_variable (pos max))))

  unfoldable pub check_min : Bool → String → Result (Unit {0})
  check_min is_integer_field n =
      if is_integer_field
      then (or_invalid (validation (of_text "{}: invalid min rule" env_variable)) (parse_i64 n)
          >>= λ min_val. or_invalid must_be_integer (parse_i64 value) >>= λ int_val.
              unless (ltb_ℤ int_val min_val)
                (validation (of_number "{}: must be >= {}" env_variable min_val)))
      else (or_invalid (validation (of_text "{}: invalid min rule" env_variable)) (parse_usize n)
          >>= λ min.
              unless (ltb (len value) min)
                (validation (of_number "{}: below min length {}" env_variable (pos min))))

  unfoldable pub check_pattern : Option String → Result (Unit {0})
  check_pattern none = ok tt
  check_pattern (some pat) =
      or_invalid (validation (of_text "{}: invalid regex pattern" env_variable)) (new_regex pat)
      >>= λ is_match.
          unless (not (is_match value))
            (validation (of_text "{}: does not match required pattern" env_variable))

  abbrev pub pattern_of : Option String → Option String
  pattern_of none = none
  pattern_of (some s) = strip_slash s

  abbrev pub check_bounds : Bool → String → Option String → Option String → Result (Unit {0})
  check_bounds is_integer_field rule (some n) _ = check_max is_integer_field n
  check_bounds is_integer_field rule none (some n) = check_min is_integer_field n
  check_bounds is_integer_field rule none none =
      check_pattern (pattern_of (strip_prefix "regex:/" rule))

  -- The body of the loop over the rules.
  unfoldable pub check_rule : Bool → String → Result (Unit {0})
  check_rule is_integer_field rule =
      if str_eq rule "required" || str_eq rule "nullable" || str_eq rule "string"
      then ok tt
      else if str_eq rule "integer"
      then (or_invalid must_be_integer (parse_i64 value) >>= λ _. ok tt)
      else if str_eq rule "boolean"
      then unless (not (str_eq value "true") && not (str_eq value "false"))
          (validation (of_text "{}: must be true or false" env_variable))
      else check_bounds is_integer_field rule (strip_prefix "max:" rule) (strip_prefix "min:" rule)

  unfoldable pub check_rules : Bool → List String → Result (Unit {0})
  check_rules is_integer_field []ᴸ = ok tt
  check_rules is_integer_field (rule ∷ᴸ rules) =
      check_rule is_integer_field rule >> check_rules is_integer_field rules

  unfoldable pub validate_parts : List String → Result (Unit {0})
  validate_parts parts =
      if is_empty value
      then if has_rule "nullable" parts
        then ok tt
        else unless (has_rule "required" parts)
            (validation (of_text "{}: value is required" env_variable))
      else check_rules (has_rule "integer" parts) parts

  unfoldable pub validate_var : String → Result (Unit {0})
  validate_var rules = validate_parts (parse_rules rules)

-- `HashMap::get`
abbrev pub get : String → List (String × String) → Option String
get key []ᴸ = none
get key ((k, v) ∷ᴸ rest) = if str_eq k key then some v else get key rest

-- `or`, and `unwrap_or_default`
abbrev pub or_else : Option String → Option String → Option String
or_else none b = b
or_else (some a) b = some a

abbrev pub or_default : Option String → String
or_default none = []
or_default (some s) = s

-- SELECT … FROM egg_variables WHERE egg_id = $1
unfoldable pub variables_of : Uuid → Db → List EggVariable
variables_of egg_id d = select (λ v. v.egg_id == egg_id) d.egg_variables

module _ (new_regex : String → Option (String → Bool)) (user_vars : List (String × String)) where
  unfoldable pub value_of : EggVariable → String
  value_of v =
      if v.user_editable
      then or_default (or_else (get v.env_variable user_vars) v.default_val)
      else or_default v.default_val

  abbrev pub check_value : String → String → Option String → Result (Unit {0})
  check_value name val none = ok tt
  check_value name val (some r) = validate_var new_regex name val r

  -- The loop of `load_egg_env`, and the text that `format!` makes.
  unfoldable pub resolve_env : List EggVariable → Result (List String)
  resolve_env []ᴸ = ok []ᴸ
  resolve_env (v ∷ᴸ vs) = check_value v.env_variable (value_of v) v.rules >>= λ _.
      resolve_env vs >>= λ rest. ok ((v.env_variable +++ "=" +++ value_of v) ∷ᴸ rest)

  unfoldable pub load_egg_env : Uuid → Panel (List String)
  load_egg_env egg_id w =
      let (rows, w') = query (variables_of egg_id) w in
      continue rows (λ vs. lift (resolve_env vs)) w'
