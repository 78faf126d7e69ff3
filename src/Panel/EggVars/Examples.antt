-- ===== src/Panel/EggVars/Examples.antt =====
-- Variables, rules and values.
use Prim.Native.Char.{char}
use Prim.Native.String.{◌∷◌}
use mathlib.Core.List.{[] as []ᴸ, ◌∷◌ as ◌∷ᴸ◌}
use oxydactylus.Base.{◌≡◌, refl, String, Bool, true, false, Option, none, some, Memᴰ}
use oxydactylus.Base.Text.{strip_prefix, split_once, parse_usize}
use oxydactylus.Panel.Error.{ok}
use oxydactylus.Panel.Store.{EggVariable}
use oxydactylus.Panel.EggVars.{
  next_rule, rules_from, parse_rules, check_max, check_rule, check_rules, validate_parts,
  validate_var,
}
use oxydactylus.Panel.EggVars.Fuel.{rules_of, parse_rules-cons}

abbrev no_regex : String → Option (String → Bool)
no_regex _ = none

parse_test :
    parse_rules "required|regex:/a|b/|max:5" ≡ "required" ∷ᴸ "regex:/a|b/" ∷ᴸ "max:5" ∷ᴸ []ᴸ
unfolding parse_rules rules_from next_rule strip_prefix split_once
parse_test = refl

parse_rules-cons_example :
    parse_rules (char 114 tt ∷ "|max:5")
    ≡ (next_rule (char 114 tt ∷ "|max:5")).0 ∷ᴸ rules_of (next_rule (char 114 tt ∷ "|max:5")).1
parse_rules-cons_example = parse_rules-cons (char 114 tt) "|max:5"

here : Memᴰ "max:5" (parse_rules "string|max:5")
unfolding parse_rules rules_from next_rule strip_prefix split_once
here = Memᴰ.tail (Memᴰ.head refl)

bound : strip_prefix "max:" "max:5" ≡ some "5"
unfolding strip_prefix
bound = refl

accepted : validate_var no_regex "NAME" "abc" "string|max:5" ≡ ok tt
unfolding validate_var validate_parts check_rules check_rule check_max parse_rules rules_from
    next_rule strip_prefix split_once parse_usize
accepted = refl

abbrev version : EggVariable
version = record {
  id = 1;
  egg_id = 2;
  name = "Version";
  description = none;
  env_variable = "VERSION";
  default_val = some "1.21";
  user_viewable = true;
  user_editable = false;
  rules = some "required";
  field_type = "text";
}
