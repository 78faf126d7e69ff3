-- ===== src/Panel/EggVars/Longest.antt =====
-- What a rule `max:` guarantees of a value that `validate_var` of crates/panel/src/egg_vars.rs
-- accepts.
use Prim.Native.String.{len}
use oxydactylus.Base.{
  ℕ, ◌≤◌, String, Bool, true, false, ◌≡◌, refl, sym, ap, ◌∙◌, inl, inr, Bool-cases, Option, none,
  some, List, [], ◌∷◌, Memᴰ, str_eq, eq_iff, ltb, arith,
}
use oxydactylus.Base.Int.{ℤ, ltb_ℤ, ◌≤ℤ◌}
use oxydactylus.Base.Text.{is_empty, strip_prefix, parse_i64, parse_usize}
use oxydactylus.Panel.Error.{PanelError, Result, ok, err, ◌>>=◌, ◌>>◌}
use oxydactylus.Panel.EggVars.{
  or_invalid, unless, check_max, check_rule, check_rules, has_rule, validate_parts, validate_var,
  parse_rules,
}

-- The value is within the bound `n`: as a number if its rules say that it is one, or else by its
-- length in bytes.
abbrev pub Within : String → Bool → String → Type 0
Within value true n =
    (m : ℤ) × (v : ℤ) × (parse_i64 n ≡ some m) × (parse_i64 value ≡ some v) × (v ≤ℤ m)
Within value false n = (m : ℕ) × (parse_usize n ≡ some m) × (len value ≤ m)

number_within :
    (e e' : PanelError) (f : ℤ → PanelError) (o o' : Option ℤ)
    → (or_invalid e o >>= λ m. or_invalid e' o' >>= λ v. unless (ltb_ℤ m v) (f m)) ≡ ok tt
    → (m : ℤ) × (v : ℤ) × (o ≡ some m) × (o' ≡ some v) × (v ≤ℤ m)
number_within e e' f none o' h = cc
number_within e e' f (some m) none h = cc
number_within e e' f (some m) (some v) h = elim (Bool-cases (ltb_ℤ m v)) [
  | inl over ↦ let absurd = rw over at h in cc
  | inr fits ↦ (m, v, refl, refl, ground arith)
]

length_within :
    (e : PanelError) (f : ℕ → PanelError) (o : Option ℕ) (k : ℕ)
    → (or_invalid e o >>= λ m. unless (ltb m k) (f m)) ≡ ok tt
    → (m : ℕ) × (o ≡ some m) × (k ≤ m)
length_within e f none k h = cc
length_within e f (some m) k h = elim (Bool-cases (ltb m k)) [
  | inl over ↦ let absurd = rw over at h in cc
  | inr fits ↦ (m, refl, ground arith)
]

-- Both parts of a sequence that succeeds have.
both_ok : (r r' : Result (Unit {0})) → (r >> r') ≡ ok tt → (r ≡ ok tt) × (r' ≡ ok tt)
both_ok (ok u) r' h = (refl, h)
both_ok (err x) r' h = cc

-- A rule `max:` is none of the rules that have a name.
apart :
    (rule name n : String)
    → strip_prefix "max:" rule ≡ some n
    → strip_prefix "max:" name ≡ none
    → str_eq rule name ≡ false
apart rule name n h h' = elim (Bool-cases (str_eq rule name)) [
  | inl same ↦
      let e : rule ≡ name = (eq_iff rule name).0 same in
      let clash : some n ≡ none = sym h ∙ ap (strip_prefix "max:") e ∙ h' in cc
  | inr other ↦ other
]

module _ (new_regex : String → Option (String → Bool)) (env_variable value : String) where
  check_max-Within :
      (b : Bool) (n : String)
      → check_max new_regex env_variable value b n ≡ ok tt
      → Within value b n
  unfolding check_max
  check_max-Within true n h = number_within _ _ _ (parse_i64 n) (parse_i64 value) h
  check_max-Within false n h = length_within _ _ (parse_usize n) (len value) h

  check_rule-Within :
      (b : Bool) (rule n : String)
      → strip_prefix "max:" rule ≡ some n
      → check_rule new_regex env_variable value b rule ≡ ok tt
      → Within value b n
  unfolding check_rule strip_prefix
  check_rule-Within b rule n max h =
      let required : str_eq rule "required" ≡ false = apart rule "required" n max refl in
      let nullable : str_eq rule "nullable" ≡ false = apart rule "nullable" n max refl in
      let string : str_eq rule "string" ≡ false = apart rule "string" n max refl in
      let integer : str_eq rule "integer" ≡ false = apart rule "integer" n max refl in
      let boolean : str_eq rule "boolean" ≡ false = apart rule "boolean" n max refl in
      check_max-Within b n (rw (required, nullable, string, integer, boolean, max) at h)

  check_rules-Memᴰ :
      (b : Bool) (rules : List String) (rule : String)
      → check_rules new_regex env_variable value b rules ≡ ok tt
      → Memᴰ rule rules
      → check_rule new_regex env_variable value b rule ≡ ok tt
  unfolding check_rules
  check_rules-Memᴰ b [] rule h m = elim m [ ]
  check_rules-Memᴰ b (r ∷ rules) rule h (Memᴰ.head e) =
      ap (check_rule new_regex env_variable value b) e
      ∙ (both_ok (check_rule new_regex env_variable value b r) _ h).0
  check_rules-Memᴰ b (r ∷ rules) rule h (Memᴰ.tail m) =
      check_rules-Memᴰ b rules rule (both_ok (check_rule new_regex env_variable value b r) _ h).1 m

  -- A value that is accepted and is not empty is within the bound of each of its `max:` rules, where
  -- they stand: as an integer if a rule says that it is one, and by its length in bytes if none does.
  validate_var-Within :
      (rules rule n : String)
      → is_empty value ≡ false
      → Memᴰ rule (parse_rules rules)
      → strip_prefix "max:" rule ≡ some n
      → validate_var new_regex env_variable value rules ≡ ok tt
      → Within value (has_rule "integer" (parse_rules rules)) n
  unfolding validate_var validate_parts
  validate_var-Within rules rule n filled m max h =
      check_rule-Within _ rule n max
        (check_rules-Memᴰ _ (parse_rules rules) rule (rw filled at h) m)
