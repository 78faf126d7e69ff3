-- ===== src/Panel/EggVars/Fuel.antt =====
-- That the loop of `parse_rules`, crates/panel/src/egg_vars.rs, ends within its fuel.
use Prim.Native.Char.{Char, code, len_utf8}
use Prim.Native.String.{[], ◌∷◌, len}
use Prim.Native.String.len as Len
use text.Mathlib.TextPositions.{len_utf8-pos}
use mathlib.Core.Option as Option
use mathlib.Core.List.{◌∷◌ as ◌∷ᴸ◌}
use oxydactylus.Base.{
  ℕ, zero, suc, ◌+◌, ◌≤◌, ◌<◌, String, ◌≡◌, refl, sym, ap, inl, inr, Bool-cases, ◌==◌, none, some,
  List, arith,
}
use oxydactylus.Base.Text.{split_once, strip_prefix}
use oxydactylus.Panel.EggVars.{
  drop_bar, after_pattern, after_bar, next_of, next_rule, rules_from, parse_rules,
}

len-cons : (c : Char) (s : String) → len s < len (c ∷ s)
len-cons c s =
    let split : len (c ∷ s) ≡ len_utf8 c + len s = Len.cons c s in
    let some_bytes : len_utf8 c ≡ suc (len_utf8-pos c).0 = (len_utf8-pos c).1 in omega arith

-- What stands behind a separator is shorter.
split_once-len :
    (sep : ℕ) (s : String) (p : String × String) → split_once sep s ≡ some p → len p.1 < len s
unfolding split_once
split_once-len sep [] p h = cc
split_once-len sep (c ∷ s) p h = elim (Bool-cases (code c == sep)) [
  | inl e ↦ let same : ([], s) ≡ p = ground arith in rw (sym same) (len-cons c s)
  | inr e ↦ go (λ q. split_once-len sep s q) (split_once sep s) refl (rw e at h)
]
  where
    go :
        ((q : String × String) → split_once sep s ≡ some q → len q.1 < len s)
        → (o : Option.Option (String × String)) → split_once sep s ≡ o
        → Option.map (λ q. (c ∷ q.0, q.1)) o ≡ some p
        → len p.1 < len (c ∷ s)
    go shorter none e h' = cc
    go shorter (some q) e h' =
        let same : q.1 ≡ p.1 = ground arith in
        let first : len q.1 < len s = shorter q e in
        let second : len s < len (c ∷ s) = len-cons c s in rw (sym same) (omega arith)

strip_prefix-len : (p s r : String) → strip_prefix p s ≡ some r → len r ≤ len s
unfolding strip_prefix
strip_prefix-len [] s r h = let same : s ≡ r = ground arith in rw same (omega arith)
strip_prefix-len (c ∷ p) [] r h = cc
strip_prefix-len (c ∷ p) (d ∷ s) r h = elim (Bool-cases (code d == code c)) [
  | inl e ↦
      let later : len r ≤ len s = strip_prefix-len p s r (rw e at h) in
      let longer : len s < len (d ∷ s) = len-cons d s in omega arith
  | inr e ↦ let absurd = rw e at h in cc
]

drop_bar-len : (s : String) → len (drop_bar s) ≤ len s
drop_bar-len [] = omega arith
drop_bar-len (c ∷ s) = let longer : len s < len (c ∷ s) = len-cons c s in ground arith

after_pattern-len :
    (s t r : String) (o : Option.Option (String × String))
    → split_once b'/' t ≡ o
    → len t ≤ len s
    → (after_pattern s o).1 ≡ some r
    → len r < len s
after_pattern-len s t r none e short h = cc
after_pattern-len s t r (some p) e short h =
    let same : drop_bar p.1 ≡ r = ground arith in
    let first : len p.1 < len t = split_once-len b'/' t p e in
    let second : len (drop_bar p.1) ≤ len p.1 = drop_bar-len p.1 in rw (sym same) (omega arith)

after_bar-len :
    (s r : String) (o : Option.Option (String × String))
    → split_once b'|' s ≡ o
    → (after_bar s o).1 ≡ some r
    → len r < len s
after_bar-len s r none e h = cc
after_bar-len s r (some p) e h =
    let same : p.1 ≡ r = ground arith in rw (sym same) (split_once-len b'|' s p e)

-- Each round leaves less.
next_rule-len : (s r : String) → (next_rule s).1 ≡ some r → len r < len s
unfolding next_rule
next_rule-len s r = go (strip_prefix "regex:/" s) refl
  where
    go :
        (o : Option.Option String)
        → strip_prefix "regex:/" s ≡ o
        → (next_of s o).1 ≡ some r
        → len r < len s
    go none e = after_bar-len s r (split_once b'|' s) refl
    go (some t) e =
        after_pattern-len s t r (split_once b'/' t) refl (strip_prefix-len "regex:/" s t e)

rules_from-eq :
    (n m : ℕ) (s : String) → len s < n → len s < m → rules_from n (some s) ≡ rules_from m (some s)
unfolding rules_from
rules_from-eq zero m s low low' = elim low [ ]
rules_from-eq (suc n) zero s low low' = elim low' [ ]
rules_from-eq (suc n) (suc m) [] low low' = refl
rules_from-eq (suc n) (suc m) (c ∷ s) low low' =
    ap (λ l. (next_rule (c ∷ s)).0 ∷ᴸ l) (go (λ r. rules_from-eq n m r) (next_rule (c ∷ s)).1 refl)
  where
    go :
        ((r : String) → len r < n → len r < m → rules_from n (some r) ≡ rules_from m (some r))
        → (o : Option.Option String) → (next_rule (c ∷ s)).1 ≡ o
        → rules_from n o ≡ rules_from m o
    go again none e = refl
    go again (some r) e =
        let shorter : len r < len (c ∷ s) = next_rule-len (c ∷ s) r e in
        again r (omega arith) (omega arith)

-- The rules of what a round leaves, if it leaves anything.
abbrev pub rules_of : Option.Option String → List String
rules_of none = List.[]
rules_of (some r) = parse_rules r

-- The fuel is enough: on a text that is not empty, the rules are the one that a round of the loop
-- takes off, and then the rules of the whole of what the round leaves.
pub parse_rules-cons :
    (c : Char) (s : String)
    → parse_rules (c ∷ s) ≡ (next_rule (c ∷ s)).0 ∷ᴸ rules_of (next_rule (c ∷ s)).1
unfolding parse_rules rules_from
parse_rules-cons c s = ap (λ l. (next_rule (c ∷ s)).0 ∷ᴸ l) (go (next_rule (c ∷ s)).1 refl)
  where
    go :
        (o : Option.Option String)
        → (next_rule (c ∷ s)).1 ≡ o
        → rules_from (len (c ∷ s)) o ≡ rules_of o
    go none e = refl
    go (some r) e =
        rules_from-eq (len (c ∷ s)) (suc (len r)) r (next_rule-len (c ∷ s) r e) (omega arith)
