-- ===== src/Panel/Ports/Bounds.antt =====
-- That the resolved ports are ports.
use oxydactylus.Base.{
  ℕ, zero, suc, ◌+◌, ◌≤◌, String, ◌||◌, ◌≡◌, sym, inl, inr, Bool-cases, List, [], ◌∷◌, ◌++◌, All,
  All-append, arith, true,
}
use oxydactylus.Base.Int.{ℤ, pos, negsuc, leb_ℤ, ltb_ℤ, ◌≤ℤ◌}
use oxydactylus.Base.Text.{trim, contains_char, split, parse_i32}
use oxydactylus.Panel.Error.{Result, ok, err, ◌>>=◌}
use oxydactylus.Panel.Ports.{
  PortVal, number, string, other_value, or_invalid, single_port, counted_from, inclusive,
  port_range, range_of_parts, resolve_text, resolve_port, resolve_ports,
}

-- From 1 to 65535.
abbrev pub IsPort : ℤ → Type 0
IsPort p = (pos 1 ≤ℤ p) × (p ≤ℤ pos 65535)

-- A result whose ports, if it has any, are ports.
abbrev Sound : Result (List ℤ) → Type 0
Sound (ok ps) = All IsPort ps
Sound (err _) = Unit

Sound-of : (r : Result (List ℤ)) (ps : List ℤ) → Sound r → r ≡ ok ps → All IsPort ps
Sound-of (ok qs) ps h e = let same : qs ≡ ps = ground arith in rw (sym same) h
Sound-of (err x) ps h e = cc

Sound-bind :
    {A : Type 0} (r : Result A) (f : A → Result (List ℤ))
    → ((a : A) → Sound (f a))
    → Sound (r >>= f)
Sound-bind (ok a) f h = h a
Sound-bind (err x) f h = tt

single_port-Sound : (p : ℤ) → Sound (single_port p)
unfolding single_port
single_port-Sound p = elim (Bool-cases (leb_ℤ p (pos 0) || ltb_ℤ (pos 65535) p)) [
  | inl e ↦ rw (e, single_port) tt
  | inr e ↦ rw (e, single_port) ((ground arith, ground arith), tt)
]

counted_from-IsPort : (k n : ℕ) → 1 ≤ k → k + n ≤ 65536 → All IsPort (counted_from (pos k) n)
unfolding counted_from
counted_from-IsPort k zero low high = tt
counted_from-IsPort k (suc n) low high =
    ((omega arith, omega arith), counted_from-IsPort (suc k) n (omega arith) (omega arith))

port_range-Sound : (start end : ℤ) → Sound (port_range start end)
unfolding port_range inclusive
port_range-Sound (negsuc a) end =
    let negative : (ltb_ℤ end (negsuc a) || leb_ℤ (negsuc a) (pos 0) || ltb_ℤ (pos 65535) end)
        ≡ true =
      ground arith in
    rw (negative, port_range) tt
port_range-Sound (pos a) (negsuc b) =
    let negative : (ltb_ℤ (negsuc b) (pos a)
          || leb_ℤ (pos a) (pos 0)
          || ltb_ℤ (pos 65535) (negsuc b))
        ≡ true =
      ground arith in
    rw (negative, port_range) tt
port_range-Sound (pos a) (pos b) =
    elim (Bool-cases
      (ltb_ℤ (pos b) (pos a) || leb_ℤ (pos a) (pos 0) || ltb_ℤ (pos 65535) (pos b))) [
        | inl e ↦ rw (e, port_range) tt
        | inr e ↦ rw (e, port_range) (counted_from-IsPort a _ (ground arith) (ground arith))
      ]

range_of_parts-Sound : (parts : List String) → Sound (range_of_parts parts)
unfolding range_of_parts
range_of_parts-Sound [] = tt
range_of_parts-Sound (s ∷ []) = tt
range_of_parts-Sound (s ∷ t ∷ []) =
    Sound-bind (or_invalid "invalid port range" (parse_i32 (trim s))) _ λ start.
      Sound-bind (or_invalid "invalid port range" (parse_i32 (trim t))) _ (port_range-Sound start)
range_of_parts-Sound (s ∷ t ∷ u ∷ rest) = tt

resolve_port-Sound : (v : PortVal) → Sound (resolve_port v)
unfolding resolve_port resolve_text
resolve_port-Sound (number n) = Sound-bind (or_invalid "invalid port format" n) _ single_port-Sound
resolve_port-Sound (string s) = elim (Bool-cases (contains_char b'-' (trim s))) [
  | inl e ↦ rw (e, resolve_port) (range_of_parts-Sound (split b'-' (trim s)))
  | inr e ↦
      rw (e, resolve_port)
        (Sound-bind (or_invalid "invalid port" (parse_i32 (trim s))) _ single_port-Sound)
]
resolve_port-Sound other_value = tt

resolve_ports-Sound : (vs : List PortVal) → Sound (resolve_ports vs)
unfolding resolve_ports
resolve_ports-Sound [] = tt
resolve_ports-Sound (v ∷ vs) =
    both (resolve_port v) (resolve_ports vs) (resolve_port-Sound v) (resolve_ports-Sound vs)
  where
    both :
        (r r' : Result (List ℤ))
        → Sound r
        → Sound r'
        → Sound (r >>= λ ps. r' >>= λ rest. ok (ps ++ rest))
    both (ok ps) (ok qs) h h' = All-append IsPort ps qs h h'
    both (ok ps) (err x) h h' = tt
    both (err x) r' h h' = tt

-- Whatever numbers, texts and ranges a request names, each port that they resolve to is one from 1
-- to 65535.
pub resolve_ports-IsPort :
    (vs : List PortVal) (ps : List ℤ) → resolve_ports vs ≡ ok ps → All IsPort ps
resolve_ports-IsPort vs ps = Sound-of (resolve_ports vs) ps (resolve_ports-Sound vs)
