-- ===== src/Node/Docker/Ports.antt =====
-- That Docker binds the ports which the panel asks for: `fetch_server_ports` of crates/panel/src/
-- servers.rs with `create_container` of crates/node/src/docker.rs.
use Prim.Native.String.{[] as []ˢ, ◌∷◌ as ◌∷ˢ◌}
use text.Mathlib.TextLemmas.{append-nil}
use mathlib.Core.Option
use oxydactylus.Base.{
  ℕ, String, Bool, true, false, ◌≡◌, ◌≢◌, refl, sym, ap, ◌∙◌, inl, inr, Bool-cases, str_eq, eq_iff,
  Option, none, some, List, [], ◌∷◌, if◌then◌else◌, arith,
}
use oxydactylus.Base.Int.{ℤ}
use oxydactylus.Base.Text.{◌+++◌, split_once, contains_char}
use oxydactylus.Base.Text.Laws.{prepend, append-prepend, split_once-prepend_first}
use oxydactylus.Panel.Store.{Allocation}
use oxydactylus.Panel.Lifecycle.{binding, bindings}
use oxydactylus.Node.Docker.Config.{
  PortBinding, Bindings, no_bindings, insert_binding, splitn_3, with_protocol, parts_of, two_parts,
  entry_of, insert_entry, bind_port, port_bindings,
}

contains_char-prepend_last :
    (sep : ℕ) (s t : String) → contains_char sep t ≡ true → contains_char sep (prepend s t) ≡ true
unfolding contains_char
contains_char-prepend_last sep []ˢ t h = h
contains_char-prepend_last sep (c ∷ˢ s) t h = ground (arith, contains_char-prepend_last sep s t h)

split_once-append :
    (s t : String) → contains_char b':' s ≡ false → split_once b':' (s +++ ":" +++ t) ≡ some (s, t)
split_once-append s t free =
    ap (split_once b':') (append-prepend s (":" +++ t) ∙ ap (prepend s) (append-prepend ":" t))
    ∙ split_once-prepend_first b':' s t ":" free refl

abbrev pub protocol : Bool → String
protocol true = "/udp"
protocol false = "/tcp"

after_slash : Bool → String
after_slash true = "udp"
after_slash false = "tcp"

abbrev first_part : Option (String × String) → String
first_part none = ""
first_part (some p) = p.0

abbrev second_part : Option (String × String) → String
second_part none = ""
second_part (some p) = p.1

-- No address has a colon, as those of IPv4.
abbrev pub HavePlainIps : List Allocation → Type 0
HavePlainIps [] = Unit
HavePlainIps (a ∷ rest) = (contains_char b':' a.ip ≡ false) × HavePlainIps rest

-- What the two entries of an allocation do to the binding of a key.
abbrev chosen : Bool → PortBinding → Option PortBinding → Option PortBinding
chosen here b o = if here then some b else o

module _ (port_text : ℤ → String) where
  -- The text of a number has no colon and no slash.
  abbrev pub IsNumberText : Type 0
  IsNumberText =
      (n : ℤ)
      → (contains_char b':' (port_text n) ≡ false) × (contains_char b'/' (port_text n) ≡ false)

  abbrev pub binding_of : Allocation → PortBinding
  binding_of a = record { host_ip = a.ip; host_port = port_text a.port }

  abbrev pub key_of : ℤ → Bool → String
  key_of port udp = port_text port +++ protocol udp

  -- The last of the allocations with a port.
  abbrev pub later_or : Option Allocation → Bool → Allocation → Option Allocation
  later_or (some b) here a = some b
  later_or none here a = if here then some a else none

  abbrev pub last_with : ℤ → List Allocation → Option Allocation
  last_with port [] = none
  last_with port (a ∷ rest) =
      later_or (last_with port rest) (str_eq (port_text a.port) (port_text port)) a

  abbrev or_before : Option Allocation → Option PortBinding → Option PortBinding
  or_before none o = o
  or_before (some a) o = some (binding_of a)

  module _ (numbers : IsNumberText) where
    split_key :
        (port : ℤ) (udp : Bool)
        → split_once b'/' (key_of port udp) ≡ some (port_text port, after_slash udp)
    unfolding after_slash
    split_key port true =
        ap (split_once b'/') (append-prepend (port_text port) "/udp")
        ∙ split_once-prepend_first b'/' (port_text port) "udp" "/" (numbers port).1 refl
    split_key port false =
        ap (split_once b'/') (append-prepend (port_text port) "/tcp")
        ∙ split_once-prepend_first b'/' (port_text port) "tcp" "/" (numbers port).1 refl

    -- A key names its protocol.
    key-with_protocol : (port : ℤ) (udp : Bool) → with_protocol (key_of port udp) ≡ key_of port udp
    unfolding contains_char
    key-with_protocol port true =
        let slash : contains_char b'/' (port_text port +++ "/udp") ≡ true =
          ap (contains_char b'/') (append-prepend (port_text port) "/udp")
          ∙ contains_char-prepend_last b'/' (port_text port) "/udp" refl in
        rw slash refl
    key-with_protocol port false =
        let slash : contains_char b'/' (port_text port +++ "/tcp") ≡ true =
          ap (contains_char b'/') (append-prepend (port_text port) "/tcp")
          ∙ contains_char-prepend_last b'/' (port_text port) "/tcp" refl in
        rw slash refl

    bind_port-binding :
        (a : Allocation) (udp : Bool) (m : Bindings)
        → contains_char b':' a.ip ≡ false
        → bind_port (binding port_text a (protocol udp)) m
          ≡ insert_binding (key_of a.port udp) (binding_of a) m
    unfolding bind_port splitn_3
    bind_port-binding a udp m free =
        let port = port_text a.port in
        let last = port +++ protocol udp +++ "" in
        let first : split_once b':' (binding port_text a (protocol udp))
            ≡ some (a.ip, port +++ ":" +++ last) =
          split_once-append a.ip (port +++ ":" +++ last) free in
        let second : split_once b':' (port +++ ":" +++ last) ≡ some (port, last) =
          split_once-append port last (numbers a.port).0 in
        let joined : last ≡ key_of a.port udp = ap (λ t. port +++ t) (append-nil (protocol udp)) in
        ap (λ o. insert_entry (entry_of (parts_of (binding port_text a (protocol udp)) o)) m) first
        ∙ ap (λ o. insert_entry (entry_of (two_parts a.ip (port +++ ":" +++ last) o)) m) second
        ∙ ap (λ t. insert_binding (with_protocol t) (binding_of a) m) joined
        ∙ ap (λ t. insert_binding t (binding_of a) m) (key-with_protocol a.port udp)

    keys_differ :
        (a b : ℤ) (u v : Bool)
        → str_eq (key_of a u) (key_of b v) ≡ true
        → (port_text a ≡ port_text b) × (after_slash u ≡ after_slash v)
    keys_differ a b u v h =
        let same = (eq_iff (key_of a u) (key_of b v)).0 h in
        let parts = sym (split_key a u) ∙ ap (split_once b'/') same ∙ split_key b v in
        (ap first_part parts, ap second_part parts)

    -- Which of two keys are equal.
    key_test :
        (a b : ℤ) (udp : Bool)
        → str_eq (key_of a udp) (key_of b udp) ≡ str_eq (port_text a) (port_text b)
    key_test a b udp = elim (Bool-cases (str_eq (port_text a) (port_text b))) [
      | inl e ↦
          let same = (eq_iff (port_text a) (port_text b)).0 e in
          (eq_iff (key_of a udp) (key_of b udp)).1 (ap (λ t. t +++ protocol udp) same) ∙ sym e
      | inr e ↦ elim (Bool-cases (str_eq (key_of a udp) (key_of b udp))) [
        | inr f ↦ f ∙ sym e
        | inl f ↦
            let hit = (eq_iff (port_text a) (port_text b)).1 (keys_differ a b udp udp f).0 in cc
      ]
    ]

    other_protocol :
        (a b : ℤ) (u v : Bool)
        → after_slash u ≢ after_slash v
        → str_eq (key_of a u) (key_of b v) ≡ false
    other_protocol a b u v differ = elim (Bool-cases (str_eq (key_of a u) (key_of b v))) [
      | inr f ↦ f
      | inl f ↦ absurd (differ (keys_differ a b u v f).1)
    ]

    tcp≢udp : (u v : Bool) → u ≢ v → after_slash u ≢ after_slash v
    unfolding after_slash
    tcp≢udp true true d = absurd (d refl)
    tcp≢udp false false d = absurd (d refl)
    tcp≢udp true false d = ground (arith, eq_iff "udp" "tcp")
    tcp≢udp false true d = ground (arith, eq_iff "tcp" "udp")

    both_entries :
        (a : Allocation) (port : ℤ) (udp : Bool) (m : Bindings)
        → insert_binding
            (key_of a.port true)
            (binding_of a)
            (insert_binding (key_of a.port false) (binding_of a) m)
            (key_of port udp)
          ≡ chosen (str_eq (port_text a.port) (port_text port)) (binding_of a) (m (key_of port udp))
    both_entries a port true m =
        rw
          (
            key_test a.port port true,
            other_protocol a.port port false true (tcp≢udp false true (λ e. cc)),
          )
          refl
    both_entries a port false m =
        rw
          (
            other_protocol a.port port true false (tcp≢udp true false (λ e. cc)),
            key_test a.port port false,
          )
          refl

    bindings_from :
        (allocations : List Allocation) (port : ℤ) (udp : Bool) (m : Bindings)
        → HavePlainIps allocations
        → port_bindings (bindings port_text allocations) m (key_of port udp)
          ≡ or_before (last_with port allocations) (m (key_of port udp))
    unfolding port_bindings
    bindings_from [] port udp m h = refl
    bindings_from (a ∷ rest) port udp m (plain, later) =
        let m' =
          insert_binding (key_of a.port true) (binding_of a)
            (insert_binding (key_of a.port false) (binding_of a) m) in
        ap
          (λ (x : Bindings).
            port_bindings (bindings port_text rest) (bind_port (binding port_text a "/udp") x)
              (key_of port udp))
          (bind_port-binding a false m plain)
        ∙ ap (λ (x : Bindings). port_bindings (bindings port_text rest) x (key_of port udp))
            (bind_port-binding a true (insert_binding (key_of a.port false) (binding_of a) m) plain)
        ∙ bindings_from rest port udp m' later
        ∙ ap (or_before (last_with port rest)) (both_entries a port udp m)
        ∙ go (last_with port rest) (str_eq (port_text a.port) (port_text port))
      where
        go :
            (o : Option Allocation) (here : Bool)
            → or_before o (chosen here (binding_of a) (m (key_of port udp)))
              ≡ or_before (later_or o here a) (m (key_of port udp))
        go (some b) here = refl
        go none true = refl
        go none false = refl

    -- Of what the panel asks for a server, Docker is given, for each port and each of the two
    -- protocols, the address and the port of the last allocation with that port, and nothing for a
    -- port that no allocation has, if no address has a colon: of two allocations with the same port
    -- at different addresses, the first is not bound.
    pub port_bindings-bindings :
        (allocations : List Allocation) (port : ℤ) (udp : Bool)
        → HavePlainIps allocations
        → port_bindings (bindings port_text allocations) no_bindings (key_of port udp)
          ≡ Option.map binding_of (last_with port allocations)
    port_bindings-bindings allocations port udp h =
        bindings_from allocations port udp no_bindings h ∙ as_map (last_with port allocations)
      where
        as_map : (o : Option Allocation) → or_before o none ≡ Option.map binding_of o
        as_map none = refl
        as_map (some a) = refl
