-- ===== src/Panel/Allocations/Examples.antt =====
-- Requests that create and delete allocations.
use oxydactylus.Base.{◌≡◌, refl, none, some, List, [], ◌∷◌, count, arith}
use oxydactylus.Base.Int.{pos}
use oxydactylus.Base.Text.{
  trim, trim_start, trim_end, is_whitespace, parse_i32, contains_char, split,
}
use oxydactylus.Panel.Error.{ok}
use oxydactylus.Panel.Store.{calm, empty_db, execute, statement}
use oxydactylus.Panel.Ports.{
  PortVal, number, string, single_port, counted_from, inclusive, port_range, range_of_parts,
  resolve_text, resolve_port, resolve_ports,
}
use oxydactylus.Panel.Allocations.{
  CreateAllocationsRequest, insert_allocation, insert_ports, create_resolved, create_allocations,
}
use oxydactylus.Panel.Allocations.Rows.{IsDistinct}
use oxydactylus.Panel.Allocations.Created.{
  Created, create_allocations-IsDistinct, create_allocations_ok,
}

abbrev wanted : List PortVal
wanted = string "25565-25567" ∷ number (some (pos 8080)) ∷ []

resolved_test : resolve_ports wanted ≡ ok (pos 25565 ∷ pos 25566 ∷ pos 25567 ∷ pos 8080 ∷ [])
unfolding resolve_ports resolve_port resolve_text range_of_parts port_range inclusive counted_from
    single_port trim trim_start trim_end is_whitespace parse_i32 contains_char split
resolved_test = refl

abbrev body : CreateAllocationsRequest
body = record { ip = "10.0.0.1"; ip_alias = none; ports = wanted }

empty-IsDistinct : IsDistinct empty_db
unfolding count
empty-IsDistinct = record { once = λ n ip p. omega arith; ports = tt }

create_allocations-IsDistinct_example :
    IsDistinct (create_allocations (λ k. k) 0 1 body (calm empty_db)).1.db
create_allocations-IsDistinct_example =
    create_allocations-IsDistinct (λ k. k) 0 1 body (calm empty_db) empty-IsDistinct

create_test : (create_allocations (λ k. k) 0 1 body (calm empty_db)).0 ≡ ok 201
unfolding create_allocations create_resolved insert_ports insert_allocation execute statement
    resolve_ports resolve_port resolve_text range_of_parts port_range inclusive counted_from
    single_port trim trim_start trim_end is_whitespace parse_i32 contains_char split
create_test = refl

create_allocations_ok_example :
    Created 1 body empty_db (create_allocations (λ k. k) 0 1 body (calm empty_db)).1.db
create_allocations_ok_example = create_allocations_ok (λ k. k) 0 1 body (calm empty_db) create_test
