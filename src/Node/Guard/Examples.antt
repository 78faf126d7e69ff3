-- ===== src/Node/Guard/Examples.antt =====
-- A request with the right token, where any text can be a value.
use oxydactylus.Base.{String, none, some, ◌≡◌, ◌↔◌, refl, arith}
use oxydactylus.Node.Guard.{
  Metadata, IsMetadata, passed, unauthenticated, bearer, deliver, panel_call, node_call,
}
use oxydactylus.Node.Guard.Accepted.{deliver_iff}

abbrev texts : Metadata
texts = record { Value = String; try_from = λ s. some s; to_str = λ s. some s }

texts-IsMetadata : IsMetadata texts
texts-IsMetadata s t v made read =
    let first : s ≡ v = ground arith in let second : v ≡ t = ground arith in cc

refused_test : deliver texts "old" "new" none ≡ unauthenticated "invalid or missing token"
unfolding deliver panel_call node_call
refused_test = refl

abbrev secret : String
secret = "secret"

deliver_iff_example :
    (deliver texts secret secret none ≡ passed (some (bearer secret))) ↔ (secret ≡ secret)
deliver_iff_example =
    deliver_iff texts texts-IsMetadata "secret" "secret" (bearer secret) (bearer secret) none refl
      refl
