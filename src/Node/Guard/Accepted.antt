-- ===== src/Node/Guard/Accepted.antt =====
-- Which requests a node accepts: crates/panel/src/node_client.rs and crates/node/src/interceptor.rs.
use oxydactylus.Base.{
  String, Option, some, ◌≡◌, refl, sym, ap, ◌∙◌, inl, inr, Bool-cases, str_eq, eq_iff, ◌↔◌,
  if◌then◌else◌, arith,
}
use oxydactylus.Base.Text.{strip_prefix}
use oxydactylus.Base.Text.Laws.{strip_prefix-append}
use oxydactylus.Node.Guard.{
  Metadata, IsMetadata, passed, unauthenticated, bearer, panel_call, node_call, deliver,
}

bearer_inj : (a b : String) → bearer a ≡ bearer b → a ≡ b
bearer_inj a b e =
    let both : some a ≡ some b =
      sym (strip_prefix-append "Bearer " a)
      ∙ ap (strip_prefix "Bearer ") e
      ∙ strip_prefix-append "Bearer " b in
    ground arith

module _ (m : Metadata) (is_metadata : IsMetadata m) where
  -- A request of the panel whose value can be made and read is accepted by a node exactly if the
  -- token that the panel keeps for the node is the one that the node was started with, whatever
  -- characters the two have.
  pub deliver_iff :
      (sent token t : String) (v : m.Value) (req : Option m.Value)
      → m.try_from (bearer sent) ≡ some v
      → m.to_str v ≡ some t
      → (deliver m sent token req ≡ passed (some v)) ↔ (sent ≡ token)
  unfolding deliver panel_call node_call
  deliver_iff sent token t v req made read =
      let same : t ≡ bearer sent = is_metadata (bearer sent) t v made read in
      rw (made, read, same)
        (accepts, λ e. rw ((eq_iff (bearer sent) (bearer token)).1 (ap bearer e)) refl)
    where
      accepts :
          (if str_eq (bearer sent) (bearer token)
              then passed (some v)
              else unauthenticated "invalid or missing token")
            ≡ passed (some v)
          → sent ≡ token
      accepts h = elim (Bool-cases (str_eq (bearer sent) (bearer token))) [
        | inl e ↦ bearer_inj sent token ((eq_iff (bearer sent) (bearer token)).0 e)
        | inr e ↦ let refused = rw e at h in cc
      ]
