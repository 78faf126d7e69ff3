-- ===== src/Panel/Nodes/Examples.antt =====
-- A deletion of a node of the sample database, which its servers stop.
use oxydactylus.Base.{◌≡◌, refl}
use oxydactylus.Panel.Error.{err, constraint, from_sqlx}
use oxydactylus.Panel.Store.{calm, statement}
use oxydactylus.Panel.Sample.{sample_db}
use oxydactylus.Panel.Nodes.{delete_node_rows, delete_node}

delete_test : (delete_node 1 (calm sample_db)).0 ≡ err (from_sqlx (constraint "servers.node_id"))
unfolding delete_node delete_node_rows statement
delete_test = refl
