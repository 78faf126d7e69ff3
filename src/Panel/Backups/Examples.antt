-- ===== src/Panel/Backups/Examples.antt =====
-- A request to delete a locked backup.
use oxydactylus.Base.{◌≡◌, refl, true, [], ◌∷◌, find}
use oxydactylus.Panel.Error.{err, forbidden}
use oxydactylus.Panel.Store.{Backup, Db, calm, query, fetch_one, execute, statement}
use oxydactylus.Panel.Sample.{sample_db, owner_user}
use oxydactylus.Panel.Access.{
  server_by_id, fetch_server, subuser_permissions, judge, check_server_access,
}
use oxydactylus.Panel.Backups.{new_backup, backup_of, delete_unlocked, delete_backup}

abbrev locked : Backup
locked = record (new_backup 90 10 900 "before the update" [] 5) { is_locked = true }

abbrev backed_up_db : Db
backed_up_db = record sample_db { backups = locked ∷ [] }

delete_test : (delete_backup owner_user 10 90 (calm backed_up_db)).0 ≡ err forbidden
unfolding find server_by_id fetch_server subuser_permissions judge check_server_access query
    fetch_one execute statement backup_of delete_unlocked delete_backup
delete_test = refl
