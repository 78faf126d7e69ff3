-- ===== src/Node/Backups.antt =====
-- The backups of the daemon: crates/node/src/backups.rs, and `create_backup` and `delete_backup` of
-- crates/node/src/server.rs.
pub mod Paths
mod Examples
use oxydactylus.Base.{ℕ, ◌^◌, ◌%◌, ◌-◌, String, Bool, ltb, List, [], ◌∷◌, ◌++◌, if◌then◌else◌}
use oxydactylus.Base.Int.{ℤ, pos, negsuc}
use oxydactylus.Base.Text.{◌+++◌}
use oxydactylus.Node.Error.{
  NodeError, validation, from_io, Status, invalid_argument, status_of, Result, Run, pure, raise,
  ◌>>=◌, ◌>>◌, map_err,
}
use oxydactylus.Node.Service.{ServerReply, reply}

-- What the code uses of the machine and of crates: whether `Uuid::parse_str` accepts a text, the
-- run of a program with arguments, whose output and exit status are not looked at, the bytes of a
-- file, its length by its metadata, its removal, and SHA-256 in hexadecimal. An error of input and output is its text.
pub record Host : Type 1 where
  pub State : Type 0
  pub is_uuid : String → Bool
  pub run_program : List String → Run State String (Unit {0})
  pub read_file : String → Run State String (List ℕ)
  pub file_len : String → Run State String ℕ
  pub remove_file : String → Run State String (Unit {0})
  pub sha256 : List ℕ → String

abbrev pub excludes : List String → List String
excludes [] = []
excludes (ignored ∷ rest) = "--exclude" ∷ ignored ∷ excludes rest

unfoldable pub build_tar_args : String → List String → List String
build_tar_args backup_path ignored_files =
    "tar" ∷ "-czf" ∷ backup_path ∷ (excludes ignored_files ++ ("-C" ∷ "/" ∷ "." ∷ []))

-- `as i64` of a `u64`
abbrev as_i64 : ℕ → ℤ
as_i64 n = let m = n % 2 ^ 64 in if ltb m (2 ^ 63) then pos m else negsuc (2 ^ 64 - 1 - m)

pub record CreateBackupReply : Type 0 where
  pub sha256 : String
  pub bytes : ℤ

abbrev pub backup_path_of : String → String
backup_path_of backup_uuid = "/var/lib/oxy/backups/" +++ backup_uuid +++ ".tar.gz"

module _ (host : Host) where
  unfoldable pub create_backup :
      String → String → List String → Run host.State NodeError (String × ℤ)
  create_backup backup_path server_id ignored_files s =
      if host.is_uuid server_id
      then (do
        map_err from_io (
            host.run_program
              ("docker" ∷ "exec" ∷ "--" ∷ server_id ∷ build_tar_args backup_path ignored_files))
        content ← map_err from_io (host.read_file backup_path)
        size ← map_err from_io (host.file_len backup_path)
        pure (host.sha256 content, as_i64 size))
          s
      else raise (validation "invalid server_id") s

  unfoldable pub delete_backup : String → Run host.State NodeError (Unit {0})
  delete_backup backup_path = map_err from_io (host.remove_file backup_path)

  -- The requests of the service.
  unfoldable pub serve_create_backup :
      String → String → List String → Run host.State Status CreateBackupReply
  serve_create_backup server_id backup_uuid ignored_files s =
      if host.is_uuid backup_uuid
      then (do
        done ←
            map_err status_of (create_backup (backup_path_of backup_uuid) server_id ignored_files)
        pure record { sha256 = done.0; bytes = done.1 })
          s
      else raise (invalid_argument "invalid backup_uuid") s

  unfoldable pub serve_delete_backup : String → Run host.State Status ServerReply
  serve_delete_backup backup_uuid s =
      if host.is_uuid backup_uuid
      then (do
        map_err status_of (delete_backup (backup_path_of backup_uuid))
        pure (reply "backup deleted"))
          s
      else raise (invalid_argument "invalid backup_uuid") s
