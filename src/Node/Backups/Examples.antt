-- ===== src/Node/Backups/Examples.antt =====
-- The arguments of a backup, and a deletion.
use oxydactylus.Base.{String, false, ◌≡◌, ◌⊎◌, refl, List, [], ◌∷◌, str_eq, eq_iff}
use oxydactylus.Base.Text.{◌+++◌, contains_char}
use oxydactylus.Node.Error.{ok, err, invalid_argument}
use oxydactylus.Node.Backups.{Host, serve_delete_backup}
use oxydactylus.Node.Backups.Paths.{IsUuidTest, serve_delete_backup_safe}

-- A machine with one backup, whose state is the removed paths.
abbrev machine : Host
machine = record {
  State = List String;
  is_uuid = λ s. str_eq s "b0";
  run_program = λ args s. (ok tt, s);
  read_file = λ path s. (ok [], s);
  file_len = λ path s. (ok 0, s);
  remove_file = λ path s. (ok tt, path ∷ s);
  sha256 = λ bytes. "";
}

machine-IsUuidTest : IsUuidTest machine
unfolding contains_char
machine-IsUuidTest s h = let same = (eq_iff s "b0").0 h in rw same refl

serve_delete_backup_safe_example :
    (serve_delete_backup machine "b0" [] ≡ (err (invalid_argument "invalid backup_uuid"), []))
    ⊎ ((contains_char b'/' ("b0" +++ ".tar.gz") ≡ false)
        × ((serve_delete_backup machine "b0" []).1 ≡ "/var/lib/oxy/backups/b0.tar.gz" ∷ []))
serve_delete_backup_safe_example = serve_delete_backup_safe machine "b0" [] machine-IsUuidTest
