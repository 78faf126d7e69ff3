-- ===== src/Node/Backups/Paths.antt =====
-- Which files and programs the backups of the daemon touch: crates/node/src/backups.rs and server.rs.
use Prim.Native.String.{[] as []ˢ, ◌∷◌ as ◌∷ˢ◌}
use oxydactylus.Base.{
  String, true, false, ◌≡◌, refl, ap, ◌∙◌, ◌⊎◌, inl, inr, Bool-cases, Option, none, some, List, [],
  ◌∷◌, ◌++◌, str_eq, if◌then◌else◌, arith,
}
use oxydactylus.Base.Text.{◌+++◌, contains_char}
use oxydactylus.Base.Text.Laws.{append-prepend, prepend}
use oxydactylus.Node.Error.{
  invalid_argument, Result, ok, err, status_of, map_err, Run, pure, continue, ◌>>◌,
}
use oxydactylus.Node.Service.{reply}
use oxydactylus.Node.Backups.{
  Host, backup_path_of, build_tar_args, excludes, delete_backup, serve_delete_backup,
}
use mathlib.Core.Option

no_slash :
    (s : String) → contains_char b'/' s ≡ false → contains_char b'/' (prepend s ".tar.gz") ≡ false
unfolding contains_char
no_slash []ˢ h = refl
no_slash (c ∷ˢ s) h = ground (arith, no_slash s)

-- How `tar` reads its arguments: after the archive's path, each `--exclude` takes the next argument
-- as its value, up to the directory to start from; `none` where there is anything else.
read_excludes : List String → Option (List String)
read_excludes (flag ∷ value ∷ rest) =
    let more = Option.map (λ vs. value ∷ vs) (read_excludes rest) in
    if str_eq flag "--exclude" then more else if str_eq flag "-C" then some [] else none
read_excludes _ = none

unfoldable pub read_tar : List String → Option (String × List String)
unfolding read_excludes
read_tar (_ ∷ flag ∷ path ∷ rest) =
    if str_eq flag "-czf" then Option.map (λ vs. (path, vs)) (read_excludes rest) else none
read_tar _ = none

read_excludes_lem :
    (ignored : List String)
    → read_excludes (excludes ignored ++ ("-C" ∷ "/" ∷ "." ∷ [])) ≡ some ignored
unfolding read_excludes
read_excludes_lem [] = refl
read_excludes_lem (f ∷ rest) = rw (read_excludes_lem rest) refl

-- `tar` reads the arguments of a backup as the path of the archive and exactly the files to leave
-- out, whatever these are named: none of them is taken for an option.
read_tar-build_tar_args :
    (path : String) (ignored : List String)
    → read_tar (build_tar_args path ignored) ≡ some (path, ignored)
unfolding read_tar build_tar_args
read_tar-build_tar_args path ignored = rw (read_excludes_lem ignored) refl

-- What stands behind a part changes nothing.
replying-keeps : {S E A B : Type 0} (m : Run S E A) (b : B) (s : S) → ((m >> pure b) s).1 ≡ (m s).1
replying-keeps {S} {E} {A} {B} m b s = go (m s)
  where
    go : (q : Result E A × S) → (continue q.0 (λ _. pure b) q.1).1 ≡ q.1
    go (ok a, s') = refl
    go (err e, s') = refl

module _ (host : Host) where
  -- What `Uuid::parse_str` accepts are hexadecimal digits with hyphens, in braces or behind
  -- `urn:uuid:`.
  abbrev pub IsUuidTest : Type 0
  IsUuidTest = (s : String) → host.is_uuid s ≡ true → contains_char b'/' s ≡ false

  -- A request to delete a backup is refused and changes nothing, or it does what the removal of one
  -- file does, which stands in the directory of the backups itself: its name has no slash.
  pub serve_delete_backup_safe :
      (uuid : String) (s : host.State)
      → IsUuidTest
      → (serve_delete_backup host uuid s ≡ (err (invalid_argument "invalid backup_uuid"), s))
        ⊎ ((contains_char b'/' (uuid +++ ".tar.gz") ≡ false)
            × ((serve_delete_backup host uuid s).1
                ≡ (host.remove_file ("/var/lib/oxy/backups/" +++ (uuid +++ ".tar.gz")) s).1))
  unfolding serve_delete_backup delete_backup
  serve_delete_backup_safe uuid s law = elim (Bool-cases (host.is_uuid uuid)) [
    | inr bad ↦ inl (rw bad refl)
    | inl good ↦ inr (
      ap (contains_char b'/') (append-prepend uuid ".tar.gz") ∙ no_slash uuid (law uuid good),
      rw good (
          replying-keeps (map_err status_of (delete_backup host (backup_path_of uuid)))
            (reply "backup deleted") s),
    )
  ]
