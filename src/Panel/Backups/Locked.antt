-- ===== src/Panel/Backups/Locked.antt =====
-- That a locked backup stays: crates/panel/src/backups.rs.
use mathlib.Core.Path.{subst}
use oxydactylus.Base.{
  delete-Memᴰ, ℕ, true, false, ◌&&◌, ◌==◌, ==_iff, ◌≡◌, sym, ap, ◌∙◌, inl, inr, Bool-cases, Option,
  none, some, Memᴰ, find-Memᴰ, arith,
}
use oxydactylus.Panel.Error.{not_found, text}
use oxydactylus.Panel.Permissions.{backup_delete}
use oxydactylus.Panel.Store.{Uuid, Backup, Db, World, or_raise, pure, ◌>>=◌}
use oxydactylus.Panel.Store.Frame.{kept_execute, kept_query}
use oxydactylus.Panel.Access.{AuthUser}
use oxydactylus.Panel.Access.Guarded.{kept_checked}
use oxydactylus.Panel.Backups.{backup_of, delete_backup_row, delete_unlocked, delete_backup}

module _ (b : Backup) where
  delete_unlocked-kept :
      (id : Uuid) (c : Backup) (w : World)
      → (b.id ≡ id → c ≡ b)
      → b.is_locked ≡ true
      → Memᴰ b w.db.backups
      → Memᴰ b (delete_unlocked id c w).1.db.backups
  unfolding delete_unlocked delete_backup_row
  delete_unlocked-kept id c w only locked m = elim (Bool-cases c.is_locked) [
    | inl e ↦ rw (e, delete_unlocked) m
    | inr e ↦
        let miss : (b.id == id) ≡ false = apart e in
        rw (e, delete_unlocked)
          (kept_execute (λ d. Memᴰ b d.backups) (delete_backup_row id) (λ _. pure {A = ℕ} 204) w m
            λ _ w' same.
              subst (λ d. Memᴰ b d.backups) (sym same)
                (delete-Memᴰ (λ x. x.id == id) w.db.backups b miss m))
  ]
    where
      apart : c.is_locked ≡ false → (b.id == id) ≡ false
      apart e = elim (Bool-cases (b.id == id)) [
        | inl hit ↦ let same = only ((==_iff b.id id).0 hit) in cc
        | inr miss ↦ miss
      ]

  -- A locked backup stays as it is, whoever asks to delete it or another one and whichever of the
  -- statements fail, if no other backup has its identifier.
  delete_backup-kept :
      (user : AuthUser) (server_id id : Uuid) (w : World)
      → ((c : Backup) → Memᴰ c w.db.backups → c.id ≡ b.id → c ≡ b)
      → b.is_locked ≡ true
      → Memᴰ b w.db.backups
      → Memᴰ b (delete_backup user server_id id w).1.db.backups
  unfolding delete_backup backup_of
  delete_backup-kept user server_id id w only locked m =
      kept_checked (λ d. Memᴰ b d.backups) user server_id (some backup_delete) _ w m
        λ s u w1 same1 _.
          kept_query (λ d. Memᴰ b d.backups) (backup_of id server_id) _ w1 (moved same1)
            λ o w2 same2 value. go o w2 (same2 ∙ same1) (value ∙ ap (backup_of id server_id) same1)
    where
      moved : {d : Db} → d ≡ w.db → Memᴰ b d.backups
      moved e = subst (λ d. Memᴰ b d.backups) (sym e) m

      go :
          (o : Option Backup) (w' : World)
          → w'.db ≡ w.db
          → o ≡ backup_of id server_id w.db
          → Memᴰ b
              ((or_raise (not_found (text "backup not found")) o >>= delete_unlocked id)
                w').1.db.backups
      go none w' same value = moved same
      go (some c) w' same value =
          let (mc, hit) =
            find-Memᴰ (λ x. x.id == id && x.server_id == server_id) w.db.backups c (sym value) in
          let c_id : c.id ≡ id = (==_iff c.id id).0 (ground arith) in
          delete_unlocked-kept id c w' (λ e. only c mc (c_id ∙ sym e)) locked (moved same)
