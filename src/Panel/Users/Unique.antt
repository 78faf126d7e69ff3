-- ===== src/Panel/Users/Unique.antt =====
-- That no two users share an address: the routes of crates/panel/src/users.rs keep it.
use mathlib.Core.Path.{subst}
use oxydactylus.Base.{
  last_or, ℕ, String, false, ◌≡◌, refl, sym, ◌∙◌, arith, inl, inr, [], ◌∷◌, ◌++◌, Memᴰ, any,
  any-eq-false, delete, select-Memᴰ, Bool-cases, str_eq, eq_iff, not, ◌==◌, ◌&&◌, ◌||◌, ltb,
}
use Prim.Native.String.{len}
use oxydactylus.Base.Text.{is_empty}
use oxydactylus.Panel.Store.{Uuid, Time, UserRow, Db, World, lift}
use oxydactylus.Panel.Store.Frame.{kept_bind, kept_statement}
use oxydactylus.Panel.Login.{Argon2, hash_password}
use oxydactylus.Panel.Users.{
  CreateUserRequest, insert_user, new_user, create_hashed, create_user, delete_user_rows,
  removed_user, delete_user,
}

abbrev pub OneEmail : Db → Type 0
OneEmail d = (u v : UserRow) → Memᴰ u d.users → Memᴰ v d.users → u.email ≡ v.email → u ≡ v

-- A row of an extended table is an old one or the new one.
extended-OneEmail :
    (r : UserRow) (d : Db)
    → any (λ u. str_eq u.email r.email) d.users ≡ false
    → OneEmail d
    → OneEmail (record d { users = d.users ++ (r ∷ []) })
extended-OneEmail r d fresh one u v mu mv e = elim (last_or d.users r u mu) [
  | inl old_u ↦ elim (last_or d.users r v mv) [
    | inl old_v ↦ one u v old_u old_v e
    | inr new_v ↦ elim (clash u old_u (rw (sym new_v) e)) [ ]
  ]
  | inr new_u ↦ elim (last_or d.users r v mv) [
    | inl old_v ↦ elim (clash v old_v (rw (sym new_u) (sym e))) [ ]
    | inr new_v ↦ new_u ∙ sym new_v
  ]
]
  where
    clash : (x : UserRow) → Memᴰ x d.users → x.email ≡ r.email → ⊥
    clash x m same =
        let no = any-eq-false (λ (u : UserRow). str_eq u.email r.email) d.users x fresh m in
        let yes = (eq_iff x.email r.email).1 same in cc

insert_user-OneEmail : (r : UserRow) (d : Db) → OneEmail d → OneEmail (insert_user r d).1
unfolding insert_user
insert_user-OneEmail r d one = elim (Bool-cases (any (λ u. str_eq u.email r.email) d.users)) [
  | inl taken ↦ rw taken one
  | inr fresh ↦ rw fresh (extended-OneEmail r d fresh one)
]

delete_user_rows-OneEmail : (id : Uuid) (d : Db) → OneEmail d → OneEmail (delete_user_rows id d).1
unfolding delete_user_rows delete
delete_user_rows-OneEmail id d one =
    elim (Bool-cases (any (λ u. u.id == id) d.users && any (λ s. s.user_id == id) d.servers)) [
      | inl stops ↦ rw stops one
      | inr goes ↦ rw goes λ u v mu mv e.
          one u v (select-Memᴰ (λ x. not (x.id == id)) d.users u mu).0
            (select-Memᴰ (λ x. not (x.id == id)) d.users v mv).0 e
    ]

module _ (argon2 : Argon2) where
  -- Whatever it answers, creating a user leaves every address with one user at most, if it was so
  -- before.
  pub create_user-OneEmail :
      (id : Uuid) (now : Time) (salt : String) (body : CreateUserRequest) (w : World)
      → OneEmail w.db
      → OneEmail (create_user argon2 id now salt body w).1.db
  unfolding create_user create_hashed
  create_user-OneEmail id now salt body w one =
      elim (Bool-cases (is_empty body.email || ltb (len body.password) 8)) [
        | inl bad ↦ rw bad one
        | inr good ↦ rw good (
            kept_bind OneEmail (lift (hash_password argon2 salt body.password)) _ w refl one
              λ hash w1 same _.
                kept_statement OneEmail (insert_user (new_user id now body hash)) _ w1
                  (subst OneEmail (sym same) one)
                  λ r w2 now_is _.
                    kept_bind OneEmail (lift r) _ w2 refl
                      (subst OneEmail (sym now_is)
                        (insert_user-OneEmail _ w1.db (subst OneEmail (sym same) one)))
                      λ row w3 same3 _.
                        subst OneEmail (sym (same3 ∙ now_is))
                          (insert_user-OneEmail _ w1.db (subst OneEmail (sym same) one)))
      ]

db-removed_user : (id : Uuid) (n : ℕ) (w : World) → (removed_user id n w).1.db ≡ w.db
unfolding removed_user
db-removed_user id n w = ground arith

pub delete_user-OneEmail :
    (id : Uuid) (w : World) → OneEmail w.db → OneEmail (delete_user id w).1.db
unfolding delete_user
delete_user-OneEmail id w one =
    kept_statement OneEmail (delete_user_rows id) _ w one λ r w1 now_is _.
      let kept : OneEmail w1.db =
        subst OneEmail (sym now_is) (delete_user_rows-OneEmail id w.db one) in
      kept_bind OneEmail (lift r) _ w1 refl kept
        λ n w2 same _. subst OneEmail (sym (db-removed_user id n w2 ∙ same)) kept
