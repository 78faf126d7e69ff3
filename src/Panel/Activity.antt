-- ===== src/Panel/Activity.antt =====
-- The pages of the activity log: the routes of crates/panel/src/activity.rs. A page and its size
-- are numbers of 32 bits, and `offset` multiplies two of them: where the product does not fit, a
-- build with checks panics and one without wraps around, as here.
pub mod Pages
mod Examples
use oxydactylus.Base.{
  ℕ, String, Bool, ◌==◌, ◌&&◌, ◌+◌, ◌-◌, ◌*◌, ◌%◌, ◌^◌, not, leb, ltb, is_some_of, Option, none,
  some, List, [], ◌∷◌, select, take, drop, reverse, true, if◌then◌else◌,
}
use oxydactylus.Base.Int.{ℤ, pos, negsuc, leb_ℤ, ltb_ℤ}
use oxydactylus.Panel.Error.{forbidden, db, text}
use oxydactylus.Panel.Store.{
  Uuid, Server, ActivityEntry, Db, Panel, pure, raise, query, ◌>>=◌, ◌>>◌,
}
use oxydactylus.Panel.Access.{AuthUser, fetch_server}

pub record PaginationParams : Type 0 where
  pub page : Option ℤ
  pub per_page : Option ℤ

abbrev pub or_else_number : Option ℤ → ℤ → ℤ
or_else_number none n = n
or_else_number (some z) n = z

-- `max(1)`, and `min(100).max(1)`: numbers from 1 on
abbrev pub at_least_one : ℤ → ℕ
at_least_one (pos n) = if n == 0 then 1 else n
at_least_one (negsuc n) = 1

unfoldable pub page_of : PaginationParams → ℕ
page_of params = at_least_one (or_else_number params.page (pos 1))

abbrev pub at_most_hundred : ℤ → ℤ
at_most_hundred z = if leb_ℤ z (pos 100) then z else pos 100

unfoldable pub per_page_of : PaginationParams → ℕ
per_page_of params = at_least_one (at_most_hundred (or_else_number params.per_page (pos 50)))

-- An `i32` of two's complement, from a number that is taken modulo 2^32
abbrev pub wrap_i32 : ℕ → ℤ
wrap_i32 n = let m = n % 2 ^ 32 in if leb (2 ^ 31) m then negsuc (2 ^ 32 - m - 1) else pos m

unfoldable pub offset_of : PaginationParams → ℤ
offset_of params = wrap_i32 ((page_of params - 1) * per_page_of params)

-- `refused` is the error of the database for a negative offset. The log is appended in the order of
-- time, so that the newest entries are its last.
module _ (refused : String) where
  abbrev pub rows_at : ℤ → ℕ → (ActivityEntry → Bool) → Panel (List ActivityEntry)
  rows_at (pos offset) limit p =
      query (λ d. take limit (drop offset (reverse (select p d.activity_logs))))
  rows_at (negsuc _) limit p = raise (db (text refused))

  unfoldable pub page_rows : PaginationParams → (ActivityEntry → Bool) → Panel (List ActivityEntry)
  page_rows params p = rows_at (offset_of params) (per_page_of params) p

  unfoldable pub activity_of_server :
      AuthUser → PaginationParams → Server → Panel (List ActivityEntry)
  activity_of_server user params server w =
      if not user.is_admin && not (server.user_id == user.id)
      then raise forbidden w
      else page_rows params (λ e. is_some_of e.server_id server.id) w

  unfoldable pub server_activity : AuthUser → Uuid → PaginationParams → Panel (List ActivityEntry)
  server_activity user server_id params = fetch_server server_id >>= activity_of_server user params

  unfoldable pub all_activity : PaginationParams → Panel (List ActivityEntry)
  all_activity params = page_rows params (λ _. true)

  unfoldable pub account_activity : AuthUser → PaginationParams → Panel (List ActivityEntry)
  account_activity user params = page_rows params (λ e. is_some_of e.user_id user.id)
