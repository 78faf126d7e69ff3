-- ===== src/Panel/Activity/Pages.antt =====
-- That the pages of a log are the log, in order: crates/panel/src/activity.rs.
use oxydactylus.Base.{
  ℕ, zero, suc, String, Bool, ◌≡◌, refl, sym, ◌∙◌, ap, arith, ◌+◌, ◌-◌, ◌*◌, ◌^◌, ◌≤◌, ◌<◌, some,
  List, [], ◌++◌, select, take, drop, reverse, take-add,
}
use oxydactylus.Base.Int.{pos}
use oxydactylus.Panel.Error.{ok, err}
use oxydactylus.Panel.Store.{ActivityEntry, Db, World, calm, query}
use oxydactylus.Panel.Activity.{
  PaginationParams, page_of, per_page_of, wrap_i32, offset_of, page_rows,
}

abbrev pub params_of : ℕ → ℕ → PaginationParams
params_of page per_page = record { page = some (pos page); per_page = some (pos per_page) }

wrap_i32-small : (x : ℕ) → x < 2 ^ 31 → wrap_i32 x ≡ pos x
wrap_i32-small x small = ground arith

-- A size from 1 to 100 is taken as it is, and as long as the rows before a page are fewer than 2^31,
-- their number is the offset.
offset_of_lem :
    (n k : ℕ)
    → 1 ≤ k
    → k ≤ 100
    → n * k < 2 ^ 31
    → (offset_of (params_of (suc n) k) ≡ pos (n * k)) × (per_page_of (params_of (suc n) k) ≡ k)
unfolding offset_of page_of per_page_of
offset_of_lem n k one hundred fits =
    let size : per_page_of (params_of (suc n) k) ≡ k = ground arith in
    let before : page_of (params_of (suc n) k) - 1 ≡ n = ground arith in
    (rw (size, before) (wrap_i32-small (n * k) fits), size)

-- The pages from the first on, as a client reads them one after the other.
unfoldable pub pages : String → (ActivityEntry → Bool) → ℕ → ℕ → World → List ActivityEntry
pages refused p k zero w = []
pages refused p k (suc n) w =
    pages refused p k n w
    ++ (elim (page_rows refused (params_of (suc n) k) p w).0 [ ok rows ↦ rows | err _ ↦ [] ])

-- Where no statement fails, the first pages together, of a size from 1 to 100 and with fewer than
-- 2^31 rows, are the newest entries of the log which the route is about, newest first, without a
-- gap and with none twice.
pub pages-take :
    (refused : String) (p : ActivityEntry → Bool) (k n : ℕ) (d : Db)
    → 1 ≤ k
    → k ≤ 100
    → n * k < 2 ^ 31
    → pages refused p k n (calm d) ≡ take (n * k) (reverse (select p d.activity_logs))
unfolding pages page_rows query take
pages-take refused p k zero d one hundred fits =
    let none_yet : zero * k ≡ zero = grind arith in rw none_yet refl
pages-take refused p k (suc n) d one hundred fits =
    let more : suc n * k ≡ n * k + k = grind arith in
    let less : n * k < 2 ^ 31 = grind (arith, more) in
    let (at, size) = offset_of_lem n k one hundred less in
    let log = reverse (select p d.activity_logs) in
    rw (at, size, more)
      (ap (λ rows. rows ++ take k (drop (n * k) log)) (pages-take refused p k n d one hundred less)
        ∙ sym (take-add (n * k) k log))
