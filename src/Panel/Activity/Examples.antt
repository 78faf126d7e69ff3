-- ===== src/Panel/Activity/Examples.antt =====
-- Pages of a log of three entries.
use oxydactylus.Base.{
  String, ◌≡◌, refl, true, none, some, List, [], ◌∷◌, select, take, drop, reverse,
}
use oxydactylus.Panel.Store.{ActivityEntry, Db, empty_db, calm, query}
use oxydactylus.Panel.Activity.{page_of, per_page_of, offset_of, page_rows}
use oxydactylus.Panel.Activity.Pages.{pages, pages-take}

abbrev entry : String → ActivityEntry
entry event = record {
  server_id = some 10;
  user_id = none;
  event = event;
  schedule_id = 80;
  action = "command";
  error = none;
}

abbrev log_db : Db
log_db = record empty_db { activity_logs = entry "first" ∷ entry "second" ∷ entry "third" ∷ [] }

pages_test :
    pages "refused" (λ _. true) 2 2 (calm log_db)
    ≡ entry "third" ∷ entry "second" ∷ entry "first" ∷ []
unfolding pages page_rows offset_of page_of per_page_of select take drop reverse query
pages_test = refl

pages-take_example :
    pages "refused" (λ _. true) 2 2 (calm log_db)
    ≡ take 4 (reverse (select (λ _. true) log_db.activity_logs))
pages-take_example =
    pages-take "refused" (λ _. true) 2 2 log_db (omega oxydactylus.Base.arith)
      (omega oxydactylus.Base.arith) (omega oxydactylus.Base.arith)
