-- ===== src/Node/Files/Examples.antt =====
-- A line of a listing whose name has a blank.
use oxydactylus.Base.{String, List, [], ◌∷◌}

abbrev more_words : List String
more_words = "world" ∷ []
