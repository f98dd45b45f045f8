-- ===== src/TinyCrud/Tests.antt =====
-- Runs of tiny-crud.
use go_basics.Common.{[], ◌∷◌}
use go_basics.Common.Int.{pos}
use go_basics.Common.Dict.{int_comparable}
use go_basics.TinyCrud.{User, Users}

abbrev ada : User
ada = record { id = pos 1; name = "Ada"; email = "ada@example.com" }

abbrev nameless : User
nameless = record { id = pos 0; name = ""; email = "ada@example.com" }

abbrev users : Users
users = (pos 1, ada) ∷ []
