-- ===== src/Tests/Units.antt =====
-- The test cases of test/core and test/http that need no thread and no network, as functions to whether all of their checks hold.
pub mod Buffer
pub mod Http
pub mod Cache
pub mod NetAddress
pub mod Connection
use dytech.Prelude.{Bool, true, false, ◌&&◌, Option, none, some, List, [], ◌∷◌, Bytes}
use dytech.Text.{equal}

-- `CHECK` and `REQUIRE`, one behind the other.
abbrev pub checks : List Bool → Bool
checks [] = true
checks (b ∷ bs) = b && checks bs

abbrev pub equal_optional : Option Bytes → Bytes → Bool
equal_optional none s = false
equal_optional (some t) s = equal t s
