-- ===== src/Core/Looper/Clients.antt =====
-- The functions that handle clients, as far as their event loop sees them: they change the
-- connection that they are called for, and may end with
-- `client_connection->GetLooper()->DeleteConnection(fd)`.
pub mod Reactor
pub mod Round
pub mod Life
use dytech.Prelude.{ℕ, Bool, true, false, Option, none, some, if◌then◌else◌}
use dytech.Core.Connection.{Connection, Callback}
use dytech.Core.Poller.{ConnectionPtr, put}
use dytech.Core.Looper.{Looper, Callbacks, delete_connection}

-- What a function does to a connection, and whether it deletes it then; `none` for one that does
-- not return.
abbrev pub Handler : Type 0
Handler = Callback → Connection → Option (Connection × Bool)

unfoldable pub after_handler :
    ConnectionPtr → Looper → ℕ → Option (Connection × Bool) → Option Looper
unfolding delete_connection put
after_handler p l from_fd none = none
after_handler p l from_fd (some (c, finished)) =
    let l' = record l { objects = put l.objects p (some c) } in
    if finished then some (delete_connection l' from_fd).1 else some l'

unfoldable pub client_callbacks : Handler → Callbacks
unfolding after_handler
client_callbacks handler f p l = elim (l.objects p) [
  | none ↦ none
  | some c ↦ after_handler p l c.fd (handler f c)
]
