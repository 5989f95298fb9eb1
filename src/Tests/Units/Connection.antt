-- ===== src/Tests/Units/Connection.antt =====
-- test/core/connection_test.cc, the section on messages, and test/core/socket_test.cc, the section on
-- moving. The kernel takes each message at once and gives it to the other side.
use dytech.Prelude.{
  ℕ, ◌≡◌, refl, Bool, true, false, not, Option, none, some, [], ◌∷◌, Bytes, length, ◌==◌, ==_iff,
}
use dytech.Text.{codes, equal}
use dytech.Core.Buffer.{
  make_buffer, push_back_string, push_back_array, push_back_unsafe, size, to_string_view, clear,
}
use dytech.Core.Cache.{◌>>=◌}
use dytech.Core.Connection.{
  make_connection, write_string, get_write_size, get_read_size, send, receive, send_loop,
  receive_loop, read_data_as_string, clear_write_buffer, read_unsafe, received_into,
  after_recv_error, is_fatal, got, failed, wrote, eintr, eagain,
}
use dytech.Core.Socket.{Socket, make_socket, move_assign, move_construct}
use dytech.Tests.Units.{checks}

abbrev client_message : Bytes
client_message = codes "hello from client"

abbrev server_message : Bytes
server_message = codes "hello from server"

-- The messages of the client and the server, for the descriptors of their connections.
unfoldable pub exchange : ℕ → ℕ → Option Bool
exchange client_fd connected_fd = do
  let client_connection = write_string (make_connection client_fd) client_message
  (client, sent, rest) ← send (wrote (length client_message) eintr ∷ []) client_connection
  ((read, exit), connected_conn, rest') ←
      receive (got sent ∷ failed eagain ∷ []) (make_connection connected_fd)
  (connected, answered, rest'') ←
      send (wrote (length server_message) eintr ∷ []) (write_string connected_conn server_message)
  ((read', exit'), client', rest''') ← receive (got answered ∷ failed eagain ∷ []) client
  some (
      checks (
        (get_write_size client_connection == length client_message)
        ∷ (read == length client_message)
        ∷ not exit
        ∷ (get_read_size connected_conn == length client_message)
        ∷ (read' == length server_message)
        ∷ not exit'
        ∷ equal (read_data_as_string client') server_message
        ∷ []))

exchange_passes : (client_fd connected_fd : ℕ) → exchange client_fd connected_fd ≡ some true
unfolding exchange write_string make_connection make_buffer get_write_size get_read_size send
    receive send_loop receive_loop read_data_as_string clear_write_buffer read_unsafe received_into
    after_recv_error is_fatal push_back_string push_back_array push_back_unsafe size to_string_view
    clear equal
exchange_passes client_fd connected_fd = refl

abbrev holds : Socket → ℕ → Bool
holds s fd = elim s.fd [ none ↦ false | some d ↦ d == fd ]

abbrev holds_nothing : Socket → Bool
holds_nothing s = elim s.fd [ none ↦ true | some d ↦ false ]

-- Moving switches the descriptors; the server's socket has this one.
unfoldable pub moving_switches : ℕ → Bool
unfolding move_assign move_construct
moving_switches orig_fd =
    let (closed, server_socket, another_sock) =
      move_assign [] (make_socket (some orig_fd)) (make_socket (some 123)) in
    let (second_sock, another_sock') = move_construct another_sock in
    checks (
      holds server_socket 123
      ∷ holds another_sock orig_fd
      ∷ holds second_sock orig_fd
      ∷ holds_nothing another_sock'
      ∷ [])

moving_switches_passes : (orig_fd : ℕ) → moving_switches orig_fd ≡ true
unfolding moving_switches move_assign move_construct
moving_switches_passes orig_fd = rw ((==_iff orig_fd orig_fd).1 refl)
