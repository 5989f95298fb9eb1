-- ===== src/Core/Connection.antt =====
-- core/connection.h and core/connection.cc: one TCP connection, its two buffers, and the loops
-- around `recv` and `send`. What these system calls return is the argument of the loops: a list
-- of results, one for each call. `none` stands for a loop that is still running when the list
-- ends. The callback and the owning looper are names: `Core.Looper` and `Core.Acceptor` use them.
pub mod Receive
pub mod Send
use dytech.Prelude.{
  ℕ, ◌+◌, ◌-◌, Bool, true, false, ◌||◌, Option, none, some, List, [], ◌∷◌, ◌++◌, Bytes, ltb, ◌==◌,
  if◌then◌else◌, length, take, drop, replicate, not, ◌&&◌,
}
use dytech.Core.Buffer
use dytech.Core.Buffer.{Buffer}

-- The `errno` values that the loops tell apart.
pub data Errno : Type 0 where
  eintr eagain ewouldblock : Errno
  other : ℕ → Errno

-- Which looper owns the connection, and which function its `std::function` holds: the loopers are
-- numbered, and so are the functions, whose meaning is given to the event loop.
abbrev pub LooperId : Type 0
LooperId = ℕ

abbrev pub Callback : Type 0
Callback = ℕ

pub record Connection : Type 0 where
  pub fd : ℕ
  pub read_buffer : Buffer
  pub write_buffer : Buffer
  pub events : ℕ
  pub revents : ℕ
  pub owner_looper : Option LooperId
  pub callback : Option Callback

-- `Connection(socket)`.
unfoldable pub make_connection : ℕ → Connection
make_connection fd = record {
  fd = fd;
  read_buffer = Buffer.make_buffer 1024;
  write_buffer = Buffer.make_buffer 1024;
  events = 0;
  revents = 0;
  owner_looper = none;
  callback = none;
}

unfoldable pub set_events : Connection → ℕ → Connection
set_events c events = record c { events = events }

unfoldable pub set_revents : Connection → ℕ → Connection
set_revents c revents = record c { revents = revents }

unfoldable pub set_callback : Connection → Option Callback → Connection
set_callback c callback = record c { callback = callback }

unfoldable pub set_looper : Connection → LooperId → Connection
set_looper c looper = record c { owner_looper = some looper }

unfoldable pub find_and_pop_till : Connection → Bytes → Option Bytes × Connection
find_and_pop_till c target =
    let (res, b) = Buffer.find_and_pop_till c.read_buffer target in
    (res, record c { read_buffer = b })

unfoldable pub get_read_size : Connection → ℕ
get_read_size c = Buffer.size c.read_buffer

unfoldable pub get_write_size : Connection → ℕ
get_write_size c = Buffer.size c.write_buffer

unfoldable pub read_unsafe : Connection → Bytes → ℕ → Connection
read_unsafe c buf size = record c { read_buffer = Buffer.push_back_unsafe c.read_buffer buf size }

unfoldable pub write_unsafe : Connection → Bytes → ℕ → Connection
write_unsafe c buf size = record c {
  write_buffer = Buffer.push_back_unsafe c.write_buffer buf size;
}

-- `Read(str)`.
unfoldable pub read_string : Connection → Bytes → Connection
read_string c str = record c { read_buffer = Buffer.push_back_string c.read_buffer str }

-- `Write(str)`.
unfoldable pub write_string : Connection → Bytes → Connection
write_string c str = record c { write_buffer = Buffer.push_back_string c.write_buffer str }

-- `Write(DynamicByteArray&&)`.
unfoldable pub write_array : Connection → Bytes → Connection
write_array c other_buf = record c {
  write_buffer = Buffer.push_back_array c.write_buffer other_buf;
}

unfoldable pub read_data_as_string : Connection → Bytes
read_data_as_string c = Buffer.to_string_view c.read_buffer

unfoldable pub clear_read_buffer : Connection → Connection
clear_read_buffer c = record c { read_buffer = Buffer.clear c.read_buffer }

unfoldable pub clear_write_buffer : Connection → Connection
clear_write_buffer c = record c { write_buffer = Buffer.clear c.write_buffer }

abbrev pub k_buffer_size : ℕ
k_buffer_size = 2048

-- What `recv` returns: the bytes that it stored, none of them at the end of the stream, or -1
-- with an `errno`.
pub data Recv : Type 0 where
  got : Bytes → Recv
  failed : Errno → Recv

-- The array of `kBufferSize + 1` zeros after `recv` has stored bytes into it.
unfoldable pub received_into : Bytes → Bytes
received_into bytes = bytes ++ replicate (k_buffer_size + 1 - length bytes) 0

abbrev pub Received : Type 0
Received = (ℕ × Bool) × Connection × List Recv

-- What the loop of `Receive` does at an `errno`: go on, or return with the flag `exit`.
unfoldable pub after_recv_error : Errno → Option Bool
after_recv_error eintr = none
after_recv_error eagain = some false
after_recv_error ewouldblock = some false
after_recv_error (other n) = some true

-- The loop of `Receive`.
unfoldable pub receive_loop : List Recv → ℕ → Connection → Option Received
unfolding received_into after_recv_error
receive_loop [] read c = none
receive_loop (got [] ∷ rs) read c = some ((read, true), c, rs)
receive_loop (got (b ∷ bs) ∷ rs) read c =
    let curr_read = length (b ∷ bs) in
    receive_loop rs (read + curr_read) (read_unsafe c (received_into (b ∷ bs)) curr_read)
receive_loop (failed e ∷ rs) read c =
    let rest = receive_loop rs read c in
    elim (after_recv_error e) [ none ↦ rest | some exit ↦ some ((read, exit), c, rs) ]

-- `Receive`.
unfoldable pub receive : List Recv → Connection → Option Received
unfolding receive_loop
receive rs c = receive_loop rs 0 c

-- What `send` returns, with the `errno` of that moment: the number of bytes that the kernel
-- took, or -1.
pub data Sent : Type 0 where
  wrote : ℕ → Errno → Sent
  refused : Errno → Sent

-- The number of bytes taken, 0 for what is not positive.
abbrev pub bytes_taken : Sent → ℕ
bytes_taken (wrote n e) = n
bytes_taken (refused e) = 0

abbrev pub errno : Sent → Errno
errno (wrote n e) = e
errno (refused e) = e

-- `errno != EINTR && errno != EAGAIN && errno != EWOULDBLOCK`.
unfoldable pub is_fatal : Errno → Bool
is_fatal (other n) = true
is_fatal _ = false

-- The bytes that the kernel has taken from the connection, and the results left over.
abbrev pub Delivered : Type 0
Delivered = Connection × Bytes × List Sent

-- The loop of `Send` over the `to_write` bytes at `buf`; `wire` collects what the kernel took.
unfoldable pub send_loop : List Sent → Bytes → ℕ → ℕ → Bytes → Connection → Option Delivered
unfolding is_fatal clear_write_buffer
send_loop [] buf to_write curr_write wire c =
    if ltb curr_write to_write then none else some (clear_write_buffer c, wire, [])
send_loop (r ∷ rs) buf to_write curr_write wire c =
    let write = bytes_taken r in
    let rest =
      send_loop rs buf to_write (curr_write + write) (wire ++ take write (drop curr_write buf)) c in
    if not (ltb curr_write to_write)
    then some (clear_write_buffer c, wire, r ∷ rs)
    else if (write == 0) && is_fatal (errno r)
    then some (clear_write_buffer c, wire, rs)
    else rest

-- `Send`.
unfoldable pub send : List Sent → Connection → Option Delivered
unfolding send_loop
send rs c = send_loop rs (Buffer.to_string_view c.write_buffer) (get_write_size c) 0 [] c
