-- ===== src/Tests/Sockets.antt =====
-- Addresses, sockets and CGI programs at concrete inputs.
use dytech.Prelude.{
  ◌+◌, ◌*◌, ◌/◌, ◌%◌, ◌≡◌, ◌↔◌, refl, true, false, none, some, [], ◌∷◌, ◌++◌, Bytes, arith, ◌||◌,
  if◌then◌else◌,
}
use dytech.Text.{codes, equal, to_string, c_str}
use dytech.Outcome.{returns, ◌>>=◌}
use dytech.Core.Result.{ok, throws}
use dytech.Core.NetAddress.{Protocol, Inet, make_address, to_text}
use dytech.Core.NetAddress.Laws.{to_text-make_address}
use dytech.Core.Socket.{
  Kernel, move_assign, destroy, make_socket, set_nonblocking, is_nonblocking, or_nonblock,
  o_nonblock, bind_with_server_address,
}
use dytech.Core.Socket.Ownership.{owned, destroy-move_assign}
use dytech.Core.Socket.Calls.{set_nonblocking-flags, bind_with_server_address-bound}
use dytech.Http.CgiRunner.{CgiRunner}
use dytech.Http.CgiRunner.Run.{Os, run, run-output, run-run, bytes_of}

-- Addresses are their texts; only one is known. Ports are stored with their bytes swapped.
abbrev pub small_inet : Inet
small_inet = record {
  Address = Bytes;
  zero = codes "0.0.0.0";
  pton = λ family text. if equal text (codes "10.0.0.1") then some text else none;
  ntop = λ family address. address;
  htons = λ port. port % 256 * 256 + port / 256;
  ntohs = λ port. port % 256 * 256 + port / 256;
}

to_text-make_address_example :
    to_text small_inet (make_address small_inet (codes "10.0.0.1") 8080 Protocol.ipv4)
    ≡ codes "10.0.0.1" ++ (codes " @ " ++ to_string 8080)
unfolding equal c_str
to_text-make_address_example =
    to_text-make_address small_inet (λ port h. omega arith) Protocol.ipv4 (codes "10.0.0.1")
      (codes "10.0.0.1") 8080 refl refl (omega arith)

destroy-move_assign_example :
    let (closed', this', other') = move_assign [] (make_socket (some 3)) (make_socket (some 4)) in
    destroy (destroy closed' this') other'
    ≡ [] ++ (owned (some 3) ++ (owned (some 4) ++ owned (some 3)))
destroy-move_assign_example = destroy-move_assign [] (make_socket (some 3)) (make_socket (some 4))

-- Every call succeeds; a new socket is 5, and its flags are 2.
abbrev pub kernel : Kernel
kernel = record {
  socket = λ protocol. some 5;
  connect = λ fd. true;
  bind = λ fd. true;
  listen = λ fd n. true;
  accept = λ fd. some 6;
  reuse_address = λ fd. true;
  reuse_port = λ fd. true;
  get_flags = λ fd. some 2;
  set_flags = λ fd. true;
}

set_nonblocking-flags_example :
    (set_nonblocking kernel (make_socket (some 5)) ≡ (
      if is_nonblocking 2 || true
      then ok (or_nonblock 2)
      else throws (codes "Socket: SetNonBlocking() error")))
    × (is_nonblocking (or_nonblock 2) ≡ true)
    × (or_nonblock 2 % o_nonblock ≡ 2 % o_nonblock)
    × (or_nonblock 2 / 4096 ≡ 2 / 4096)
set_nonblocking-flags_example = set_nonblocking-flags kernel (make_socket (some 5)) 5 2 refl refl

bind_with_server_address-bound_example :
    let (result, s') = bind_with_server_address kernel (make_socket none) Protocol.ipv4 true in
    (s'.fd ≡ some 5) × ((result ≡ ok tt) ↔ (true ≡ true))
bind_with_server_address-bound_example =
    bind_with_server_address-bound kernel (make_socket none) Protocol.ipv4 true

-- A program that writes a greeting, or what it is called.
abbrev os : Os
os = record { opens = true; forks = true; harvests = true; output = λ path argv. codes "hi" }

abbrev lost_os : Os
lost_os = record os { harvests = false; output = λ path argv. path }

abbrev runner : CgiRunner
runner = record {
  cgi_program_path = codes "/cgi-bin/add";
  cgi_arguments = codes "1" ∷ codes "2" ∷ [];
  valid = true;
}

run-output_example :
    run os (codes "7") runner (some (codes "old"))
    ≡ returns (bytes_of (some (codes "old")) ++ codes "hi", none)
run-output_example =
    run-output os (codes "7") runner (some (codes "old")) (refl, λ e. cc) (refl, refl, refl)

run-run_example :
    (run lost_os (codes "7") runner none >>= λ p. run os (codes "7") runner (p.1))
    ≡ returns (codes "/cgi-bin/add" ++ codes "hi", none)
run-run_example =
    run-run lost_os os (codes "7") runner runner (refl, λ e. cc) (refl, λ e. cc) (refl, refl, refl)
      (refl, refl, refl)
