-- ===== src/Demo/HttpServer/Main.antt =====
-- demo/http-server/http_server.cc: `main`, from the parsed command line to the server's loop. What
-- cxxopts gives, the number of cores and the addresses of the new objects are parameters.
pub mod Launch
use dytech.Prelude.{
  ℕ, ◌*◌, Bool, true, false, Option, none, some, List, [], ◌∷◌, ◌++◌, Bytes, if◌then◌else◌,
}
use dytech.Text.{codes, to_string}
use dytech.Core.Result.{Result, ok, throws, aborts, ◌>>=◌, ◌>>◌}
use dytech.Core.NetAddress.{Inet, NetAddress, Protocol, ipv4, make_address, to_text}
use dytech.Core.Socket.{Kernel}
use dytech.Core.Connection.{Callback}
use dytech.Core.Poller.{ConnectionPtr}
use dytech.Core.Cache.{Cache, Ptr, Nodes, make_cache, k_default_capacity}
use dytech.Core.Server.{Server, make_server, on_handle, begin}
use dytech.Http.Disk.{Disk, is_directory_exists}

-- What `result` gives: whether `help` was given and the text of `options.help()`; the values of
-- `address` and `port` where they were given; what `result["directory"].as<std::string>()` comes to.
pub record Arguments : Type 0 where
  pub help : Bool
  pub usage : Bytes
  pub address : Option Bytes
  pub port : Option ℕ
  pub directory : Result Bytes

-- What the machine gives to the process: the number of cores, and the addresses and the time at which
-- the listening connection and the nodes of the cache are made.
pub record Machine : Type 0 where
  pub kernel : Kernel
  pub accepted : Bool
  pub disk : Disk
  pub hardware_concurrency : ℕ
  pub connection_at : ConnectionPtr
  pub head : Ptr
  pub tail : Ptr
  pub now : ℕ
  pub nodes : Nodes

-- The function that `main` gives to `OnHandle`: `ProcessHttpRequest` for the directory and the cache.
abbrev pub processing : Callback
processing = 2

-- The program in the listener's loop.
pub record Program : Type 0 where
  pub directory : Bytes
  pub server : Server
  pub cache : Cache

abbrev pub or_default {ℓ} : {A : Type ℓ} → A → Option A → A
or_default a none = a
or_default a (some b) = b

-- The address that the server is set up on.
unfoldable pub server_address : (inet : Inet) → Arguments → NetAddress inet
unfolding make_address
server_address inet a =
    make_address inet (or_default (codes "127.0.0.1") a.address) (or_default 8080 a.port) ipv4

-- What is printed before the server is set up.
unfoldable pub announcements : (inet : Inet) → Machine → Arguments → Bytes → List Bytes
unfolding is_directory_exists server_address to_text
announcements inet m a directory =
    let setting_up =
      codes "Setting up server on "
      ++ to_text inet (server_address inet a)
      ++ codes " with dir "
      ++ directory
      ++ codes " in "
      ++ to_string m.hardware_concurrency
      ++ codes " cores\n" in
    if is_directory_exists m.disk directory
    then setting_up ∷ []
    else (codes "not found directory " ++ directory ++ codes "\n") ∷ setting_up ∷ []

-- From `Server http_server(…)` up to the listener's loop.
unfoldable pub launch : Machine → Bytes → Result Program
unfolding make_server make_cache on_handle begin
launch m directory = do
  http_server ← make_server m.kernel m.accepted ipv4 m.hardware_concurrency m.connection_at
  let cache = make_cache (k_default_capacity * 10) m.head m.tail m.now m.nodes
  let http_server = on_handle http_server processing
  begin http_server
  ok (record { directory = directory; server = http_server; cache = cache })

-- Behind the parsing: the texts that are printed, and the program, which `help` does not start.
unfoldable pub start_program :
    (inet : Inet) → Machine → Arguments → List Bytes × Result (Option Program)
unfolding announcements launch
start_program inet m a =
    if a.help then ((a.usage ++ codes "\n") ∷ [], ok none) else elim a.directory [
      | ok directory ↦
          (announcements inet m a directory, launch m directory >>= λ program. ok (some program))
      | throws e ↦ ([], throws e)
      | aborts ↦ ([], aborts)
    ]

-- `main`, for what `options.parse` comes to.
unfoldable pub main :
    (inet : Inet) → Machine → Result Arguments → List Bytes × Result (Option Program)
unfolding start_program
main inet m (ok a) = start_program inet m a
main inet m (throws e) = ([], throws e)
main inet m aborts = ([], aborts)
