-- ===== src/Demo/HttpServer/Main/Launch.antt =====
-- What `main` starts.
use dytech.Prelude.{ℕ, ◌*◌, ◌≡◌, some, [], Bytes, max, length}
use dytech.Core.Result.{ok}
use dytech.Core.Cache.{k_default_capacity}
use dytech.Core.Acceptor.Listening.{IsListening}
use dytech.Core.Server.{begin, listener_id}
use dytech.Core.Server.Setup.{handler, numbers}
use dytech.Core.DistributionAgent.{DistributionAgent}
use dytech.Core.ThreadPool.{k_min_thread_count}
use dytech.Demo.LruStore.{Stores}
use dytech.Demo.HttpServer.Main.{Machine, Program, processing}

-- A program that was started for a directory on a machine, listening at this descriptor.
pub record IsRunning (m : Machine) (directory : Bytes) (fd : ℕ) (program : Program) : Type 0 where
  pub serving : program.directory ≡ directory
  pub handling : handler program.server ≡ some processing
  pub begun : begin program.server ≡ ok tt
  pub listening :
      IsListening listener_id m.connection_at fd program.server.acceptor.acceptor_connection
        program.server.listener
  pub reactors :
      program.server.threads.reactors ≡ numbers (max m.hardware_concurrency k_min_thread_count) 0
  pub tasks : program.server.threads.pool.tasks_queue ≡ program.server.threads.reactors
  pub workers : length program.server.threads.pool.workers ≡ length program.server.threads.reactors
  pub candidates : program.server.acceptor.agent.candidates ≡ program.server.threads.reactors
  pub empty_cache : Stores (k_default_capacity * 10) program.cache []
