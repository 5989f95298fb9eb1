-- ===== src/Core/Acceptor/Traffic/Busy.antt =====
-- The acceptor and the event loops together: clients come and are served.
use dytech.Prelude.{
  ◌⊎◌, inl, inr, subst, ℕ, ◌<◌, ◌≡◌, refl, sym, ap, ◌∙◌, true, none, some, Option, List, All,
  Distinct, length, size_mod,
}
use dytech.Core.Result.{ok}
use dytech.Core.Connection.{Callback, LooperId}
use dytech.Core.Poller.{ConnectionPtr, Ready}
use dytech.Core.Socket.{Kernel}
use dytech.Core.Looper.{Looper, make_looper, run_round}
use dytech.Core.Looper.Invariant.{registered_ptr, none_ne_some}
use dytech.Core.Looper.Round.{pointers}
use dytech.Core.Looper.Clients.{Handler, client_callbacks}
use dytech.Core.Looper.Clients.Reactor.{IsReported, Keeps}
use dytech.Core.Looper.Clients.Round.{Stuck, applied, recorded, run_round-IsReactor}
use dytech.Core.Looper.Clients.Life.{ended-IsReactor, make_looper-IsReactor, added-IsReactor}
use dytech.Core.DistributionAgent.{Generator, IsUniform}
use dytech.Core.Acceptor.{Acceptor, Loopers, put_looper, accept}
use dytech.Core.Acceptor.Dispatch.{accept-added}
use dytech.Core.Acceptor.Traffic.{
  IsApart, Arrives, pointer_of, put-IsApart, added_alone, Arrives-IsNew,
}

module _ (a : Acceptor) where
  -- What happens in a server: a client comes, and is taken by the acceptor; or one of the loops runs a
  -- round, in which what the functions do depends on what the clients send.
  pub data Traffic : Loopers → Loopers → Type 0 where
    comes :
        {loopers loopers' : Loopers} (k : Kernel) (generate : Generator) (p : ConnectionPtr)
        (fd : ℕ)
        → IsUniform generate
        → Arrives k a loopers p fd
        → accept k generate true p a loopers ≡ ok (some a.on_accept_cb, loopers')
        → Traffic loopers loopers'
    served :
        {loopers : Loopers} {l' : Looper} (n : LooperId) (ready : List Ready)
        (started : List ConnectionPtr) (handler : Handler)
        → Keeps handler
        → Distinct (pointers ready)
        → All (IsReported (loopers n)) (pointers ready)
        → run_round (client_callbacks handler) ready (loopers n) ≡ some (started, l')
        → Traffic loopers (put_looper loopers n l')

  -- The loops of a server that was just made, after any traffic.
  pub data Busy : Loopers → Type 0 where
    idle : Busy (λ n. make_looper (λ q. none))
    after : {loopers loopers' : Loopers} → Busy loopers → Traffic loopers loopers' → Busy loopers'

  ok_inj : {A : Type 0} {x y : A} → ok x ≡ ok y → x ≡ y
  ok_inj e = cc

  idle-IsApart : IsApart (λ n. make_looper (λ q. none))
  unfolding make_looper registered_ptr
  idle-IsApart = record {
    reactors = λ n. make_looper-IsReactor (λ q. none);
    descriptors = λ n m fd p ne h. refl;
    connections = λ n m fd d p q ne h k. absurd (none_ne_some h);
  }

  module _ (some_there : 0 < length a.agent.candidates)
      (small : length a.agent.candidates < size_mod) where
    Traffic-IsApart :
        {loopers loopers' : Loopers} → IsApart loopers → Traffic loopers loopers' → IsApart loopers'
    Traffic-IsApart {loopers = loopers} v (comes k generate p fd uniform new e) =
        let (looper, idx, c, at, client, run) =
          accept-added k generate p a loopers fd uniform some_there small (Arrives-IsNew v new) in
        let unknown : (m : LooperId) → pointer_of (loopers m) c.fd ≡ none =
          λ m. ap (pointer_of (loopers m)) client.0 ∙ new.unknown m in
        subst IsApart (ap (λ (r : Option Callback × Loopers). r.1) (ok_inj (sym run ∙ e))) (
          put-IsApart loopers v looper _
            (added-IsReactor (loopers looper) p c a.on_handle_cb (v.reactors looper)
              (new.free looper) (unknown looper) client.2)
            (added_alone loopers v looper p c new.free unknown))
    Traffic-IsApart {loopers = loopers} v (served n ready started handler keeps d h e) =
        let (well, known) = ended-IsReactor handler ready keeps (v.reactors n) d h e in
        put-IsApart loopers v n _ well (λ m fd p ne found. (
          v.descriptors n m fd p ne (known fd p found),
          λ d q. v.connections n m fd d p q ne (known fd p found),
        ))

    Busy-IsApart : {loopers : Loopers} → Busy loopers → IsApart loopers
    Busy-IsApart idle = idle-IsApart
    Busy-IsApart (after b t) = Traffic-IsApart (Busy-IsApart b) t

  -- In a server with at least one event loop, whatever clients came and were taken by the acceptor, and
  -- whatever rounds the loops ran, in which functions left the descriptor and the function of their
  -- connection as they were: no two loops share a client's descriptor or connection. The next round of
  -- any loop, for reports of distinct registered connections, starts each of them once, in order, and
  -- comes to its end, unless one of the functions does not return; and the next client that arrives is
  -- taken.
  pub run_round-Busy :
      0 < length a.agent.candidates
      → length a.agent.candidates < size_mod
      → (loopers : Loopers) → Busy loopers
      → (n : LooperId) (handler : Handler) → Keeps handler
      → (ready : List Ready) → Distinct (pointers ready)
      → All (IsReported (loopers n)) (pointers ready)
      → (k : Kernel) (generate : Generator) (p : ConnectionPtr) (fd : ℕ) → IsUniform generate
      → Arrives k a loopers p fd
      → IsApart loopers
        × (((l' : Looper) × (run_round (client_callbacks handler) ready (loopers n)
                ≡ some (pointers ready, l')))
            ⊎ ((run_round (client_callbacks handler) ready (loopers n) ≡ none)
                × Stuck handler (pointers ready) (applied recorded ready (loopers n).objects)))
        × ((loopers' : Loopers) × (accept k generate true p a loopers
              ≡ ok (some a.on_accept_cb, loopers')))
  run_round-Busy some_there small loopers b n handler keeps ready d h k generate p fd uniform new =
      let v = Busy-IsApart some_there small b in
      let (looper, idx, c, at, client, taken) =
        accept-added k generate p a loopers fd uniform some_there small (Arrives-IsNew v new) in
      (
        v,
        elim (run_round-IsReactor handler keeps ready (loopers n) (v.reactors n) d h) [
          | inl (l', run, well, known, same) ↦ inl (l', run)
          | inr hangs ↦ inr hangs
        ],
        (put_looper loopers looper _, taken),
      )
