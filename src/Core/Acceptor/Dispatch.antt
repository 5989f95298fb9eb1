-- ===== src/Core/Acceptor/Dispatch.antt =====
-- Where a new client goes.
use dytech.Prelude.{
  ℕ, ◌+◌, ◌<◌, ◌≡◌, ◌≢◌, refl, sym, subst, ◌∙◌, ==_iff, Bool, true, none, some, [], arith, length,
  get_elem?, size_mod,
}
use dytech.Core.Buffer.{make_buffer}
use dytech.Core.Result.{ok}
use dytech.Core.Connection.{
  Connection, LooperId, set_looper, make_connection, set_events, set_callback,
}
use dytech.Core.Poller.{ConnectionPtr, k_read, k_et}
use dytech.Core.Socket.{Kernel, accept_client_address, set_nonblocking, make_socket, or_nonblock}
use dytech.Core.Socket.Calls.{set_nonblocking-flags}
use dytech.Core.Looper.{Looper, find_connection}
use dytech.Core.Looper.Invariant.{
  IsWellFormed, registered_ptr, add_connection-added, added, added-IsWellFormed, put_self,
}
use dytech.Core.DistributionAgent.{Generator, IsUniform, select_candidate-get_elem?}
use dytech.Core.Acceptor.{Acceptor, Loopers, put_looper, client_connection, accept_fd, accept}

-- A client that the kernel refuses changes nothing, and nothing is called.
accept-refused :
    (k : Kernel) (generate : Generator) (accepted : Bool) (p : ConnectionPtr) (a : Acceptor)
    → (loopers : Loopers) → k.accept a.acceptor_connection.fd ≡ none
    → accept k generate accepted p a loopers ≡ ok (none, loopers)
unfolding accept accept_client_address
accept-refused k generate accepted p a loopers e = rw (e, accept)

-- A looper that has a client: it owns the connection under its descriptor, at the address `p`.
pub record Owns (l : Looper) (p : ConnectionPtr) (c : Connection) : Type 0 where
  pub well_formed : IsWellFormed l
  pub entered : find_connection c.fd l.connections ≡ some p
  pub existing : l.objects p ≡ some c
  pub reported : registered_ptr c.fd l.poller.registered ≡ some p

-- What the acceptor makes of a client's descriptor for a looper.
abbrev pub ClientOf : Acceptor → LooperId → ℕ → Connection → Type 0
ClientOf a looper fd c =
    (c.fd ≡ fd)
    × (c.events ≡ k_read + k_et)
    × (c.callback ≡ some a.on_handle_cb)
    × (c.owner_looper ≡ some looper)
    × (c.read_buffer.buf ≡ [])
    × (c.write_buffer.buf ≡ [])

-- The system calls on a new client's descriptor succeed, and no looper has the descriptor or the
-- address yet.
pub record IsNew (k : Kernel) (a : Acceptor) (loopers : Loopers) (p : ConnectionPtr) (fd : ℕ)
    : Type 0 where
  pub arrived : k.accept a.acceptor_connection.fd ≡ some fd
  pub flags : ℕ
  pub has_flags : k.get_flags fd ≡ some flags
  pub settable : k.set_flags fd ≡ true
  pub well_formed : (n : LooperId) → IsWellFormed (loopers n)
  pub free : (n : LooperId) → (loopers n).objects p ≡ none
  pub unknown : (n : LooperId) → registered_ptr fd (loopers n).poller.registered ≡ none

unblocked :
    (k : Kernel) (fd flags : ℕ)
    → k.get_flags fd ≡ some flags
    → k.set_flags fd ≡ true
    → set_nonblocking k (make_socket (some fd)) ≡ ok (or_nonblock flags)
unblocked k fd flags has settable =
    let all = set_nonblocking-flags k (make_socket (some fd)) fd flags refl has in
    all.0 ∙ ground arith

pub put_looper_self : (loopers : Loopers) (n : LooperId) (l : Looper) → put_looper loopers n l n ≡ l
unfolding put_looper
put_looper_self loopers n l = ground arith

pub put_looper_ne :
    (loopers : Loopers) {n m : LooperId} (l : Looper) → m ≢ n → put_looper loopers n l m ≡ loopers m
unfolding put_looper
put_looper_ne loopers l ne = ground arith

added-Owns :
    (l : Looper) (p : ConnectionPtr) (c : Connection) (v : IsWellFormed l)
    → l.objects p ≡ none
    → Owns (added l p c v) p c
unfolding find_connection registered_ptr
added-Owns l p c v free =
    let same = (==_iff c.fd c.fd).1 refl in
    record {
      well_formed = added-IsWellFormed l p c v free;
      entered = rw same;
      existing = put_self l.objects p (some c);
      reported = rw same;
    }

module _ (k : Kernel) (generate : Generator) (p : ConnectionPtr) (a : Acceptor)
    (loopers : Loopers) where
  -- The chosen looper takes the client.
  pub accept-added :
      (fd : ℕ)
      → IsUniform generate
      → 0 < length a.agent.candidates
      → length a.agent.candidates < size_mod
      → (new : IsNew k a loopers p fd)
      → (looper : LooperId) × (idx : ℕ) × (c : Connection) × (get_elem? a.agent.candidates idx
          ≡ some looper)
        × ClientOf a looper fd c
        × (accept k generate true p a loopers
            ≡ ok (
              some a.on_accept_cb,
              put_looper loopers looper (added (loopers looper) p c (new.well_formed looper)),
            ))
  unfolding accept accept_fd accept_client_address client_connection set_looper set_callback
      set_events make_connection make_buffer
  accept-added fd uniform some_there small new =
      let (looper, idx, chosen, at) =
        select_candidate-get_elem? generate a.agent uniform some_there small in
      let c = set_looper (client_connection a fd) looper in
      let taken =
        add_connection-added (loopers looper) p c (new.well_formed looper) (new.unknown looper) in
      (
        looper,
        idx,
        c,
        at,
        (refl, refl, refl, refl, refl, refl),
        rw (
          new.arrived,
          accept,
          unblocked k fd new.flags new.has_flags new.settable,
          chosen,
          taken,
        ),
      )

  -- A new client, for which the system calls succeed and whose descriptor and address no looper
  -- has, is given to exactly one looper, one of the candidates, where there are any: that looper
  -- owns it, reads its events edge-triggered, and handles it with the function that is set at that
  -- moment; no other looper changes, and the function for new clients is called last.
  pub accept-Owns :
      (fd : ℕ)
      → IsUniform generate
      → 0 < length a.agent.candidates
      → length a.agent.candidates < size_mod
      → IsNew k a loopers p fd
      → (looper : LooperId) × (idx : ℕ) × (c : Connection) × (loopers' : Loopers) × (get_elem?
            a.agent.candidates idx
          ≡ some looper)
        × ClientOf a looper fd c
        × (accept k generate true p a loopers ≡ ok (some a.on_accept_cb, loopers'))
        × Owns (loopers' looper) p c
        × ((n : LooperId) → n ≢ looper → loopers' n ≡ loopers n)
  accept-Owns fd uniform some_there small new =
      let (looper, idx, c, at, client, run) = accept-added fd uniform some_there small new in
      let l = added (loopers looper) p c (new.well_formed looper) in
      (
        looper,
        idx,
        c,
        put_looper loopers looper l,
        at,
        client,
        run,
        subst (λ x. Owns x p c) (sym (put_looper_self loopers looper l))
            (added-Owns (loopers looper) p c (new.well_formed looper) (new.free looper)),
        λ n ne. put_looper_ne loopers l ne,
      )
