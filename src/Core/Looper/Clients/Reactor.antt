-- ===== src/Core/Looper/Clients/Reactor.antt =====
-- An event loop whose clients are all its own: what a round does to it.
use dytech.Prelude.{
  ℕ, ◌≡◌, ◌≢◌, refl, sym, ap, ◌∙◌, subst, Bool, true, false, Option, none, some, ◌==◌, ==_iff,
  if◌then◌else◌, Bool-cases, Option-cases, ◌⊎◌, inl, inr,
}
use mathlib.Core.Option.{some_inj}
use dytech.Core.Connection.{Connection, Callback}
use dytech.Core.Poller.{ConnectionPtr, Objects, put}
use dytech.Core.Looper.{
  Looper, find_connection, erase_connection, delete_connection, destroy_connection, start,
}
use dytech.Core.Looper.Invariant.{
  IsWellFormed, registered_ptr, delete_connection-IsWellFormed, registered_ptr-unregister,
  put-IsWellFormed, find_connection-erase_connection, put_self, put_ne, none_ne_some,
}
use dytech.Core.Looper.Round.{start-calls, start-runs}
use dytech.Core.Looper.Clients.{Handler, after_handler, client_callbacks}

-- Whatever is registered is a connection that the loop owns, and that has a function.
pub record IsReactor (l : Looper) : Type 0 where
  pub formed : IsWellFormed l
  pub owned :
      (fd : ℕ) (p : ConnectionPtr)
      → registered_ptr fd l.poller.registered ≡ some p
      → find_connection fd l.connections ≡ some p
  pub callable :
      (fd : ℕ) (p : ConnectionPtr)
      → registered_ptr fd l.poller.registered ≡ some p
      → (c : Connection) × (f : Callback) × (l.objects p ≡ some c) × (c.callback ≡ some f)

-- The kernel may report this connection.
abbrev pub IsReported : Looper → ConnectionPtr → Type 0
IsReported l p = (fd : ℕ) × (registered_ptr fd l.poller.registered ≡ some p)

-- Where the function returns, it leaves the descriptor and the function of the connection as they are.
abbrev pub Keeps : Handler → Type 0
Keeps handler =
    (f : Callback) (c c' : Connection) (finished : Bool)
    → handler f c ≡ some (c', finished)
    → (c'.fd ≡ c.fd) × (c'.callback ≡ c.callback)

-- The function of the connection at an address does not return.
abbrev pub Hangs : Handler → Objects → ConnectionPtr → Type 0
Hangs handler objects p =
    (c : Connection) × (f : Callback) × (objects p ≡ some c)
    × (c.callback ≡ some f)
    × (handler f c ≡ none)

-- A connection is written at its address, with its descriptor and its function kept.
module _ (l : Looper) (p : ConnectionPtr) (c c' : Connection) (v : IsReactor l)
    (at : l.objects p ≡ some c) (fd : c'.fd ≡ c.fd) (called : c'.callback ≡ c.callback) where
  abbrev written : Looper
  written = record l { objects = put l.objects p (some c') }

  written_at :
      (q : ConnectionPtr) (x : Connection)
      → l.objects q ≡ some x
      → (x' : Connection) × (written.objects q ≡ some x') × (x'.callback ≡ x.callback)
  written_at q x found = elim (Bool-cases (q == p)) [
    | inl same ↦
        let e = (==_iff q p).0 same in
        let one : c ≡ x = some_inj.0 (sym at ∙ ap l.objects (sym e) ∙ found) in
        (
          c',
          ap (put l.objects p (some c')) e ∙ put_self l.objects p (some c'),
          called ∙ ap (λ (x : Connection). x.callback) one,
        )
    | inr differs ↦ (x, put_ne l.objects p q (some c') (λ e. cc ((==_iff q p).1 e)) ∙ found, refl)
  ]

  pub put-IsReactor : IsReactor written
  put-IsReactor = record {
    formed = put-IsWellFormed l p c c' v.formed at fd;
    owned = v.owned;
    callable = λ d q h.
        let (x, f, found, named) = v.callable d q h in
        let (x', found', called') = written_at q x found in (x', f, found', called' ∙ named);
  }

-- The connection of a descriptor is deleted: the loop keeps its other clients, and the kernel may
-- still report those.
module _ (l : Looper) (fd : ℕ) (p : ConnectionPtr) (v : IsReactor l)
    (reg : registered_ptr fd l.poller.registered ≡ some p) where
  abbrev deleted : Looper
  deleted = destroy_connection (record l { connections = erase_connection fd l.connections }) fd p

  delete-deleted : delete_connection l fd ≡ (true, deleted)
  unfolding delete_connection
  delete-deleted = rw (v.owned fd p reg, delete_connection)

  -- What is still registered is another descriptor, with another address.
  still_registered :
      (d : ℕ) (q : ConnectionPtr)
      → registered_ptr d deleted.poller.registered ≡ some q
      → ((d == fd) ≡ false) × (registered_ptr d l.poller.registered ≡ some q) × (q ≢ p)
  unfolding destroy_connection
  still_registered d q h = elim (Bool-cases (d == fd)) [
    | inl same ↦ absurd (none_ne_some (sym (registered_ptr-unregister d fd _ ∙ rw same) ∙ h))
    | inr differs ↦
        let before : registered_ptr d l.poller.registered ≡ some q =
          sym (registered_ptr-unregister d fd _ ∙ rw differs) ∙ h in
        let (x, found, named) = v.formed.live d q before in
        let (y, found', named') = v.formed.live fd p reg in
        (
          differs,
          before,
          λ e.
              let one : x ≡ y = some_inj.0 (sym found ∙ ap l.objects e ∙ found') in
              cc ((==_iff d fd).1 (sym named ∙ ap (λ (x : Connection). x.fd) one ∙ named')),
        )
  ]

  -- Another connection may still be reported.
  deleted-IsReported : (q : ConnectionPtr) → q ≢ p → IsReported l q → IsReported deleted q
  unfolding destroy_connection
  deleted-IsReported q ne (d, h) = elim (Bool-cases (d == fd)) [
    | inl same ↦ absurd (
        ne (
          some_inj.0
            (sym h ∙ ap (λ z. registered_ptr z l.poller.registered) ((==_iff d fd).0 same) ∙ reg)))
    | inr differs ↦ (d, registered_ptr-unregister d fd _ ∙ rw differs h)
  ]

  deleted-IsReactor : IsReactor deleted
  unfolding destroy_connection
  deleted-IsReactor = record {
    formed =
        subst IsWellFormed (ap (λ (r : Bool × Looper). r.1) delete-deleted)
          (delete_connection-IsWellFormed l fd v.formed).0;
    owned = λ d q h.
        let (differs, before, ne) = still_registered d q h in
        find_connection-erase_connection d fd _ ∙ rw differs (v.owned d q before);
    callable = λ d q h.
        let (differs, before, ne) = still_registered d q h in
        let (x, f, found, named) = v.callable d q before in
        (x, f, put_ne l.objects p q none ne ∙ found, named);
  }

-- Nothing is registered anew.
abbrev pub Registers : Looper → Looper → Type 0
Registers l l' =
    (fd : ℕ) (p : ConnectionPtr)
    → registered_ptr fd l'.poller.registered ≡ some p
    → registered_ptr fd l.poller.registered ≡ some p

-- What a function makes of a connection: `none` where it deletes it.
unfoldable pub outcome : Handler → Option Connection → Option Connection
outcome handler none = none
outcome handler (some c) = elim c.callback [
  | none ↦ some c
  | some f ↦ elim (handler f c) [
    | none ↦ some c
    | some (c', finished) ↦ if finished then none else some c'
  ]
]

outcome-runs :
    (handler : Handler) (o : Option Connection) {c c' : Connection} {f : Callback} (finished : Bool)
    → o ≡ some c
    → c.callback ≡ some f
    → handler f c ≡ some (c', finished)
    → outcome handler o ≡ (if finished then none else some c')
unfolding outcome
outcome-runs handler o finished found called run =
    rw (found, outcome, called, outcome, run, outcome)

-- The loop after it started a connection.
pub record IsStarted (handler : Handler) (l : Looper) (p : ConnectionPtr) (l' : Looper)
    : Type 0 where
  pub reactor : IsReactor l'
  pub reported : (q : ConnectionPtr) → q ≢ p → IsReported l q → IsReported l' q
  pub handled : l'.objects p ≡ outcome handler (l.objects p)
  pub elsewhere : (q : ConnectionPtr) → q ≢ p → l'.objects q ≡ l.objects q
  pub registers : Registers l l'

-- One function, which returns: the loop stays as it must be, and another connection may still be
-- reported.
start-returns :
    (handler : Handler)
    → Keeps handler
    → (l : Looper) (p : ConnectionPtr) (c c' : Connection) (f : Callback) (finished : Bool)
    → IsReactor l
    → IsReported l p
    → l.objects p ≡ some c
    → c.callback ≡ some f
    → handler f c ≡ some (c', finished)
    → (l' : Looper) × (start (client_callbacks handler) p l ≡ some l') × IsStarted handler l p l'
unfolding client_callbacks after_handler destroy_connection
start-returns handler keeps l p c c' f finished v (fd, reg) found called run =
    let (x, found', named) = v.formed.live fd p reg in
    let named' : c.fd ≡ fd =
      ap (λ (x : Connection). x.fd) (some_inj.0 (sym found ∙ found')) ∙ named in
    let (same, same') = keeps f c c' finished run in
    let l' = record l { objects = put l.objects p (some c') } in
    let v' = put-IsReactor l p c c' v found same same' in
    elim (Bool-cases finished) [
      | inl done ↦ (
        deleted l' fd p v' reg,
        start-runs (client_callbacks handler) p l found called (
            rw (found, client_callbacks, run, after_handler, done)
              (ap (λ d. some (delete_connection l' d).1) named'
                ∙ ap (λ (r : Bool × Looper). some r.1) (delete-deleted l' fd p v' reg))),
        record {
          reactor = deleted-IsReactor l' fd p v' reg;
          reported = deleted-IsReported l' fd p v' reg;
          handled =
              put_self l'.objects p none
              ∙ sym (outcome-runs handler (l.objects p) finished found called run ∙ rw done);
          elsewhere = λ q ne. put_ne l'.objects p q none ne ∙ put_ne l.objects p q (some c') ne;
          registers = λ d q h. (still_registered l' fd p v' reg d q h).1;
        },
      )
      | inr more ↦ (
        l',
        start-runs (client_callbacks handler) p l found called
            (rw (found, client_callbacks, run, after_handler, more)),
        record {
          reactor = v';
          reported = λ q ne h. h;
          handled =
              put_self l.objects p (some c')
              ∙ sym (outcome-runs handler (l.objects p) finished found called run ∙ rw more);
          elsewhere = λ q ne. put_ne l.objects p q (some c') ne;
          registers = λ d q h. h;
        },
      )
    ]

-- One function: it returns, or the loop hangs in it.
pub start-IsStarted :
    (handler : Handler)
    → Keeps handler
    → (l : Looper) (p : ConnectionPtr) → IsReactor l
    → IsReported l p
    → ((l' : Looper) × (start (client_callbacks handler) p l ≡ some l') × IsStarted handler l p l')
      ⊎ ((start (client_callbacks handler) p l ≡ none) × Hangs handler l.objects p)
unfolding client_callbacks after_handler
start-IsStarted handler keeps l p v (fd, reg) =
    let (c, f, found, called) = v.callable fd p reg in
    elim (Option-cases (handler f c)) [
      | inl hangs ↦ inr (
        start-calls (client_callbacks handler) p l found called
            ∙ rw (found, client_callbacks, hangs),
        (c, f, found, called, hangs),
      )
      | inr ((c', finished), run) ↦
          inl (start-returns handler keeps l p c c' f finished v (fd, reg) found called run)
    ]
