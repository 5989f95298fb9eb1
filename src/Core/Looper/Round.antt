-- ===== src/Core/Looper/Round.antt =====
-- One round of the event loop: what `epoll_wait` reports is started, each connection once, in order.
use mathlib.Core.Option
use dytech.Prelude.{
  ◌≡◌, ◌≢◌, refl, sym, ap, ◌∙◌, Option, some, List, [], ◌∷◌, arith, All, NotIn, Distinct,
  Bool-cases, ==_iff, if◌then◌else◌, Option-cases, inl, inr, ◌==◌, All-map,
}
use dytech.Core.Connection.{Connection, Callback, set_revents}
use dytech.Core.Poller.{ConnectionPtr, Objects, Ready, put, set_revents_at, poll_loop}
use dytech.Core.Looper.{Looper, Callbacks, start, start_all, run_round}

-- The function of the connection at an address: `none` where there is no connection.
unfoldable pub callback_at : Objects → ConnectionPtr → Option (Option Callback)
callback_at objects p = Option.map (λ (c : Connection). c.callback) (objects p)

-- There is a connection at the address, and it has a function.
abbrev pub IsRunnable : Objects → ConnectionPtr → Type 0
IsRunnable objects p = (f : Callback) × (callback_at objects p ≡ some (some f))

-- A function may destroy the connection that it is called for, and no other one.
abbrev pub Honours : Callbacks → Type 0
Honours call =
    (f : Callback) (p : ConnectionPtr) (l : Looper)
    → IsRunnable l.objects p
    → (l' : Looper) × (call f p l ≡ some l')
      × ((q : ConnectionPtr) → q ≢ p → IsRunnable l.objects q → IsRunnable l'.objects q)

abbrev pub pointers : List Ready → List ConnectionPtr
pointers [] = []
pointers (r ∷ rs) = r.0 ∷ pointers rs

object_at :
    (objects : Objects) (p : ConnectionPtr) {f : Callback}
    → callback_at objects p ≡ some (some f)
    → (c : Connection) × (objects p ≡ some c) × (c.callback ≡ some f)
unfolding callback_at
object_at objects p e = elim (Option-cases (objects p)) [
  | inl missing ↦ absurd (ground arith)
  | inr (c, found) ↦ (c, found, ground arith)
]

put-callback_at :
    (objects : Objects) (p : ConnectionPtr) (c : Connection)
    → callback_at objects p ≡ some c.callback
    → (q : ConnectionPtr) → callback_at (put objects p (some c)) q ≡ callback_at objects q
unfolding callback_at put
put-callback_at objects p c e q =
    let called = λ (c : Connection). c.callback in
    elim (Bool-cases (q == p)) [
      | inl same ↦
          ap (λ b. Option.map called (if b then some c else objects q)) same
          ∙ sym e
          ∙ ap (λ z. Option.map called (objects z)) (sym ((==_iff q p).0 same))
      | inr differs ↦ ap (λ b. Option.map called (if b then some c else objects q)) differs
    ]

set_revents_at-callback_at :
    (objects : Objects) (r : Ready)
    → IsRunnable objects (r.0)
    → (objects' : Objects) × (set_revents_at objects r ≡ some objects')
      × ((q : ConnectionPtr) → callback_at objects' q ≡ callback_at objects q)
unfolding set_revents_at callback_at set_revents put
set_revents_at-callback_at objects (p, events) (f, e) =
    let (c, found, called) = object_at objects p e in
    (
      put objects p (some (set_revents c events)),
      rw (found, set_revents_at),
      put-callback_at objects p (set_revents c events) (e ∙ ap some (sym called)),
    )

poll_loop-callback_at :
    (ready : List Ready) (objects : Objects)
    → All (IsRunnable objects) (pointers ready)
    → (objects' : Objects) × (poll_loop ready objects ≡ some (pointers ready, objects'))
      × ((q : ConnectionPtr) → callback_at objects' q ≡ callback_at objects q)
unfolding poll_loop
poll_loop-callback_at [] objects h = (objects, refl, λ q. refl)
poll_loop-callback_at (r ∷ rs) objects h =
    let (objects', e, same) = set_revents_at-callback_at objects r h.0 in
    let (objects'', e', same') = poll_loop-callback_at rs objects' (
      All-map (IsRunnable objects) (IsRunnable objects') (pointers rs) (λ p k. (k.0, same p ∙ k.1))
        h.1) in
    (objects'', rw (e, poll_loop, e', poll_loop), λ q. same' q ∙ same q)

-- The others stay as they are when a function has run.
others :
    (call : Callbacks) (l l' : Looper) (p : ConnectionPtr) (ps : List ConnectionPtr)
    → ((q : ConnectionPtr) → q ≢ p → IsRunnable l.objects q → IsRunnable l'.objects q)
    → NotIn p ps
    → All (IsRunnable l.objects) ps
    → All (IsRunnable l'.objects) ps
others call l l' p [] keeps out h = tt
others call l l' p (q ∷ ps) keeps out h =
    (keeps q (λ e. out.0 (sym e)) h.0, others call l l' p ps keeps out.1 h.1)

pub start-calls :
    (call : Callbacks) (p : ConnectionPtr) (l : Looper) {c : Connection} {f : Callback}
    → l.objects p ≡ some c
    → c.callback ≡ some f
    → start call p l ≡ call f p l
unfolding start
start-calls call p l found called = rw (found, start, called, start)

pub start-runs :
    (call : Callbacks) (p : ConnectionPtr) (l : Looper) {l' : Looper} {c : Connection}
    {f : Callback}
    → l.objects p ≡ some c
    → c.callback ≡ some f
    → call f p l ≡ some l'
    → start call p l ≡ some l'
start-runs call p l found called run = start-calls call p l found called ∙ run

start_all-Honours :
    (call : Callbacks)
    → Honours call
    → (ps : List ConnectionPtr) (l : Looper) → Distinct ps
    → All (IsRunnable l.objects) ps
    → (l' : Looper) × (start_all call ps l ≡ some (ps, l'))
unfolding start_all
start_all-Honours call honest [] l d h = (l, refl)
start_all-Honours call honest (p ∷ ps) l d h =
    let (f, e) = h.0 in
    let (c, found, called) = object_at l.objects p e in
    let (l', run, keeps) = honest f p l h.0 in
    let (l'', run') =
      start_all-Honours call honest ps l' d.1 (others call l l' p ps keeps d.0 h.1) in
    (l'', rw (start-runs call p l found called run, start_all, run', start_all))

-- In a round of the event loop, for reports of distinct connections that exist and have a function,
-- where no function destroys another connection than its own: nothing is called through a pointer to
-- a connection that is gone, and each connection that was reported is started once, in order.
run_round-Honours :
    (call : Callbacks) (ready : List Ready) (l : Looper)
    → Honours call
    → Distinct (pointers ready)
    → All (IsRunnable l.objects) (pointers ready)
    → (l' : Looper) × (run_round call ready l ≡ some (pointers ready, l'))
unfolding run_round
run_round-Honours call ready l honest d h =
    let (objects, e, same) = poll_loop-callback_at ready l.objects h in
    let (l', run) =
      start_all-Honours call honest (pointers ready) (record l { objects = objects }) d
        (All-map (IsRunnable l.objects) (IsRunnable objects) (pointers ready)
          (λ p k. (k.0, same p ∙ k.1)) h) in
    (l', rw (e, run_round) run)
