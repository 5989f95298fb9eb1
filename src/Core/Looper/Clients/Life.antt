-- ===== src/Core/Looper/Clients/Life.antt =====
-- The life of an event loop: clients are added to it, and rounds serve them.
use mathlib.Core.Option.{some_inj}
use dytech.Prelude.{
  subst, ◌≡◌, sym, ap, ◌∙◌, true, none, some, List, All, Distinct, ◌==◌, Bool-cases, ◌⊎◌, inl, inr,
}
use dytech.Outcome.{returns}
use dytech.Core.Connection.{Connection, Callback}
use dytech.Core.Poller.{ConnectionPtr, Objects, Ready, put, make_poller}
use dytech.Core.Looper.{Looper, make_looper, find_connection, add_connection, run_round}
use dytech.Core.Looper.Invariant.{
  registered_ptr, added-IsWellFormed, add_connection-added, added, put_self, put_ne, none_ne_some,
}
use dytech.Core.Looper.Round.{pointers}
use dytech.Core.Looper.Clients.{Handler, client_callbacks}
use dytech.Core.Looper.Clients.Reactor.{IsReactor, IsReported, Registers, Keeps}
use dytech.Core.Looper.Clients.Round.{run_round-IsReactor, applied, round_outcome, recorded, Stuck}

returns_inj : {A : Type 0} {a b : A} → returns a ≡ returns b → a ≡ b
returns_inj e = cc

pub make_looper-IsReactor : (objects : Objects) → IsReactor (make_looper objects)
unfolding make_looper make_poller registered_ptr find_connection
make_looper-IsReactor objects = record {
  formed = record {
    live = λ fd p h. absurd (none_ne_some h);
    kept = λ fd p h. absurd (none_ne_some h);
  };
  owned = λ fd p h. absurd (none_ne_some h);
  callable = λ fd p h. absurd (none_ne_some h);
}

-- A client is added at a free address, with a descriptor that the loop does not have.
module _ (l : Looper) (p : ConnectionPtr) (c : Connection) (f : Callback) (v : IsReactor l)
    (free : l.objects p ≡ none) (new : registered_ptr c.fd l.poller.registered ≡ none)
    (called : c.callback ≡ some f) where
  pub added-IsReactor : IsReactor (added l p c v.formed)
  unfolding find_connection registered_ptr
  added-IsReactor = record {
    formed = added-IsWellFormed l p c v.formed free;
    owned = λ d q h. elim (Bool-cases (c.fd == d)) [
      | inl same ↦ rw same (rw same at h)
      | inr differs ↦ rw differs (v.owned d q (rw differs at h))
    ];
    callable = λ d q h. elim (Bool-cases (c.fd == d)) [
      | inl same ↦
          let e : p ≡ q = some_inj.0 (rw same at h) in
          (c, f, ap (put l.objects p (some c)) (sym e) ∙ put_self l.objects p (some c), called)
      | inr differs ↦
          let (x, g, found, named) = v.callable d q (rw differs at h) in
          (
            x,
            g,
            put_ne l.objects p q (some c)
                  (λ e. none_ne_some (sym free ∙ ap l.objects (sym e) ∙ found))
                ∙ found,
            named,
          )
    ];
  }

-- What happens to a loop: a client is added to it, or a round serves those that are reported. What the
-- functions do depends on the round, since it depends on what the clients send.
pub data Turn : Looper → Looper → Type 0 where
  joins :
      {l l' : Looper} (p : ConnectionPtr) (c : Connection) (f : Callback)
      → l.objects p ≡ none
      → registered_ptr c.fd l.poller.registered ≡ none
      → c.callback ≡ some f
      → add_connection true l p c ≡ returns l'
      → Turn l l'
  serves :
      {l l' : Looper} (handler : Handler) (ready : List Ready) (started : List ConnectionPtr)
      → Keeps handler
      → Distinct (pointers ready)
      → All (IsReported l) (pointers ready)
      → run_round (client_callbacks handler) ready l ≡ some (started, l')
      → Turn l l'

-- A loop that was made in a program with some connections, after its turns.
pub data Reachable (objects : Objects) : Looper → Type 0 where
  made : Reachable objects (make_looper objects)
  turned : {l l' : Looper} → Reachable objects l → Turn l l' → Reachable objects l'

-- A round that came to its end.
pub ended-IsReactor :
    (handler : Handler) (ready : List Ready) {l l' : Looper} {started : List ConnectionPtr}
    → Keeps handler
    → IsReactor l
    → Distinct (pointers ready)
    → All (IsReported l) (pointers ready)
    → run_round (client_callbacks handler) ready l ≡ some (started, l')
    → IsReactor l' × Registers l l'
ended-IsReactor handler ready {l} keeps v d h e =
    elim (run_round-IsReactor handler keeps ready l v d h) [
      | inr (hangs, why) ↦ absurd (none_ne_some (sym hangs ∙ e))
      | inl (l'', run, v'', known, same) ↦
          subst (λ x. IsReactor x × Registers l x)
            (ap (λ (r : List ConnectionPtr × Looper). r.1) (some_inj.0 (sym run ∙ e))) (v'', known)
    ]

Turn-IsReactor : {l l' : Looper} → IsReactor l → Turn l l' → IsReactor l'
Turn-IsReactor v (joins p c f free new called e) =
    subst IsReactor (returns_inj (sym (add_connection-added _ p c v.formed new) ∙ e))
      (added-IsReactor _ p c f v free new called)
Turn-IsReactor v (serves handler ready started keeps d h e) =
    (ended-IsReactor handler ready keeps v d h e).0

Reachable-IsReactor : {objects : Objects} {l : Looper} → Reachable objects l → IsReactor l
Reachable-IsReactor made = make_looper-IsReactor _
Reachable-IsReactor (turned r t) = Turn-IsReactor (Reachable-IsReactor r) t

-- Whatever clients were added to a new loop, each at a free address, with a free descriptor and a
-- function, and whatever rounds there were, in which functions left the descriptor and the function of
-- their connection as they were: the next round of reports of distinct registered connections calls
-- nothing through a pointer to a connection that is gone. It starts each of them once, in order, and
-- comes to its end, unless one of the functions does not return. At its end a connection that was
-- reported is what the function makes of it with the events recorded, gone where the function deletes
-- it, and every other connection is as it was.
pub run_round-Reachable :
    (objects : Objects) (l : Looper)
    → Reachable objects l
    → (handler : Handler) → Keeps handler
    → (ready : List Ready) → Distinct (pointers ready)
    → All (IsReported l) (pointers ready)
    → ((l' : Looper) × (run_round (client_callbacks handler) ready l ≡ some (pointers ready, l'))
        × ((q : ConnectionPtr) → l'.objects q ≡ applied (round_outcome handler) ready l.objects q))
      ⊎ ((run_round (client_callbacks handler) ready l ≡ none)
          × Stuck handler (pointers ready) (applied recorded ready l.objects))
run_round-Reachable objects l r handler keeps ready d h =
    elim (run_round-IsReactor handler keeps ready l (Reachable-IsReactor r) d h) [
      | inl (l', run, v, known, same) ↦ inl (l', run, same)
      | inr hangs ↦ inr hangs
    ]
