-- ===== src/Core/Acceptor/Traffic.antt =====
-- The acceptor and the event loops together: what the loops share, which is nothing.
pub mod Busy
use mathlib.Core.Option.{some_inj}
use dytech.Prelude.{
  subst, ℕ, ◌<◌, ◌≡◌, ◌≢◌, refl, sym, ap, ◌∙◌, Bool, ◌⊎◌, true, none, some, Option, List, [], All,
  Distinct, length, size_mod, ◌==◌, ==_iff, if◌then◌else◌, Bool-cases, Option-cases, inl, inr,
}
use dytech.Core.Result.{ok}
use dytech.Core.Connection.{Connection, Callback, LooperId}
use dytech.Core.Poller.{ConnectionPtr, Objects, Ready}
use dytech.Core.Socket.{Kernel}
use dytech.Core.Looper.{Looper, make_looper, run_round}
use dytech.Core.Looper.Invariant.{registered_ptr, added, none_ne_some}
use dytech.Core.Looper.Round.{pointers}
use dytech.Core.Looper.Clients.{Handler, client_callbacks}
use dytech.Core.Looper.Clients.Reactor.{IsReactor, IsReported, Registers, Keeps}
use dytech.Core.Looper.Clients.Round.{run_round-IsReactor}
use dytech.Core.Looper.Clients.Life.{make_looper-IsReactor, added-IsReactor}
use dytech.Core.DistributionAgent.{Generator, IsUniform}
use dytech.Core.Acceptor.{Acceptor, Loopers, put_looper, accept}
use dytech.Core.Acceptor.Dispatch.{IsNew, accept-added, put_looper_self, put_looper_ne}

-- The pointer that a looper has a descriptor registered with.
abbrev pub pointer_of : Looper → ℕ → Option ConnectionPtr
pointer_of l fd = registered_ptr fd l.poller.registered

-- Every looper is well, and no two of them share a descriptor or a connection.
pub record IsApart (loopers : Loopers) : Type 0 where
  pub reactors : (n : LooperId) → IsReactor (loopers n)
  pub descriptors :
      (n m : LooperId) (fd : ℕ) (p : ConnectionPtr)
      → n ≢ m
      → pointer_of (loopers n) fd ≡ some p
      → pointer_of (loopers m) fd ≡ none
  pub connections :
      (n m : LooperId) (fd d : ℕ) (p q : ConnectionPtr)
      → n ≢ m
      → pointer_of (loopers n) fd ≡ some p
      → pointer_of (loopers m) d ≡ some q
      → p ≢ q

-- One looper changes, and registers nothing that could collide.
module _ (loopers : Loopers) (v : IsApart loopers) (n : LooperId) (l : Looper) (well : IsReactor l)
    (alone : (m : LooperId) (fd : ℕ) (p : ConnectionPtr)
      → n ≢ m
      → pointer_of l fd ≡ some p
      → (pointer_of (loopers m) fd ≡ none)
        × ((d : ℕ) (q : ConnectionPtr) → pointer_of (loopers m) d ≡ some q → p ≢ q)) where
  abbrev loopers' : Loopers
  loopers' = put_looper loopers n l

  changed : (m : LooperId) → ((n ≡ m) × (loopers' m ≡ l)) ⊎ ((n ≢ m) × (loopers' m ≡ loopers m))
  changed m = elim (Bool-cases (n == m)) [
    | inl same ↦
        let e = (==_iff n m).0 same in inl (e, ap loopers' (sym e) ∙ put_looper_self loopers n l)
    | inr differs ↦
        let ne : n ≢ m = λ e. cc ((==_iff n m).1 e) in
        inr (ne, put_looper_ne loopers l (λ e. ne (sym e)))
  ]

  -- The pointer of a descriptor in a looper that is another one.
  moved :
      {a b : Looper} (fd : ℕ) {o : Option ConnectionPtr}
      → a ≡ b
      → pointer_of a fd ≡ o
      → pointer_of b fd ≡ o
  moved fd e h = ap (λ x. pointer_of x fd) (sym e) ∙ h

  pub put-IsApart : IsApart loopers'
  put-IsApart = record {
    reactors = λ m. elim (changed m) [
      | inl (e, is) ↦ subst IsReactor (sym is) well
      | inr (ne, is) ↦ subst IsReactor (sym is) (v.reactors m)
    ];
    descriptors = λ a b fd p ne h. elim (changed a) [
      | inl (e, is) ↦ elim (changed b) [
        | inl (e', is') ↦ absurd (ne (sym e ∙ e'))
        | inr (ne', is') ↦ moved fd (sym is') (alone b fd p ne' (moved fd is h)).0
      ]
      | inr (na, is) ↦ elim (changed b) [
        | inl (e', is') ↦ moved fd (sym is') (elim (Option-cases (pointer_of l fd)) [
          | inl missing ↦ missing
          | inr (q, found) ↦ absurd (none_ne_some (sym (alone a fd q na found).0 ∙ moved fd is h))
        ])
        | inr (nb, is') ↦ moved fd (sym is') (v.descriptors a b fd p ne (moved fd is h))
      ]
    ];
    connections = λ a b fd d p q ne h k. elim (changed a) [
      | inl (e, is) ↦ elim (changed b) [
        | inl (e', is') ↦ absurd (ne (sym e ∙ e'))
        | inr (ne', is') ↦ (alone b fd p ne' (moved fd is h)).1 d q (moved d is' k)
      ]
      | inr (na, is) ↦ elim (changed b) [
        | inl (e', is') ↦ λ e. (alone a d q na (moved d is' k)).1 fd p (moved fd is h) (sym e)
        | inr (nb, is') ↦ v.connections a b fd d p q ne (moved fd is h) (moved d is' k)
      ]
    ];
  }

-- The system calls for a new client succeed, its descriptor is registered nowhere, and its connection
-- is made at an address that is free.
pub record Arrives (k : Kernel) (a : Acceptor) (loopers : Loopers) (p : ConnectionPtr) (fd : ℕ)
    : Type 0 where
  pub arrived : k.accept a.acceptor_connection.fd ≡ some fd
  pub flags : ℕ
  pub has_flags : k.get_flags fd ≡ some flags
  pub settable : k.set_flags fd ≡ true
  pub free : (n : LooperId) → (loopers n).objects p ≡ none
  pub unknown : (n : LooperId) → pointer_of (loopers n) fd ≡ none

pub Arrives-IsNew :
    {k : Kernel} {a : Acceptor} {loopers : Loopers} {p : ConnectionPtr} {fd : ℕ}
    → IsApart loopers
    → Arrives k a loopers p fd
    → IsNew k a loopers p fd
Arrives-IsNew v new = record {
  arrived = new.arrived;
  flags = new.flags;
  has_flags = new.has_flags;
  settable = new.settable;
  well_formed = λ n. (v.reactors n).formed;
  free = new.free;
  unknown = new.unknown;
}

-- A new client shares nothing with the other loopers.
module _ (loopers : Loopers) (v : IsApart loopers) (n : LooperId) (p : ConnectionPtr)
    (c : Connection) (free : (m : LooperId) → (loopers m).objects p ≡ none)
    (unknown : (m : LooperId) → pointer_of (loopers m) c.fd ≡ none) where
  pub added_alone :
      (m : LooperId) (fd : ℕ) (q : ConnectionPtr)
      → n ≢ m
      → pointer_of (added (loopers n) p c (v.reactors n).formed) fd ≡ some q
      → (pointer_of (loopers m) fd ≡ none)
        × ((d : ℕ) (r : ConnectionPtr) → pointer_of (loopers m) d ≡ some r → q ≢ r)
  unfolding registered_ptr
  added_alone m fd q ne h = elim (Bool-cases (c.fd == fd)) [
    | inl same ↦
        let at : p ≡ q = some_inj.0 (rw same at h) in
        (
          ap (pointer_of (loopers m)) (sym ((==_iff c.fd fd).0 same)) ∙ unknown m,
          λ d r k e.
              let (x, found, named) = (v.reactors m).formed.live d r k in
              none_ne_some (sym (free m) ∙ ap (loopers m).objects (at ∙ e) ∙ found),
        )
    | inr differs ↦
        let before : pointer_of (loopers n) fd ≡ some q = rw differs at h in
        (v.descriptors n m fd q ne before, λ d r. v.connections n m fd d q r ne before)
  ]
