-- ===== src/Core/Looper/Invariant.antt =====
-- What the event loop keeps: whatever the kernel can report is a connection that exists.
use mathlib.Core.Option.{some_inj}
use mathlib.Core.Bool.{false≢true}
use dytech.Prelude.{
  subst, ℕ, ◌≡◌, ◌≢◌, refl, sym, ap, ◌∙◌, true, false, none, some, ◌∷◌, arith, ◌==◌, ==_iff,
  Bool-cases, Option-cases, inl, inr,
}
use dytech.Outcome.{returns}
use dytech.Core.Connection.{Connection}
use dytech.Core.Poller.{ConnectionPtr, put, unregister, add_registration}
unfoldable pub use dytech.Core.Looper.Registered.{registered_ptr}
pub use dytech.Core.Looper.Registered.{
  registered_ptr-unregister, find_connection-erase_connection, none_ne_some, put_self, put_ne,
}
use dytech.Core.Looper.Registered.{is_registered-registered_ptr}
use dytech.Core.Looper.{
  Looper, find_connection, erase_connection, add_connection, insert_connection, delete_connection,
  destroy_connection,
}

-- Every registered descriptor is that of a connection that exists at the registered address, and
-- every connection that the loop owns is registered with its address.
pub record IsWellFormed (l : Looper) : Type 0 where
  pub live :
      (fd : ℕ) (p : ConnectionPtr)
      → registered_ptr fd l.poller.registered ≡ some p
      → (c : Connection) × (l.objects p ≡ some c) × (c.fd ≡ fd)
  pub kept :
      (fd : ℕ) (p : ConnectionPtr)
      → find_connection fd l.connections ≡ some p
      → registered_ptr fd l.poller.registered ≡ some p

-- A connection is written at its address, with its descriptor kept.
pub put-IsWellFormed :
    (l : Looper) (p : ConnectionPtr) (c c' : Connection)
    → IsWellFormed l
    → l.objects p ≡ some c
    → c'.fd ≡ c.fd
    → IsWellFormed (record l { objects = put l.objects p (some c') })
put-IsWellFormed l p c c' v at same = record {
  live = λ d q h.
      let (x, found, named) = v.live d q h in
      elim (Bool-cases (q == p)) [
        | inl is ↦
            let e = (==_iff q p).0 is in
            let one : c ≡ x = some_inj.0 (sym at ∙ ap l.objects (sym e) ∙ found) in
            (
              c',
              ap (put l.objects p (some c')) e ∙ put_self l.objects p (some c'),
              same ∙ ap (λ (x : Connection). x.fd) one ∙ named,
            )
        | inr differs ↦
            (x, put_ne l.objects p q (some c') (λ e. cc ((==_iff q p).1 e)) ∙ found, named)
      ];
  kept = v.kept;
}

module _ (l : Looper) (p : ConnectionPtr) (c : Connection) (v : IsWellFormed l) where
  added_live :
      l.objects p ≡ none
      → (fd : ℕ) (q : ConnectionPtr)
      → registered_ptr fd (record { fd = c.fd; ptr = p; events = c.events } ∷ l.poller.registered)
        ≡ some q
      → (x : Connection) × (put l.objects p (some c) q ≡ some x) × (x.fd ≡ fd)
  unfolding registered_ptr
  added_live free fd q h = elim (Bool-cases (c.fd == fd)) [
    | inl same ↦
        let at : p ≡ q = some_inj.0 (rw same at h) in
        (
          c,
          ap (put l.objects p (some c)) (sym at) ∙ put_self l.objects p (some c),
          (==_iff c.fd fd).0 same,
        )
    | inr differs ↦
        let (x, e, f) = v.live fd q (rw differs at h) in
        let ne : q ≢ p = λ at. none_ne_some (sym free ∙ ap l.objects (sym at) ∙ e) in
        (x, put_ne l.objects p q (some c) ne ∙ e, f)
  ]

  added_kept :
      (fd : ℕ) (q : ConnectionPtr)
      → find_connection fd ((c.fd, p) ∷ l.connections) ≡ some q
      → registered_ptr fd (record { fd = c.fd; ptr = p; events = c.events } ∷ l.poller.registered)
        ≡ some q
  unfolding registered_ptr find_connection
  added_kept fd q h = elim (Bool-cases (c.fd == fd)) [
    | inl same ↦ rw same (rw same at h)
    | inr differs ↦ rw differs (v.kept fd q (rw differs at h))
  ]

  -- What `AddConnection` comes to for a connection that it takes.
  abbrev pub added : Looper
  added = record l {
    poller = record (l.poller) {
      registered = record { fd = c.fd; ptr = p; events = c.events } ∷ l.poller.registered;
    };
    objects = put l.objects p (some c);
    connections = (c.fd, p) ∷ l.connections;
  }

  pub add_connection-added :
      registered_ptr c.fd l.poller.registered ≡ none → add_connection true l p c ≡ returns added
  unfolding add_connection insert_connection add_registration
  add_connection-added new =
      let missing = is_registered-registered_ptr c.fd l.poller.registered new in
      let absent : find_connection c.fd l.connections ≡ none =
        elim (Option-cases (find_connection c.fd l.connections)) [
          | inl e ↦ e
          | inr (q, e) ↦ absurd (none_ne_some (sym new ∙ v.kept c.fd q e))
        ] in
      rw (missing, absent, insert_connection)

  pub added-IsWellFormed : l.objects p ≡ none → IsWellFormed added
  added-IsWellFormed free = record { live = added_live free; kept = added_kept }

-- A connection that is made at a free address, for a descriptor that the loop does not have, is added
-- where the kernel accepts it: the loop then owns it under its descriptor, the connections that there
-- were stay as they are, and the loop is well-formed.
pub add_connection-IsWellFormed :
    (l : Looper) (p : ConnectionPtr) (c : Connection)
    → IsWellFormed l
    → l.objects p ≡ none
    → registered_ptr c.fd l.poller.registered ≡ none
    → (l' : Looper) × (add_connection true l p c ≡ returns l')
      × IsWellFormed l'
      × (find_connection c.fd l'.connections ≡ some p)
      × (l'.objects p ≡ some c)
      × ((q : ConnectionPtr) → q ≢ p → l'.objects q ≡ l.objects q)
unfolding find_connection
add_connection-IsWellFormed l p c v free new = (
  added l p c v,
  add_connection-added l p c v new,
  added-IsWellFormed l p c v free,
  ground arith,
  put_self l.objects p (some c),
  λ q ne. put_ne l.objects p q (some c) ne,
)

-- What `DeleteConnection` comes to for a descriptor that the loop has.
pub record IsDeleted (l : Looper) (fd : ℕ) (p : ConnectionPtr) (l' : Looper) : Type 0 where
  pub gone : l'.objects p ≡ none
  pub forgotten : find_connection fd l'.connections ≡ none
  pub unreported : registered_ptr fd l'.poller.registered ≡ none
  pub others : (q : ConnectionPtr) → q ≢ p → l'.objects q ≡ l.objects q
  pub owned : (d : ℕ) → d ≢ fd → find_connection d l'.connections ≡ find_connection d l.connections
  pub registered :
      (d : ℕ)
      → d ≢ fd
      → registered_ptr d l'.poller.registered ≡ registered_ptr d l.poller.registered
  pub goes_on : l'.exit ≡ l.exit

module _ (l : Looper) (fd : ℕ) (p : ConnectionPtr) (v : IsWellFormed l)
    (found : find_connection fd l.connections ≡ some p) where
  -- Another descriptor is registered with another address.
  other_ptr :
      (d : ℕ) (q : ConnectionPtr)
      → registered_ptr d l.poller.registered ≡ some q
      → (d == fd) ≡ false
      → q ≢ p
  other_ptr d q h differs at =
      let (c, e, f) = v.live fd p (v.kept fd p found) in
      let (c', e', f') = v.live d q h in
      let same : c ≡ c' = some_inj.0 (sym e ∙ ap l.objects (sym at) ∙ e') in
      false≢true
        (sym differs ∙ (==_iff d fd).1 (sym f' ∙ ap (λ (c : Connection). c.fd) (sym same) ∙ f))

  abbrev deleted : Looper
  deleted = destroy_connection (record l { connections = erase_connection fd l.connections }) fd p

  deleted_live :
      (d : ℕ) (q : ConnectionPtr)
      → registered_ptr d (unregister fd l.poller.registered) ≡ some q
      → (x : Connection) × (put l.objects p none q ≡ some x) × (x.fd ≡ d)
  deleted_live d q h = elim (Bool-cases (d == fd)) [
    | inl same ↦ absurd (none_ne_some (sym (registered_ptr-unregister d fd _ ∙ rw same) ∙ h))
    | inr differs ↦
        let h' : registered_ptr d l.poller.registered ≡ some q =
          sym (registered_ptr-unregister d fd _ ∙ rw differs) ∙ h in
        let (x, e, f) = v.live d q h' in
        (x, put_ne l.objects p q none (other_ptr d q h' differs) ∙ e, f)
  ]

  deleted_kept :
      (d : ℕ) (q : ConnectionPtr)
      → find_connection d (erase_connection fd l.connections) ≡ some q
      → registered_ptr d (unregister fd l.poller.registered) ≡ some q
  deleted_kept d q h = elim (Bool-cases (d == fd)) [
    | inl same ↦ absurd (none_ne_some (sym (find_connection-erase_connection d fd _ ∙ rw same) ∙ h))
    | inr differs ↦
        registered_ptr-unregister d fd _
        ∙ rw differs (v.kept d q (sym (find_connection-erase_connection d fd _ ∙ rw differs) ∙ h))
  ]

  deleted-IsWellFormed : IsWellFormed deleted
  unfolding destroy_connection
  deleted-IsWellFormed = record { live = deleted_live; kept = deleted_kept }

  deleted-IsDeleted : IsDeleted l fd p deleted
  unfolding destroy_connection
  deleted-IsDeleted =
      let same = (==_iff fd fd).1 refl in
      record {
        gone = put_self l.objects p none;
        forgotten = find_connection-erase_connection fd fd _ ∙ rw same;
        unreported = registered_ptr-unregister fd fd _ ∙ rw same;
        others = λ q ne. put_ne l.objects p q none ne;
        owned = λ d ne. find_connection-erase_connection d fd _ ∙ rw (differs d ne);
        registered = λ d ne. registered_ptr-unregister d fd _ ∙ rw (differs d ne);
        goes_on = refl;
      }
    where
      differs : (d : ℕ) → d ≢ fd → (d == fd) ≡ false
      differs d ne = ground (arith, ==_iff d fd)

-- `DeleteConnection` destroys the connection that the loop has under the descriptor, if there is one:
-- the loop no longer has it, and the kernel reports it no more. Every other connection stays as it is,
-- owned and registered under its descriptor as before, and the loop goes on or leaves as before and
-- stays well-formed. It says whether there was one, and changes nothing if there was none.
pub delete_connection-IsWellFormed :
    (l : Looper) (fd : ℕ)
    → IsWellFormed l
    → let (found, l') = delete_connection l fd in
      IsWellFormed l'
      × (find_connection fd l.connections ≡ none → (found ≡ false) × (l' ≡ l))
      × ((p : ConnectionPtr)
          → find_connection fd l.connections ≡ some p
          → (found ≡ true) × IsDeleted l fd p l')
unfolding delete_connection
delete_connection-IsWellFormed l fd v = elim (Option-cases (find_connection fd l.connections)) [
  | inl e ↦ rw (e, delete_connection) (v, (λ _. (refl, refl)), λ p q. absurd (none_ne_some q))
  | inr (p, e) ↦
      rw (e, delete_connection)
        (
          deleted-IsWellFormed l fd p v e,
          (λ q. absurd (none_ne_some (sym q))),
          λ q f. (
            refl,
            subst (λ z. IsDeleted l fd z (deleted l fd p v e)) (some_inj.0 f)
                (deleted-IsDeleted l fd p v e),
          ),
        )
]
