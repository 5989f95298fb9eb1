-- ===== src/Core/Looper/Clients/Round.antt =====
-- A round of an event loop whose clients are all its own.
use mathlib.Core.Option
use dytech.Prelude.{
  subst, ℕ, ◌≡◌, ◌≢◌, refl, sym, ap, ◌∙◌, none, some, List, [], ◌∷◌, All, NotIn, Distinct, Option,
  if◌then◌else◌, ◌==◌, ==_iff, Bool-cases, Option-cases, ◌⊎◌, inl, inr,
}
use dytech.Core.Connection.{Connection, set_revents}
use dytech.Core.Poller.{ConnectionPtr, Objects, Ready, put, set_revents_at, poll_loop}
use dytech.Core.Looper.{Looper, start_all, run_round}
use dytech.Core.Looper.Invariant.{put_self, put_ne}
use dytech.Core.Looper.Round.{pointers}
use dytech.Core.Looper.Clients.{Handler, client_callbacks}
use dytech.Core.Looper.Clients.Reactor.{
  Hangs, IsReactor, IsReported, Registers, Keeps, outcome, put-IsReactor, start-IsStarted,
}

-- The events that are reported for a connection.
unfoldable pub events_of : ConnectionPtr → List Ready → Option ℕ
events_of q [] = none
events_of q ((p, events) ∷ ready) = if p == q then some events else events_of q ready

-- The connections, where each that is reported is changed by itself.
unfoldable pub applied :
    (ℕ → Option Connection → Option Connection) → List Ready → Objects → Objects
unfolding events_of
applied f ready objects q = elim (events_of q ready) [
  | none ↦ objects q
  | some events ↦ f events (objects q)
]

events_of-NotIn :
    (ready : List Ready) (p : ConnectionPtr) → NotIn p (pointers ready) → events_of p ready ≡ none
unfolding events_of
events_of-NotIn [] p h = refl
events_of-NotIn ((q, events) ∷ ready) p h = elim (Bool-cases (q == p)) [
  | inl same ↦ absurd (h.0 (sym ((==_iff q p).0 same)))
  | inr differs ↦ rw differs (events_of-NotIn ready p h.1)
]

module _ (f : ℕ → Option Connection → Option Connection) (ready : List Ready) (objects : Objects)
    (q : ConnectionPtr) where
  applied-none : events_of q ready ≡ none → applied f ready objects q ≡ objects q
  unfolding applied
  applied-none e = rw (e, applied)

  applied-some :
      (events : ℕ)
      → events_of q ready ≡ some events
      → applied f ready objects q ≡ f events (objects q)
  unfolding applied
  applied-some events e = rw (e, applied)

-- The first connection is changed, and then the others are.
applied-put :
    (f : ℕ → Option Connection → Option Connection) (p : ConnectionPtr) (events : ℕ)
    (ready : List Ready) (objects objects' : Objects)
    → NotIn p (pointers ready)
    → objects' p ≡ f events (objects p)
    → ((q : ConnectionPtr) → q ≢ p → objects' q ≡ objects q)
    → (q : ConnectionPtr) → applied f ready objects' q ≡ applied f ((p, events) ∷ ready) objects q
unfolding events_of
applied-put f p events ready objects objects' out at others q = elim (Bool-cases (p == q)) [
  | inl same ↦
      subst (λ q. applied f ready objects' q ≡ applied f ((p, events) ∷ ready) objects q)
        ((==_iff p q).0 same)
        (applied-none f ready objects' p (events_of-NotIn ready p out)
          ∙ at
          ∙ sym (applied-some f ((p, events) ∷ ready) objects p events (rw ((==_iff p p).1 refl))))
  | inr differs ↦
      let other = others q (λ e. cc ((==_iff p q).1 (sym e))) in
      elim (Option-cases (events_of q ready)) [
        | inl missing ↦
            applied-none f ready objects' q missing
            ∙ other
            ∙ sym (applied-none f ((p, events) ∷ ready) objects q (rw differs missing))
        | inr (events', found) ↦
            applied-some f ready objects' q events' found
            ∙ ap (f events') other
            ∙ sym (applied-some f ((p, events) ∷ ready) objects q events' (rw differs found))
      ]
]

poll_loop-applied :
    (ready : List Ready) (l : Looper)
    → IsReactor l
    → Distinct (pointers ready)
    → All (IsReported l) (pointers ready)
    → (objects : Objects) × (poll_loop ready l.objects ≡ some (pointers ready, objects))
      × IsReactor (record l { objects = objects })
      × ((q : ConnectionPtr)
          → objects q
            ≡ applied (λ events. Option.map (λ c. set_revents c events)) ready l.objects q)
unfolding poll_loop set_revents_at set_revents events_of
poll_loop-applied [] l v d h = (l.objects, refl, v, λ q. sym (applied-none _ [] l.objects q refl))
poll_loop-applied ((p, events) ∷ ready) l v d ((fd, reg), h) =
    let (c, f, found, called) = v.callable fd p reg in
    let objects = put l.objects p (some (set_revents c events)) in
    let v' = put-IsReactor l p c (set_revents c events) v found refl refl in
    let (objects', e, v'', same) =
      poll_loop-applied ready (record l { objects = objects }) v' d.1 h in
    (
      objects',
      rw (found, set_revents_at, e, poll_loop),
      v'',
      λ q.
          same q
          ∙ applied-put (λ events. Option.map (λ c. set_revents c events)) p events ready l.objects
              objects d.0 (put_self l.objects p _ ∙ rw found) (λ q ne. put_ne l.objects p q _ ne) q,
    )

-- The others may still be reported when a function has run.
still-IsReported :
    (l l' : Looper) (p : ConnectionPtr) (ps : List ConnectionPtr)
    → ((q : ConnectionPtr) → q ≢ p → IsReported l q → IsReported l' q)
    → NotIn p ps
    → All (IsReported l) ps
    → All (IsReported l') ps
still-IsReported l l' p [] keeps out h = tt
still-IsReported l l' p (q ∷ ps) keeps out h =
    (keeps q (λ e. out.0 (sym e)) h.0, still-IsReported l l' p ps keeps out.1 h.1)

-- What a round makes of a connection that is reported with these events.
unfoldable pub round_outcome : Handler → ℕ → Option Connection → Option Connection
unfolding set_revents
round_outcome handler events o = outcome handler (Option.map (λ c. set_revents c events) o)

-- The function of one of these connections does not return.
abbrev pub Stuck : Handler → List ConnectionPtr → Objects → Type 0
Stuck handler [] objects = ⊥
Stuck handler (p ∷ ps) objects = Hangs handler objects p ⊎ Stuck handler ps objects

-- It stays so where these connections stay as they are.
Stuck-same :
    (handler : Handler) (ps : List ConnectionPtr) (objects objects' : Objects)
    → ((q : ConnectionPtr) → Hangs handler objects' q → Hangs handler objects q)
    → Stuck handler ps objects'
    → Stuck handler ps objects
Stuck-same handler [] objects objects' same h = h
Stuck-same handler (p ∷ ps) objects objects' same (inl h) = inl (same p h)
Stuck-same handler (p ∷ ps) objects objects' same (inr h) =
    inr (Stuck-same handler ps objects objects' same h)

Hangs-same :
    (handler : Handler) (objects objects' : Objects) (q : ConnectionPtr)
    → objects' q ≡ objects q
    → Hangs handler objects' q
    → Hangs handler objects q
Hangs-same handler objects objects' q e (c, f, found, called, hangs) =
    (c, f, sym e ∙ found, called, hangs)

-- The others were as they are before another function ran.
Stuck-before :
    (handler : Handler) (p : ConnectionPtr) (ps : List ConnectionPtr) (objects objects' : Objects)
    → ((q : ConnectionPtr) → q ≢ p → objects' q ≡ objects q)
    → NotIn p ps
    → Stuck handler ps objects'
    → Stuck handler ps objects
Stuck-before handler p [] objects objects' same out h = h
Stuck-before handler p (q ∷ ps) objects objects' same out (inl h) =
    inl (Hangs-same handler objects objects' q (same q (λ e. out.0 (sym e))) h)
Stuck-before handler p (q ∷ ps) objects objects' same out (inr h) =
    inr (Stuck-before handler p ps objects objects' same out.1 h)

-- The events are recorded in the connections that are reported.
abbrev pub recorded : ℕ → Option Connection → Option Connection
recorded events = Option.map (λ c. set_revents c events)

module _ (handler : Handler) (keeps : Keeps handler) where
  start_all-applied :
      (ready : List Ready) (l : Looper)
      → IsReactor l
      → Distinct (pointers ready)
      → All (IsReported l) (pointers ready)
      → ((l' : Looper) × (start_all (client_callbacks handler) (pointers ready) l
            ≡ some (pointers ready, l'))
          × IsReactor l'
          × Registers l l'
          × ((q : ConnectionPtr)
              → l'.objects q ≡ applied (λ events. outcome handler) ready l.objects q))
        ⊎ ((start_all (client_callbacks handler) (pointers ready) l ≡ none)
            × Stuck handler (pointers ready) l.objects)
  unfolding start_all events_of
  start_all-applied [] l v d h =
      inl (l, refl, v, (λ d q h. h), λ q. sym (applied-none _ [] l.objects q refl))
  start_all-applied ((p, events) ∷ ready) l v d h = elim (start-IsStarted handler keeps l p v h.0) [
    | inr (hangs, why) ↦ inr (rw (hangs, start_all), inl why)
    | inl (l', run, did) ↦
        elim (start_all-applied ready l' did.reactor d.1
          (still-IsReported l l' p (pointers ready) did.reported d.0 h.1)) [
            | inr (hangs, why) ↦ inr (
              rw (run, start_all, hangs, start_all),
              inr (
                  Stuck-before handler p (pointers ready) l.objects l'.objects did.elsewhere d.0
                    why),
            )
            | inl (l'', run', v'', known, same) ↦ inl (
              l'',
              rw (run, start_all, run', start_all),
              v'',
              (λ d q h. did.registers d q (known d q h)),
              λ q.
                  same q
                  ∙ applied-put (λ events. outcome handler) p events ready l.objects l'.objects d.0
                      did.handled did.elsewhere q,
            )
          ]
  ]

  applied-applied :
      (ready : List Ready) (objects objects' : Objects)
      → ((q : ConnectionPtr) → objects' q ≡ applied recorded ready objects q)
      → (q : ConnectionPtr)
      → applied (λ events. outcome handler) ready objects' q
        ≡ applied (round_outcome handler) ready objects q
  unfolding applied round_outcome
  applied-applied ready objects objects' same q = elim (Option-cases (events_of q ready)) [
    | inl e ↦ rw (e, applied) (same q ∙ rw (e, applied))
    | inr (events, e) ↦ rw (e, applied) (ap (outcome handler) (same q ∙ rw (e, applied)))
  ]

  -- A round comes to its end, or the loop hangs in one of the functions.
  pub run_round-IsReactor :
      (ready : List Ready) (l : Looper)
      → IsReactor l
      → Distinct (pointers ready)
      → All (IsReported l) (pointers ready)
      → ((l' : Looper) × (run_round (client_callbacks handler) ready l ≡ some (pointers ready, l'))
          × IsReactor l'
          × Registers l l'
          × ((q : ConnectionPtr)
              → l'.objects q ≡ applied (round_outcome handler) ready l.objects q))
        ⊎ ((run_round (client_callbacks handler) ready l ≡ none)
            × Stuck handler (pointers ready) (applied recorded ready l.objects))
  unfolding run_round
  run_round-IsReactor ready l v d h =
      let (objects, e, v', same) = poll_loop-applied ready l v d h in
      elim (start_all-applied ready (record l { objects = objects }) v' d h) [
        | inl (l', run, v'', known, same') ↦ inl (
          l',
          rw (e, run_round) run,
          v'',
          known,
          λ q. same' q ∙ applied-applied ready l.objects objects same q,
        )
        | inr (hangs, why) ↦ inr (
          rw (e, run_round) hangs,
          Stuck-same handler (pointers ready) (applied recorded ready l.objects) objects
              (λ q. Hangs-same handler (applied recorded ready l.objects) objects q (same q)) why,
        )
      ]
