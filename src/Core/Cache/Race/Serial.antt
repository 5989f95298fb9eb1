-- ===== src/Core/Cache/Race/Serial.antt =====
-- Blocks of statements of the two threads, one behind the other.
use dytech.Prelude.{◌≡◌, ap, ◌∙◌, true, false, Bool, some, List, [], ◌∷◌, ◌++◌, subst}
use dytech.Core.Cache.{Ptr, Nodes, ◌>>=◌, get_prev, detach, append_to_list_tail}
use dytech.Core.Cache.Links.{
  Linked, relink, detach-Linked, append-Linked, Linked-alive, get_prev-alive, All-remove,
}
use dytech.Core.Cache.Race.{
  Loader, loading, interleave, turns_of, detaching, appending, detaching-detach,
  appending-append_to_list_tail, interleave-first, interleave-second, run_statements,
}

-- A thread at its end.
abbrev pub ended : Ptr → Ptr → Loader
ended p last = record { node = p; node_prev = last; todo = [] }

-- A thread that has still to append its node.
abbrev pub detached : Ptr → Ptr → Loader
detached p last = record { node = p; node_prev = last; todo = appending }

ran_detaching :
    (tail p last : Ptr) (n : Nodes) {n' : Nodes}
    → detach p n ≡ some n'
    → run_statements tail detaching p last n ≡ some (last, n')
ran_detaching tail p last n e =
    detaching-detach tail p last n ∙ ap (λ m. m >>= λ n. some (last, n)) e

ran_appending :
    (tail p last : Ptr) (n : Nodes) {z : Ptr} {n' : Nodes}
    → get_prev tail n ≡ some z
    → append_to_list_tail tail p n ≡ some n'
    → run_statements tail appending p last n ≡ some (z, n')
ran_appending tail p last n e f = appending-append_to_list_tail tail p last n ∙ rw (e, f)

module _ (tail : Ptr) (turns : List Bool) (n : Nodes) {n' : Nodes} where
  pub first-detach :
      (p last : Ptr) (u : Loader)
      → detach p n ≡ some n'
      → interleave tail
          (turns_of true detaching ++ turns)
          (record { node = p; node_prev = last; todo = detaching ++ appending })
          u
          n
        ≡ interleave tail turns (detached p last) u n'
  first-detach p last u e =
      interleave-first tail appending turns detaching p last u n
      ∙ ap (λ m. m >>= λ r. interleave tail turns (detached p (r.0)) u r.1)
          (ran_detaching tail p last n e)

  pub second-detach :
      (t : Loader) (p last : Ptr)
      → detach p n ≡ some n'
      → interleave tail
          (turns_of false detaching ++ turns)
          t
          (record { node = p; node_prev = last; todo = detaching ++ appending })
          n
        ≡ interleave tail turns t (detached p last) n'
  second-detach t p last e =
      interleave-second tail appending turns detaching t p last n
      ∙ ap (λ m. m >>= λ r. interleave tail turns t (detached p (r.0)) r.1)
          (ran_detaching tail p last n e)

  pub first-append :
      (p last : Ptr) (u : Loader) {z : Ptr}
      → get_prev tail n ≡ some z
      → append_to_list_tail tail p n ≡ some n'
      → interleave tail (turns_of true appending ++ turns) (detached p last) u n
        ≡ interleave tail turns (ended p z) u n'
  first-append p last u e f =
      interleave-first tail [] turns appending p last u n
      ∙ ap (λ m. m >>= λ r. interleave tail turns (ended p (r.0)) u r.1)
          (ran_appending tail p last n e f)

  pub second-append :
      (t : Loader) (p last : Ptr) {z : Ptr}
      → get_prev tail n ≡ some z
      → append_to_list_tail tail p n ≡ some n'
      → interleave tail (turns_of false appending ++ turns) t (detached p last) n
        ≡ interleave tail turns t (ended p z) n'
  second-append t p last e f =
      interleave-second tail [] turns appending t p last n
      ∙ ap (λ m. m >>= λ r. interleave tail turns t (ended p (r.0)) r.1)
          (ran_appending tail p last n e f)

-- A node of the list, detached and appended.
moved :
    (n : Nodes) (head tail p : Ptr) (xs ys : List Ptr)
    → Linked n head tail (xs ++ p ∷ ys)
    → (z : Ptr) × (n' : Nodes) × (n'' : Nodes) × (detach p n ≡ some n')
      × (get_prev tail n' ≡ some z)
      × (append_to_list_tail tail p n' ≡ some n'')
      × Linked n'' head tail ((xs ++ ys) ++ p ∷ [])
moved n head tail p xs ys l =
    let (next, prev, gone, l', out) = detach-Linked n head tail p xs ys l in
    let n' = relink n next prev in
    let (next', prev', put, l'') =
      append-Linked n' head tail p (xs ++ ys) l' out (Linked-alive n head tail p xs ys l) in
    let live = (All-remove (λ q. n.alive q ≡ true) (head ∷ (xs ++ ys)) tail [] l'.exist).0 in
    (prev tail, n', relink n' next' prev', gone, get_prev-alive tail n' live, put, l'')

-- Where the first thread is through before the second one starts, the list ends up with the two
-- nodes as its most recently used ones, in this order, and well linked.
interleave-serial :
    (n : Nodes) (head tail p q : Ptr) (xs ys us vs : List Ptr)
    → Linked n head tail (xs ++ p ∷ ys)
    → (xs ++ ys) ++ p ∷ [] ≡ us ++ q ∷ vs
    → (t : Loader) × (u : Loader) × (n' : Nodes) × (interleave tail
          (turns_of true (detaching ++ appending) ++ turns_of false (detaching ++ appending))
          (loading p)
          (loading q)
          n
        ≡ some (t, u, n'))
      × Linked n' head tail ((us ++ vs) ++ q ∷ [])
unfolding interleave
interleave-serial n head tail p q xs ys us vs l e =
    let (z, n1, n2, gone, last, put, l') = moved n head tail p xs ys l in
    let (z', n3, n4, gone', last', put', l'') =
      moved n2 head tail q us vs (subst (Linked n2 head tail) e l') in
    let second = turns_of false (detaching ++ appending) in
    (
      ended p z,
      ended q z',
      n4,
      first-detach tail (turns_of true appending ++ second) n p 0 (loading q) gone
          ∙ first-append tail second n1 p 0 (loading q) last put
          ∙ second-detach tail (turns_of false appending ++ []) n2 (ended p z) q 0 gone'
          ∙ second-append tail [] n3 (ended p z) q 0 last' put',
      l'',
    )
