-- ===== src/Core/Cache/Race/Broken.antt =====
-- Two loads of the same resource at once.
use dytech.Prelude.{
  ◌≡◌, ◌⊎◌, inl, inr, refl, sym, ap, ◌∙◌, subst, Bool, true, false, some, List, [], ◌∷◌, ◌++◌,
  NotIn, Bool-cases, ==_iff, ◌==◌, arith,
}
use dytech.Core.Cache.{Ptr, Nodes, update}
use dytech.Core.Cache.Links.{
  Linked, relink, detach-eq, append-eq, get_prev-alive, Linked-Around, Linked-last, update_ne,
}
use dytech.Core.Cache.Repr.{In, In-split}
use dytech.Core.Cache.Insert.{update_at}
use dytech.Core.Cache.Race.{Loader, loading, interleave, turns_of, detaching, appending}
use dytech.Core.Cache.Race.Serial.{
  ended, detached, first-detach, second-detach, first-append, second-append,
}

In-or-NotIn : (p : Ptr) (l : List Ptr) → In p l ⊎ NotIn p l
In-or-NotIn p [] = inr tt
In-or-NotIn p (q ∷ l) = elim (Bool-cases (p == q)) [
  | inl same ↦ inl (inl ((==_iff p q).0 same))
  | inr differs ↦ elim (In-or-NotIn p l) [
    | inl i ↦ inl (inr i)
    | inr out ↦ inr ((λ e. ground arith), out)
  ]
]

-- Both threads detach, then both append.
abbrev crossing : List Bool
crossing =
    turns_of true detaching
    ++ (turns_of false detaching ++ (turns_of true appending ++ turns_of false appending))

module _ (n : Nodes) (head tail p : Ptr) (xs ys : List Ptr)
    (l : Linked n head tail (xs ++ p ∷ ys)) where
  crossed :
      (t : Loader) × (u : Loader) × (n' : Nodes) × (interleave tail crossing
          (loading p)
          (loading p)
          n
        ≡ some (t, u, n'))
      × (t.todo ≡ [])
      × (u.todo ≡ [])
      × (n'.prev p ≡ p)
      × (n'.prev tail ≡ p)
  unfolding interleave update
  crossed =
      let around = Linked-Around n head tail p xs ys l in
      let a = n.prev p in
      let b = n.next p in
      let n1 = relink n (update n.next a b) (update n.prev b a) in
      let same_prev : n1.prev p ≡ a = update_ne n.prev a around.next_other in
      let same_next : n1.next p ≡ b = update_ne n.next b around.prev_other in
      let n2 = relink n (update n1.next a b) (update n1.prev b a) in
      let z = n2.prev tail in
      let n3 = relink n (update (update n2.next z p) p tail) (update (update n2.prev tail p) p z) in
      let n4 = relink n (update (update n3.next p p) p tail) (update (update n3.prev tail p) p p) in
      let live_z : n.alive z ≡ true = ground (arith, around.live_prev, around.live_last) in
      let last : n3.prev tail ≡ p =
        update_ne (update n2.prev tail p) z around.not_tail ∙ update_at n2.prev tail p in
      (
        ended p z,
        ended p p,
        n4,
        first-detach tail
              (turns_of false detaching ++ (turns_of true appending ++ turns_of false appending)) n
              p 0 (loading p)
              (detach-eq n p b refl around.live around.live_prev around.live_next around.prev_other)
            ∙ second-detach tail (turns_of true appending ++ turns_of false appending) n1
                (detached p 0) p 0
                (detach-eq n1 p b same_next around.live (ap n.alive same_prev ∙ around.live_prev)
                    around.live_next (λ e. around.prev_other (sym same_prev ∙ e))
                  ∙ ap (λ v. some (relink n (update n1.next v b) (update n1.prev b v))) same_prev)
            ∙ first-append tail (turns_of false appending) n2 p 0 (detached p 0)
                (get_prev-alive tail n2 around.live_tail)
                (append-eq n2 tail p around.live_tail live_z around.live)
            ∙ second-append tail [] n3 (ended p z) p 0
                (get_prev-alive tail n3 around.live_tail ∙ ap some last)
                (append-eq n3 tail p around.live_tail (ap n.alive last ∙ around.live) around.live
                  ∙ ap
                      (λ v. some (
                        relink n (update (update n3.next v p) p tail)
                          (update (update n3.prev tail p) p v)))
                      last),
        refl,
        refl,
        update_at (update n3.prev tail p) p p,
        update_ne (update n3.prev tail p) p around.not_tail ∙ update_at n3.prev tail p,
      )

  -- A node that is linked to itself is in no well-linked list, and no such list ends at it.
  not-Linked :
      (n' : Nodes) → n'.prev p ≡ p → n'.prev tail ≡ p → (qs : List Ptr) → Linked n' head tail qs → ⊥
  not-Linked n' itself ends qs l' =
      let around = Linked-Around n head tail p xs ys l in
      elim (In-or-NotIn p qs) [
        | inl i ↦
            let (us, vs, e) = In-split p qs i in
            (Linked-Around n' head tail p us vs (subst (Linked n' head tail) e l')).prev_other
              itself
        | inr out ↦ Linked-last l' p around.not_head out ends
      ]

  -- Two threads that load the same resource at once can leave the list in pieces, without a fault:
  -- where both detach the node before either appends it, the node is linked to itself afterwards, and
  -- no list of nodes is linked between the ends of the cache any more.
  pub interleave-broken :
      (turns : List Bool) × (t : Loader) × (u : Loader) × (n' : Nodes) × (interleave tail turns
          (loading p)
          (loading p)
          n
        ≡ some (t, u, n'))
      × (t.todo ≡ [])
      × (u.todo ≡ [])
      × (n'.prev p ≡ p)
      × ((qs : List Ptr) → Linked n' head tail qs → ⊥)
  interleave-broken =
      let (t, u, n', run, done, done', itself, ends) = crossed in
      (crossing, t, u, n', run, done, done', itself, not-Linked n' itself ends)
