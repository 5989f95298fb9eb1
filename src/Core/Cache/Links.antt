-- ===== src/Core/Cache/Links.antt =====
-- The doubly linked list between `head` and `tail`: taking a node out and putting one in at the
-- end.
mod Chains
pub use dytech.Prelude.{NotIn, Distinct}
pub use dytech.Core.Cache.Links.Chains.{
  NotIn-append, NotIn-join, Chain-frame, All-remove, Distinct-remove,
}
use dytech.Core.Cache.Links.Chains.{
  Chain, Chain-detach, prev_ne, Chain-concat, prev-All, next-Chain, Distinct-insert, All-insert,
}
use dytech.Prelude.{
  ◌≡◌, ◌≢◌, refl, sym, ap, ◌∙◌, subst, true, Option, some, List, [], ◌∷◌, ◌++◌, arith, All,
  append_assoc,
}
use dytech.Core.Cache.{
  Ptr, Nodes, ◌>>=◌, get_prev, get_next, set_prev, set_next, update, detach, append_to_list_tail,
}

-- The nodes of the list `ps` between `head` and `tail` exist, are distinct, and are linked in this
-- order.
pub record Linked (n : Nodes) (head tail : Ptr) (ps : List Ptr) : Type 0 where
  pub chain : Chain n.next n.prev head (ps ++ tail ∷ [])
  pub exist : All (λ q. n.alive q ≡ true) (head ∷ (ps ++ tail ∷ []))
  pub distinct : Distinct (head ∷ (ps ++ tail ∷ []))

-- The same nodes under other links.
abbrev pub relink : Nodes → (Ptr → Ptr) → (Ptr → Ptr) → Nodes
relink n next prev = record n { next = next; prev = prev }

pub update_ne : {V : Type 0} (f : Ptr → V) {p q : Ptr} (v : V) → p ≢ q → update f p v q ≡ f q
unfolding update
update_ne f v ne = ground arith

pub get_prev-alive : (p : Ptr) (n : Nodes) → n.alive p ≡ true → get_prev p n ≡ some (n.prev p)
unfolding get_prev
get_prev-alive p n a = simp a

pub get_next-alive : (p : Ptr) (n : Nodes) → n.alive p ≡ true → get_next p n ≡ some (n.next p)
unfolding get_next
get_next-alive p n a = simp a

pub set_next-alive :
    (p q : Ptr) (n : Nodes)
    → n.alive p ≡ true
    → set_next p q n ≡ some (relink n (update n.next p q) n.prev)
unfolding set_next
set_next-alive p q n a = simp a

pub set_prev-alive :
    (p q : Ptr) (n : Nodes)
    → n.alive p ≡ true
    → set_prev p q n ≡ some (relink n n.next (update n.prev p q))
unfolding set_prev
set_prev-alive p q n a = simp a

pub bind-some :
    {A B : Type 0} {m : Option A} {a : A} (f : A → Option B) → m ≡ some a → (m >>= f) ≡ f a
bind-some f e = ap (λ m. m >>= f) e

pub detach-eq :
    (n : Nodes) (p b : Ptr)
    → n.next p ≡ b
    → n.alive p ≡ true
    → n.alive (n.prev p) ≡ true
    → n.alive b ≡ true
    → n.prev p ≢ p
    → detach p n ≡ some (relink n (update n.next (n.prev p) b) (update n.prev b (n.prev p)))
unfolding detach
detach-eq n p b e a a' a'' ne =
    let next = update n.next (n.prev p) (n.next p) in
    let m = relink n next n.prev in
    let kept : next p ≡ b = update_ne n.next (n.next p) ne ∙ e in
    bind-some _ (get_prev-alive p n a)
    ∙ bind-some _ (get_next-alive p n a)
    ∙ bind-some _ (set_next-alive (n.prev p) (n.next p) n a')
    ∙ bind-some _ (get_next-alive p m a)
    ∙ bind-some _ (get_prev-alive p m a)
    ∙ set_prev-alive (next p) (n.prev p) m (ap n.alive kept ∙ a'')
    ∙ ap (λ u. some (relink n (update n.next (n.prev p) u) (update n.prev (next p) (n.prev p)))) e
    ∙ ap (λ v. some (relink n (update n.next (n.prev p) b) (update n.prev v (n.prev p)))) kept

pub append-eq :
    (n : Nodes) (t p : Ptr)
    → n.alive t ≡ true
    → n.alive (n.prev t) ≡ true
    → n.alive p ≡ true
    → append_to_list_tail t p n
      ≡ some (
          relink n
            (update (update n.next (n.prev t) p) p t)
            (update (update n.prev t p) p (n.prev t)))
unfolding append_to_list_tail
append-eq n t p a a' a'' = ground arith

snoc-cons : (ys : List Ptr) (t : Ptr) → (b : Ptr) × (rest : List Ptr) × (ys ++ t ∷ [] ≡ b ∷ rest)
snoc-cons [] t = (t, [], refl)
snoc-cons (y ∷ ys) t = (y, ys ++ t ∷ [], refl)

-- `Detach` takes the node out of the list and changes nothing but links.
pub detach-Linked :
    (n : Nodes) (head tail p : Ptr) (xs ys : List Ptr)
    → Linked n head tail (xs ++ p ∷ ys)
    → (next : Ptr → Ptr) × (prev : Ptr → Ptr) × (detach p n ≡ some (relink n next prev))
      × Linked (relink n next prev) head tail (xs ++ ys)
      × NotIn p (head ∷ ((xs ++ ys) ++ tail ∷ []))
detach-Linked n head tail p xs ys l =
    let (b, rest, e) = snoc-cons ys tail in
    let whole : (xs ++ p ∷ ys) ++ tail ∷ [] ≡ xs ++ p ∷ b ∷ rest =
      append_assoc xs (p ∷ ys) (tail ∷ []) ∙ ap (λ z. xs ++ p ∷ z) e in
    let left : (xs ++ ys) ++ tail ∷ [] ≡ xs ++ b ∷ rest =
      append_assoc xs ys (tail ∷ []) ∙ ap (λ z. xs ++ z) e in
    let chain = subst (Chain n.next n.prev head) whole l.chain in
    let exist : All (λ q. n.alive q ≡ true) (head ∷ (xs ++ p ∷ b ∷ rest)) =
      subst (λ z. All (λ q. n.alive q ≡ true) (head ∷ z)) whole l.exist in
    let distinct : Distinct (head ∷ (xs ++ p ∷ b ∷ rest)) =
      subst (λ z. Distinct (head ∷ z)) whole l.distinct in
    let (live, lives) = All-remove (λ q. n.alive q ≡ true) (head ∷ xs) p (b ∷ rest) exist in
    let live_b = (All-remove (λ q. n.alive q ≡ true) (head ∷ xs) b rest lives).0 in
    let (out, distinct') = Distinct-remove (head ∷ xs) p (b ∷ rest) distinct in
    let live_prev =
      prev-All n.next n.prev (λ q. n.alive q ≡ true) p head xs (b ∷ rest) chain exist.0 exist.1 in
    let ne =
      prev_ne n.next n.prev p p head xs (b ∷ rest) chain out.0
        (NotIn-append p xs (b ∷ rest) out.1).0 in
    let to = next-Chain n.next n.prev p b head xs rest chain in
    (
      update n.next (n.prev p) b,
      update n.prev b (n.prev p),
      detach-eq n p b to live live_prev live_b ne,
      record {
        chain =
            subst (Chain (update n.next (n.prev p) b) (update n.prev b (n.prev p)) head) (sym left)
              (Chain-detach n.next n.prev p b head xs rest chain distinct);
        exist = subst (λ z. All (λ q. n.alive q ≡ true) (head ∷ z)) (sym left) lives;
        distinct = subst (λ z. Distinct (head ∷ z)) (sym left) distinct';
      },
      subst (λ z. NotIn p (head ∷ z)) (sym left) out,
    )

-- `AppendToListTail` puts a node that is not in the list at its end.
pub append-Linked :
    (n : Nodes) (head tail p : Ptr) (ps : List Ptr)
    → Linked n head tail ps
    → NotIn p (head ∷ (ps ++ tail ∷ []))
    → n.alive p ≡ true
    → (next : Ptr → Ptr) × (prev : Ptr → Ptr) × (append_to_list_tail tail p n
        ≡ some (relink n next prev))
      × Linked (relink n next prev) head tail (ps ++ p ∷ [])
append-Linked n head tail p ps l out live =
    let live_tail = (All-remove (λ q. n.alive q ≡ true) (head ∷ ps) tail [] l.exist).0 in
    let live_prev =
      prev-All n.next n.prev (λ q. n.alive q ≡ true) tail head ps [] l.chain l.exist.0 l.exist.1 in
    let whole : (ps ++ p ∷ []) ++ tail ∷ [] ≡ ps ++ p ∷ tail ∷ [] =
      append_assoc ps (p ∷ []) (tail ∷ []) in
    let next = update (update n.next (n.prev tail) p) p tail in
    let prev = update (update n.prev tail p) p (n.prev tail) in
    (
      next,
      prev,
      append-eq n tail p live_tail live_prev live,
      record {
        chain =
            subst (Chain next prev head) (sym whole)
              (Chain-concat n.next n.prev p tail head ps l.chain l.distinct out);
        exist =
            subst (λ z. All (λ q. n.alive q ≡ true) (head ∷ z)) (sym whole)
              (All-insert (λ q. n.alive q ≡ true) (head ∷ ps) p (tail ∷ []) live l.exist);
        distinct =
            subst (λ z. Distinct (head ∷ z)) (sym whole)
              (Distinct-insert (head ∷ ps) p (tail ∷ []) out l.distinct);
      },
    )

pub Linked-alive :
    (n : Nodes) (head tail p : Ptr) (xs ys : List Ptr)
    → Linked n head tail (xs ++ p ∷ ys)
    → n.alive p ≡ true
Linked-alive n head tail p xs ys l =
    let whole = append_assoc xs (p ∷ ys) (tail ∷ []) in
    let exist = subst (λ z. All (λ q. n.alive q ≡ true) (head ∷ z)) whole l.exist in
    (All-remove (λ q. n.alive q ≡ true) (head ∷ xs) p (ys ++ tail ∷ []) exist).0

-- What a node of the list is linked to.
pub record Around (n : Nodes) (head tail p : Ptr) : Type 0 where
  pub live : n.alive p ≡ true
  pub live_prev : n.alive (n.prev p) ≡ true
  pub live_next : n.alive (n.next p) ≡ true
  pub live_tail : n.alive tail ≡ true
  pub live_last : n.alive (n.prev tail) ≡ true
  pub prev_other : n.prev p ≢ p
  pub next_other : n.next p ≢ p
  pub not_head : p ≢ head
  pub not_tail : p ≢ tail

pub Linked-Around :
    (n : Nodes) (head tail p : Ptr) (xs ys : List Ptr)
    → Linked n head tail (xs ++ p ∷ ys)
    → Around n head tail p
Linked-Around n head tail p xs ys l =
    let (b, rest, e) = snoc-cons ys tail in
    let whole : (xs ++ p ∷ ys) ++ tail ∷ [] ≡ xs ++ p ∷ b ∷ rest =
      append_assoc xs (p ∷ ys) (tail ∷ []) ∙ ap (λ z. xs ++ p ∷ z) e in
    let chain = subst (Chain n.next n.prev head) whole l.chain in
    let exist : All (λ q. n.alive q ≡ true) (head ∷ (xs ++ p ∷ b ∷ rest)) =
      subst (λ z. All (λ q. n.alive q ≡ true) (head ∷ z)) whole l.exist in
    let distinct : Distinct (head ∷ (xs ++ p ∷ b ∷ rest)) =
      subst (λ z. Distinct (head ∷ z)) whole l.distinct in
    let (live, lives) = All-remove (λ q. n.alive q ≡ true) (head ∷ xs) p (b ∷ rest) exist in
    let live_b = (All-remove (λ q. n.alive q ≡ true) (head ∷ xs) b rest lives).0 in
    let (out, distinct') = Distinct-remove (head ∷ xs) p (b ∷ rest) distinct in
    let to = next-Chain n.next n.prev p b head xs rest chain in
    let beside = NotIn-append p xs (b ∷ rest) out.1 in
    let whole' = append_assoc xs (p ∷ ys) (tail ∷ []) in
    let distinct'' : Distinct (head ∷ (xs ++ p ∷ (ys ++ tail ∷ []))) =
      subst (λ z. Distinct (head ∷ z)) whole' l.distinct in
    let apart = (Distinct-remove (head ∷ xs) p (ys ++ tail ∷ []) distinct'').0 in
    let ahead = (NotIn-append p xs (ys ++ tail ∷ []) apart.1).1 in
    record {
      live = live;
      live_prev =
          prev-All n.next n.prev (λ q. n.alive q ≡ true) p head xs (b ∷ rest) chain exist.0 exist.1;
      live_next = ap n.alive to ∙ live_b;
      live_tail = (All-remove (λ q. n.alive q ≡ true) (head ∷ (xs ++ p ∷ ys)) tail [] l.exist).0;
      live_last =
          prev-All n.next n.prev (λ q. n.alive q ≡ true) tail head (xs ++ p ∷ ys) [] l.chain
            l.exist.0 l.exist.1;
      prev_other = prev_ne n.next n.prev p p head xs (b ∷ rest) chain out.0 beside.0;
      next_other = λ same. beside.1.0 (sym same ∙ to);
      not_head = out.0;
      not_tail = (NotIn-append p ys (tail ∷ []) ahead).1.0;
    }

-- The node before `tail` is the head or one of the list.
pub Linked-last :
    {n : Nodes} {head tail : Ptr} {ps : List Ptr}
    → Linked n head tail ps
    → (p : Ptr) → p ≢ head
    → NotIn p ps
    → n.prev tail ≢ p
Linked-last {n} {head} {tail} {ps} l p ne out =
    prev_ne n.next n.prev p tail head ps [] l.chain ne out
