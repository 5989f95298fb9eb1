-- ===== src/Core/Cache/Race.antt =====
-- `TryLoad` takes the lock as a shared one, so two threads may be in it at once. Here their reads
-- and writes of links come one by one, in any order; the copy of the content and the timestamp,
-- which touch no link, are left out.
pub mod Serial
pub mod Broken
use dytech.Prelude.{
  ℕ, ◌≡◌, ◌≢◌, inl, inr, refl, sym, ap, ◌∙◌, subst, Bool, true, false, Option, none, some, List, [],
  ◌∷◌, ◌++◌, arith, All, append_assoc,
}
use dytech.Core.Cache.{
  Ptr, Nodes, ◌>>=◌, get_prev, get_next, set_prev, set_next, update, detach, append_to_list_tail,
}

-- The statements of `Detach` and of `AppendToListTail`: `prev_->next_ = next_`,
-- `next_->prev_ = prev_`, `node_prev = tail_->prev_`, `node_prev->next_ = node_ptr`,
-- `tail_->prev_ = node_ptr`, `node_ptr->prev_ = node_prev` and `node_ptr->next_ = tail_`.
pub data Statement : Type 0 where
  skip_forward skip_backward read_last link_last link_tail link_back link_forward : Statement

-- A thread in `TryLoad` for the node that it found: its `node_prev`, and what it has still to do.
pub record Loader : Type 0 where
  pub node : Ptr
  pub node_prev : Ptr
  pub todo : List Statement

abbrev pub detaching : List Statement
detaching = skip_forward ∷ skip_backward ∷ []

abbrev pub appending : List Statement
appending = read_last ∷ link_last ∷ link_tail ∷ link_back ∷ link_forward ∷ []

abbrev pub loading : Ptr → Loader
loading p = record { node = p; node_prev = 0; todo = detaching ++ appending }

-- One statement, for the list that ends at `tail`: the thread's `node_prev` and the nodes.
unfoldable pub execute : Ptr → Statement → Ptr → Ptr → Nodes → Option (Ptr × Nodes)
execute tail skip_forward p last n = do
  before ← get_prev p n
  after ← get_next p n
  n ← set_next before after n
  some (last, n)
execute tail skip_backward p last n = do
  after ← get_next p n
  before ← get_prev p n
  n ← set_prev after before n
  some (last, n)
execute tail read_last p last n = do last ← get_prev tail n; some (last, n)
execute tail link_last p last n = do n ← set_next last p n; some (last, n)
execute tail link_tail p last n = do n ← set_prev tail p n; some (last, n)
execute tail link_back p last n = do n ← set_prev p last n; some (last, n)
execute tail link_forward p last n = do n ← set_next p tail n; some (last, n)

-- The next statement of a thread; a thread that is at its end does nothing.
unfoldable pub advance_at : Ptr → Ptr → Ptr → List Statement → Nodes → Option (Loader × Nodes)
unfolding execute
advance_at tail p last [] n = some (record { node = p; node_prev = last; todo = [] }, n)
advance_at tail p last (s ∷ todo) n = do
  (last, n) ← execute tail s p last n
  some (record { node = p; node_prev = last; todo = todo }, n)

abbrev pub advance : Ptr → Loader → Nodes → Option (Loader × Nodes)
advance tail t n = advance_at tail t.node t.node_prev t.todo n

-- Two threads under a schedule: `true` is a turn of the first one.
unfoldable pub interleave :
    Ptr → List Bool → Loader → Loader → Nodes → Option (Loader × Loader × Nodes)
unfolding advance_at
interleave tail [] t u n = some (t, u, n)
interleave tail (true ∷ turns) t u n = do (t, n) ← advance tail t n; interleave tail turns t u n
interleave tail (false ∷ turns) t u n = do (u, n) ← advance tail u n; interleave tail turns t u n

-- A thread that is let run alone.
unfoldable pub run_statements : Ptr → List Statement → Ptr → Ptr → Nodes → Option (Ptr × Nodes)
unfolding execute
run_statements tail [] p last n = some (last, n)
run_statements tail (s ∷ todo) p last n = do
  (last, n) ← execute tail s p last n
  run_statements tail todo p last n

pub detaching-detach :
    (tail p last : Ptr) (n : Nodes)
    → run_statements tail detaching p last n ≡ (detach p n >>= λ n. some (last, n))
unfolding run_statements detach get_prev get_next set_next set_prev
detaching-detach tail p last n = ground arith

pub appending-append_to_list_tail :
    (tail p last : Ptr) (n : Nodes)
    → run_statements tail appending p last n
      ≡ (get_prev tail n >>= λ last. append_to_list_tail tail p n >>= λ n. some (last, n))
unfolding run_statements append_to_list_tail get_prev get_next set_next set_prev
appending-append_to_list_tail tail p last n = ground arith

-- The turns of a thread with nothing in between.
abbrev pub turns_of : Bool → List Statement → List Bool
turns_of b [] = []
turns_of b (s ∷ todo) = b ∷ turns_of b todo

bind_assoc :
    {A B C : Type 0} (m : Option A) (f : A → Option B) (g : B → Option C)
    → ((m >>= f) >>= g) ≡ (m >>= λ a. f a >>= g)
bind_assoc none f g = refl
bind_assoc (some a) f g = refl

bind_ap :
    {A B : Type 0} (m : Option A) {f g : A → Option B}
    → ((a : A) → f a ≡ g a)
    → (m >>= f) ≡ (m >>= g)
bind_ap none e = refl
bind_ap (some a) e = e a

module _ (tail : Ptr) (rest : List Statement) (turns : List Bool) where
  pub interleave-first :
      (todo : List Statement) (p last : Ptr) (u : Loader) (n : Nodes)
      → interleave tail
          (turns_of true todo ++ turns)
          (record { node = p; node_prev = last; todo = todo ++ rest })
          u
          n
        ≡ (run_statements tail todo p last n >>= λ r.
            interleave tail turns (record { node = p; node_prev = r.0; todo = rest }) u r.1)
  unfolding interleave run_statements advance_at
  interleave-first [] p last u n = refl
  interleave-first (s ∷ todo) p last u n =
      bind_assoc (execute tail s p last n) _ _
      ∙ bind_ap (execute tail s p last n) (λ r. interleave-first todo p (r.0) u (r.1))
      ∙ sym (bind_assoc (execute tail s p last n) _ _)

  pub interleave-second :
      (todo : List Statement) (t : Loader) (p last : Ptr) (n : Nodes)
      → interleave tail
          (turns_of false todo ++ turns)
          t
          (record { node = p; node_prev = last; todo = todo ++ rest })
          n
        ≡ (run_statements tail todo p last n >>= λ r.
            interleave tail turns t (record { node = p; node_prev = r.0; todo = rest }) r.1)
  unfolding interleave run_statements advance_at
  interleave-second [] t p last n = refl
  interleave-second (s ∷ todo) t p last n =
      bind_assoc (execute tail s p last n) _ _
      ∙ bind_ap (execute tail s p last n) (λ r. interleave-second todo t p (r.0) (r.1))
      ∙ sym (bind_assoc (execute tail s p last n) _ _)
