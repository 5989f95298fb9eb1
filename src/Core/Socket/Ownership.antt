-- ===== src/Core/Socket/Ownership.antt =====
-- How often a descriptor is closed.
use dytech.Prelude.{
  ℕ, ◌≡◌, refl, ap, ◌∙◌, Option, none, some, List, [], ◌∷◌, ◌++◌, append_assoc, append-nil,
}
use dytech.Core.Socket.{Socket, close_if_open, move_construct, move_assign, destroy}

-- The descriptor that a socket owns, if it has one.
abbrev pub owned : Option ℕ → List ℕ
owned none = []
owned (some fd) = fd ∷ []

close_if_open-owned :
    (closed : List ℕ) (fd : Option ℕ) → close_if_open closed fd ≡ closed ++ owned fd
unfolding close_if_open
close_if_open-owned closed none = rw append-nil
close_if_open-owned closed (some fd) = refl

-- A socket that was moved into a new one closes its descriptor once, when the new one is destroyed,
-- and nothing when it is destroyed itself.
destroy-move_construct :
    (closed : List ℕ) (other : Socket)
    → let (this, other') = move_construct other in
      destroy (destroy closed this) other' ≡ closed ++ owned other.fd
unfolding destroy move_construct close_if_open
destroy-move_construct closed other = close_if_open-owned closed other.fd

-- After a move assignment the other socket still has the descriptor that the assignment closed:
-- once both are destroyed, that descriptor was closed twice, and the moved one once.
pub destroy-move_assign :
    (closed : List ℕ) (this other : Socket)
    → let (closed', this', other') = move_assign closed this other in
      destroy (destroy closed' this') other'
      ≡ closed ++ (owned this.fd ++ (owned other.fd ++ owned this.fd))
unfolding destroy move_assign
destroy-move_assign closed this other =
    close_if_open-owned _ this.fd
    ∙ ap (λ z. z ++ owned this.fd)
        (close_if_open-owned _ other.fd
          ∙ ap (λ z. z ++ owned other.fd) (close_if_open-owned closed this.fd))
    ∙ simp append_assoc
