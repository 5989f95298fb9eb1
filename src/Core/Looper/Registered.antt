-- ===== src/Core/Looper/Registered.antt =====
-- The registered descriptors, the map of connections and the connections that exist, one by one.
use dytech.Prelude.{
  ℕ, ◌≡◌, ◌≢◌, refl, false, Option, none, some, List, [], ◌∷◌, arith, ◌==◌, if◌then◌else◌,
}
use dytech.Core.Connection.{Connection}
use dytech.Core.Poller.{ConnectionPtr, Objects, Registration, put, is_registered, unregister}
use dytech.Core.Looper.{find_connection, erase_connection}

-- The pointer that a descriptor is registered with.
unfoldable pub registered_ptr : ℕ → List Registration → Option ConnectionPtr
registered_ptr fd [] = none
registered_ptr fd (r ∷ rs) = if r.fd == fd then some r.ptr else registered_ptr fd rs

pub registered_ptr-unregister :
    (fd d : ℕ) (rs : List Registration)
    → registered_ptr fd (unregister d rs) ≡ (if fd == d then none else registered_ptr fd rs)
unfolding registered_ptr unregister
registered_ptr-unregister fd d [] = ground arith
registered_ptr-unregister fd d (r ∷ rs) = ground (arith, registered_ptr-unregister fd d rs)

pub find_connection-erase_connection :
    (fd d : ℕ) (m : List (ℕ × ConnectionPtr))
    → find_connection fd (erase_connection d m) ≡ (if fd == d then none else find_connection fd m)
unfolding find_connection erase_connection
find_connection-erase_connection fd d [] = ground arith
find_connection-erase_connection fd d ((e, p) ∷ m) =
    ground (arith, find_connection-erase_connection fd d m)

pub is_registered-registered_ptr :
    (fd : ℕ) (rs : List Registration) → registered_ptr fd rs ≡ none → is_registered fd rs ≡ false
unfolding registered_ptr is_registered
is_registered-registered_ptr fd [] h = refl
is_registered-registered_ptr fd (r ∷ rs) h = ground (arith, is_registered-registered_ptr fd rs)

pub none_ne_some : {A : Type 0} {a : A} → none ≡ some a → ⊥
none_ne_some e = cc

pub put_self :
    (objects : Objects) (p : ConnectionPtr) (c : Option Connection) → put objects p c p ≡ c
unfolding put
put_self objects p c = ground arith

pub put_ne :
    (objects : Objects) (p q : ConnectionPtr) (c : Option Connection)
    → q ≢ p
    → put objects p c q ≡ objects q
unfolding put
put_ne objects p q c ne = ground arith
