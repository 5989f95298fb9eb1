-- ===== src/Core/Connection/Receive.antt =====
-- What `Receive` stores: every byte that arrives before the socket is drained, closed or broken.
use dytech.Prelude.{
  ℕ, ◌+◌, ◌≡◌, ◌≢◌, refl, ap, ◌∙◌, Bool, true, false, Option, some, ◌++◌, ◌∷◌, [], Bytes, List,
  length, All, append_assoc, length-append, take-append, append-nil,
}
use native.Mathlib.Nat.{add-zero, zero-add, add_assoc}
use dytech.Core.Buffer.{push_back_array, push_back_unsafe}
use dytech.Core.Connection.{
  Connection, Recv, got, failed, eintr, eagain, ewouldblock, other, received_into, after_recv_error,
  read_unsafe, receive_loop, receive, Received,
}

-- A call after which the loop goes on: some bytes came, or a signal interrupted the call.
abbrev pub GoesOn : Recv → Type 0
GoesOn (got bytes) = bytes ≢ []
GoesOn (failed e) = e ≡ eintr

-- A call at which the loop returns, and the flag `exit` that it is to return then: the stream has
-- ended, the socket is drained, or the call fails in any other way.
abbrev pub Stops : Recv → Bool → Type 0
Stops (got bytes) exit = (bytes ≡ []) × (exit ≡ true)
Stops (failed eintr) exit = ⊥
Stops (failed eagain) exit = exit ≡ false
Stops (failed ewouldblock) exit = exit ≡ false
Stops (failed (other n)) exit = exit ≡ true

-- The bytes that a row of calls brings.
unfoldable pub arrivals : List Recv → Bytes
arrivals [] = []
arrivals (got bytes ∷ rs) = bytes ++ arrivals rs
arrivals (failed e ∷ rs) = arrivals rs

-- The connection with more bytes to be read.
abbrev pub store : Connection → Bytes → Connection
store c bytes = record c { read_buffer = push_back_array c.read_buffer bytes }

store_nil : (c : Connection) → store c [] ≡ c
unfolding push_back_array
store_nil c = rw append-nil

store_twice : (c : Connection) (x y : Bytes) → store (store c x) y ≡ store c (x ++ y)
unfolding push_back_array
store_twice c x y = rw append_assoc

read_unsafe-received :
    (c : Connection) (x : Bytes) → read_unsafe c (received_into x) (length x) ≡ store c x
unfolding read_unsafe received_into push_back_array push_back_unsafe
read_unsafe-received c x = rw (take-append x _)

-- The call at which the loop returns.
receive_loop-Stops :
    (r : Recv) (rest : List Recv) (exit : Bool) (read : ℕ) (c : Connection)
    → Stops r exit
    → receive_loop (r ∷ rest) read c ≡ some ((read, exit), c, rest)
unfolding receive_loop after_recv_error
receive_loop-Stops (got []) rest exit read c s = rw (s.1)
receive_loop-Stops (got (b ∷ bs)) rest exit read c s = cc
receive_loop-Stops (failed eintr) rest exit read c s = absurd s
receive_loop-Stops (failed eagain) rest exit read c s = rw s
receive_loop-Stops (failed ewouldblock) rest exit read c s = rw s
receive_loop-Stops (failed (other n)) rest exit read c s = rw s

receive_loop-got :
    (b : ℕ) (bs : Bytes) (rs : List Recv) (read : ℕ) (c : Connection)
    → receive_loop (got (b ∷ bs) ∷ rs) read c
      ≡ receive_loop rs (read + length (b ∷ bs)) (store c (b ∷ bs))
unfolding receive_loop
receive_loop-got b bs rs read c =
    ap (receive_loop rs (read + length (b ∷ bs))) (read_unsafe-received c (b ∷ bs))

receive_loop-eintr :
    (rs : List Recv) (read : ℕ) (c : Connection)
    → receive_loop (failed eintr ∷ rs) read c ≡ receive_loop rs read c
unfolding receive_loop
receive_loop-eintr rs read c = refl

-- What the loop returns when it has stored these bytes.
abbrev pub stored : ℕ → Bytes → Bool → Connection → List Recv → Option Received
stored read bytes exit c rest = some ((read + length bytes, exit), store c bytes, rest)

stored_twice :
    (read : ℕ) (x y : Bytes) (exit : Bool) (c : Connection) (rest : List Recv)
    → stored (read + length x) y exit (store c x) rest ≡ stored read (x ++ y) exit c rest
stored_twice read x y exit c rest = rw (store_twice, length-append, add_assoc)

receive_loop-arrivals :
    (before : List Recv) (r : Recv) (rest : List Recv) (exit : Bool) (read : ℕ) (c : Connection)
    → All GoesOn before
    → Stops r exit
    → receive_loop (before ++ r ∷ rest) read c ≡ stored read (arrivals before) exit c rest
unfolding arrivals
receive_loop-arrivals [] r rest exit read c on s =
    rw (store_nil c, add-zero) (receive_loop-Stops r rest exit read c s)
receive_loop-arrivals (got [] ∷ before) r rest exit read c on s = absurd (on.0 refl)
receive_loop-arrivals (got (b ∷ bs) ∷ before) r rest exit read c on s =
    receive_loop-got b bs (before ++ r ∷ rest) read c
    ∙ receive_loop-arrivals before r rest exit (read + length (b ∷ bs)) (store c (b ∷ bs)) on.1 s
    ∙ stored_twice read (b ∷ bs) (arrivals before) exit c rest
receive_loop-arrivals (failed e ∷ before) r rest exit read c on s =
    ap (λ x. receive_loop (failed x ∷ (before ++ r ∷ rest)) read c) on.0
    ∙ receive_loop-eintr (before ++ r ∷ rest) read c
    ∙ receive_loop-arrivals before r rest exit read c on.1 s

-- After any row of calls that bring bytes or are interrupted, the first call that ends the
-- stream, finds the socket drained (`EAGAIN` or `EWOULDBLOCK`) or fails with any other error but an
-- interruption makes `Receive` return: with the number of bytes that came, with `exit` false where
-- the socket was drained and true otherwise, with exactly those bytes behind the
-- read buffer, in order, nothing else changed, and no later call made.
pub receive-arrivals :
    (before : List Recv) (r : Recv) (rest : List Recv) (exit : Bool) (c : Connection)
    → All GoesOn before
    → Stops r exit
    → receive (before ++ r ∷ rest) c
      ≡ some ((length (arrivals before), exit), store c (arrivals before), rest)
unfolding receive
receive-arrivals before r rest exit c on s =
    receive_loop-arrivals before r rest exit 0 c on s ∙ rw zero-add
