-- ===== src/Core/Connection/Send.antt =====
-- What `Send` hands to the kernel: the write buffer in order, each byte once, and all of it unless
-- the socket fails for good.
use dytech.Prelude.{
  ℕ, ◌+◌, ◌<◌, ◌≤◌, ◌≡◌, refl, ◌∙◌, true, false, none, some, ◌++◌, ◌∷◌, [], Bytes, List, length,
  take, arith, All, ltb, ◌&&◌, ◌==◌, take_all, take-add, Bool-cases, inl, inr, lt→ltb, ltb→lt,
  append-nil,
}
use native.Mathlib.Nat.{add-zero, zero-add, add_assoc}
use dytech.Core.Buffer.{to_string_view, size}
use dytech.Core.Connection.{
  Connection, Sent, bytes_taken, errno, is_fatal, send_loop, send, clear_write_buffer,
  get_write_size,
}

-- A call after which the loop goes on: bytes were taken, or the failure is a passing one.
abbrev pub IsBenign : Sent → Type 0
IsBenign r = ((bytes_taken r == 0) && is_fatal (errno r)) ≡ false

-- A call that took nothing and failed for good.
abbrev pub IsFatal : Sent → Type 0
IsFatal r = ((bytes_taken r == 0) && is_fatal (errno r)) ≡ true

-- The number of bytes that a row of calls takes.
unfoldable pub total : List Sent → ℕ
total [] = 0
total (r ∷ rs) = bytes_taken r + total rs

module _ (buf : Bytes) (to_write : ℕ) (c : Connection) where
  -- One benign call while there is something left.
  send_loop-IsBenign :
      (r : Sent) (rs : List Sent) (curr : ℕ)
      → curr < to_write
      → IsBenign r
      → send_loop (r ∷ rs) buf to_write curr (take curr buf) c
        ≡ send_loop rs buf to_write (curr + bytes_taken r) (take (curr + bytes_taken r) buf) c
  unfolding send_loop
  send_loop-IsBenign r rs curr h b = rw (lt→ltb curr to_write h, b, take-add)

  send_loop_done :
      (rs : List Sent) (curr : ℕ)
      → to_write ≤ curr
      → send_loop rs buf to_write curr (take curr buf) c
        ≡ some (clear_write_buffer c, take curr buf, rs)
  unfolding send_loop
  send_loop_done [] curr h = ground arith
  send_loop_done (r ∷ rs) curr h = ground arith

  send_loop-IsFatal :
      (r : Sent) (rs : List Sent) (curr : ℕ) (wire : Bytes)
      → curr < to_write
      → IsFatal r
      → send_loop (r ∷ rs) buf to_write curr wire c ≡ some (clear_write_buffer c, wire, rs)
  unfolding send_loop
  send_loop-IsFatal r rs curr wire h f = rw (lt→ltb curr to_write h, f)

  send_loop-nil :
      (curr : ℕ) (wire : Bytes) → curr < to_write → send_loop [] buf to_write curr wire c ≡ none
  unfolding send_loop
  send_loop-nil curr wire h = rw (lt→ltb curr to_write h)

  -- A row of benign calls that does not take everything.
  send_loop-append :
      (before rs : List Sent) (curr : ℕ)
      → All IsBenign before
      → curr + total before < to_write
      → send_loop (before ++ rs) buf to_write curr (take curr buf) c
        ≡ send_loop rs buf to_write (curr + total before) (take (curr + total before) buf) c
  unfolding total
  send_loop-append [] rs curr b h = rw add-zero
  send_loop-append (r ∷ before) rs curr b h =
      send_loop-IsBenign r (before ++ rs) curr (omega arith) b.0
      ∙ send_loop-append before rs (curr + bytes_taken r) b.1 (omega arith)
      ∙ rw add_assoc

  send_loop_complete :
      (rs : List Sent) (curr : ℕ)
      → All IsBenign rs
      → to_write ≤ curr + total rs
      → to_write ≡ length buf
      → (rest : List Sent) × (send_loop rs buf to_write curr (take curr buf) c
          ≡ some (clear_write_buffer c, buf, rest))
  unfolding total
  send_loop_complete [] curr b h e =
      ([], send_loop_done [] curr (omega arith) ∙ rw (take_all curr buf (omega arith)))
  send_loop_complete (r ∷ rs) curr b h e = elim (Bool-cases (ltb curr to_write)) [
    | inl more ↦
        let (rest, q) = send_loop_complete rs (curr + bytes_taken r) b.1 (omega arith) e in
        (rest, send_loop-IsBenign r rs curr (ltb→lt curr to_write more) b.0 ∙ q)
    | inr no_more ↦ (
      r ∷ rs,
      send_loop_done (r ∷ rs) curr (ground arith) ∙ rw (take_all curr buf (ground arith)),
    )
  ]

abbrev pub content : Connection → Bytes
content c = to_string_view c.write_buffer

-- As long as no call fails for good, `Send` returns once the calls have taken the whole write
-- buffer; the kernel then has exactly its bytes, in order, and the buffer is empty.
pub send_complete :
    (rs : List Sent) (c : Connection)
    → All IsBenign rs
    → length (content c) ≤ total rs
    → (rest : List Sent) × (send rs c ≡ some (clear_write_buffer c, content c, rest))
unfolding send get_write_size size to_string_view
send_complete rs c b h =
    send_loop_complete (content c) (length (content c)) c rs 0 b (omega arith) refl

-- Where a call fails for good after some benign ones, `Send` gives up: the kernel has a prefix of
-- the write buffer, what the earlier calls took, and the rest is dropped.
pub send-IsFatal :
    (before : List Sent) (r : Sent) (rest : List Sent) (c : Connection)
    → All IsBenign before
    → total before < length (content c)
    → IsFatal r
    → send (before ++ r ∷ rest) c
      ≡ some (clear_write_buffer c, take (total before) (content c), rest)
unfolding send get_write_size size to_string_view
send-IsFatal before r rest c b h f =
    send_loop-append (content c) (length (content c)) c before (r ∷ rest) 0 b (omega arith)
    ∙ rw zero-add (send_loop-IsFatal (content c) (length (content c)) c r rest _ _ h f)

-- While every call is interrupted or finds the socket full, `Send` stays in its loop, however
-- many such calls there are.
send_spins :
    (rs : List Sent) (c : Connection)
    → All IsBenign rs
    → total rs < length (content c)
    → send rs c ≡ none
unfolding send get_write_size size to_string_view
send_spins rs c b h = rw (← append-nil rs) (
    send_loop-append (content c) (length (content c)) c rs [] 0 b (omega arith)
    ∙ rw zero-add (send_loop-nil (content c) (length (content c)) c _ _ h))

-- A row of benign calls of which the last one takes what the earlier ones left: `Send` makes exactly
-- these calls, hands over the whole write buffer and empties it.
pub send-row :
    (us : List Sent) (r : Sent) (rest : List Sent) (c : Connection)
    → All IsBenign us
    → IsBenign r
    → total us < length (content c)
    → length (content c) ≤ total us + bytes_taken r
    → send (us ++ r ∷ rest) c ≡ some (clear_write_buffer c, content c, rest)
unfolding send get_write_size size to_string_view
send-row us r rest c b b' short enough =
    let buf = content c in
    send_loop-append buf (length buf) c us (r ∷ rest) 0 b (omega arith)
    ∙ rw zero-add (
        send_loop-IsBenign buf (length buf) c r rest (total us) short b'
        ∙ send_loop_done buf (length buf) c rest (total us + bytes_taken r) enough
        ∙ rw (take_all (total us + bytes_taken r) buf enough))
