-- ===== src/BaseSocket.antt =====
-- `class BaseSocket` (librcom/include/rcom/BaseSocket.h, librcom/src/BaseSocket.cpp) over the
-- system calls of librcom/include/rcom/ILinux.h. Messages to the log are left out.
pub mod Read
pub mod Write
pub mod Descriptor
use librcom.Base.{
  ℕ, zero, suc, ◌+◌, ◌-◌, ◌*◌, ◌/◌, ◌%◌, ◌^◌, Bool, true, false, not, ◌&&◌, Option, none, some,
  List, [], ◌∷◌, ◌++◌, ltb, leb, ◌==◌, if◌then◌else◌, length, take, drop, Bytes,
}
use librcom.Env.{WaitStatus, wait_ok, wait_timeout, wait_error, Double, zero_double, thousand}

-- A result of type `int` or `ssize_t`: `minus k` is -(k + 1).
pub data Signed : Type 0 where
  plus minus : ℕ → Signed

-- What `recv` answers: the bytes that it stored (none at the end of the stream), or -(k + 1).
pub data RecvAnswer : Type 0 where
  stored : Bytes → RecvAnswer
  failed : ℕ → RecvAnswer

-- What `poll` answers for the one descriptor: its result, and whether POLLIN is among the events.
pub record PollAnswer : Type 0 where
  pub pollrc : Signed
  pub pollin : Bool

-- A descriptor is a number from 0 on; `A` are the socket addresses.
pub record Linux (S : Type 0) (A : Type 0) : Type 0 where
  pub socket : S → Option ℕ × S
  pub connect : ℕ → A → S → Signed × S
  pub bind : ℕ → A → S → Signed × S
  pub listen : ℕ → S → Signed × S
  pub accept : ℕ → S → Option ℕ × S
  pub send : ℕ → Bytes → S → Signed × S
  pub recv : ℕ → ℕ → S → RecvAnswer × S
  pub peek : ℕ → S → RecvAnswer × S
  pub poll : ℕ → ℕ → S → PollAnswer × S
  pub setsockopt_nodelay : ℕ → ℕ → S → S
  pub shutdown : ℕ → S → S
  pub close : ℕ → S → S
  pub errno_is_eagain : S → Bool

abbrev pub size_mod : ℕ
size_mod = 2 ^ 64

-- `buffer + at` filled with `bytes`.
abbrev pub write_at : Bytes → ℕ → Bytes → Bytes
write_at buffer at bytes = take at buffer ++ (bytes ++ drop (at + length bytes) buffer)

abbrev pub is_zero : Signed → Bool
is_zero (plus n) = n == 0
is_zero (minus n) = false

module _ {S A : Type 0} (linux : Linux S A) where
  -- How the loop of `write` goes on after a call of `send`. The loop stands in `again`, on the
  -- bytes still to be sent.
  unfoldable pub write_round :
      (Bytes → S → Option (Bool × S)) → Bytes → Signed × S → Option (Bool × S)
  write_round again unsent (minus k, s) = some (false, s)
  write_round again unsent (plus zero, s) = some (false, s)
  write_round again unsent (plus (suc n), s) = again (drop (suc n) unsent) s

  -- The loop of `write`, with the number of rounds at most; `none` where they do not suffice.
  unfoldable pub write_loop : ℕ → ℕ → Bytes → S → Option (Bool × S)
  write_loop zero fd unsent s = if ltb 0 (length unsent) then none else some (true, s)
  write_loop (suc fuel) fd unsent s =
      if ltb 0 (length unsent)
      then write_round (write_loop fuel fd) unsent (linux.send fd unsent s)
      else some (true, s)

  -- A round sends a byte or more, or is the last one.
  unfoldable pub write : ℕ → Bytes → S → Option (Bool × S)
  write fd buffer s = write_loop (length buffer) fd buffer s

  -- How the loop of `read` goes on after a call of `recv`. `received` is a `size_t`, and -1 is added
  -- to it as any other number.
  unfoldable pub read_round :
      (ℕ → Bytes → S → Option ((Bool × Bytes) × S))
      → ℕ
      → Bytes
      → RecvAnswer × S
      → Option ((Bool × Bytes) × S)
  read_round again received buffer (failed zero, s) =
      again ((received + size_mod - 1) % size_mod) buffer s
  read_round again received buffer (failed (suc k), s) =
      if not (linux.errno_is_eagain s) then some ((false, buffer), s) else again received buffer s
  read_round again received buffer (stored [], s) = some ((false, buffer), s)
  read_round again received buffer (stored (b ∷ bytes), s) =
      again ((received + length (b ∷ bytes)) % size_mod) (write_at buffer received (b ∷ bytes)) s

  -- The loop of `read` for `len` bytes, with the number of rounds at most; `none` where they do
  -- not suffice. The result holds what is in the buffer.
  unfoldable pub read_loop : ℕ → ℕ → ℕ → ℕ → Bytes → S → Option ((Bool × Bytes) × S)
  read_loop zero fd len received buffer s =
      if ltb received len then none else some ((true, buffer), s)
  read_loop (suc fuel) fd len received buffer s =
      if ltb received len
      then read_round (read_loop fuel fd len) received buffer (linux.recv fd (len - received) s)
      else some ((true, buffer), s)

  unfoldable pub read : ℕ → ℕ → ℕ → S → Option ((Bool × Bytes) × S)
  read fuel fd len s = read_loop fuel fd len 0 [] s

  -- The rest of the class acts on the field `sockfd_`, with `none` for `kInvalidSocket`.
  -- `connect`, from the answer of `socket` on.
  unfoldable pub connect_created : A → Option ℕ → Option ℕ × S → (Bool × Option ℕ) × S
  connect_created address sockfd (none, s) = ((false, sockfd), s)
  connect_created address sockfd (some fd, s) =
      let (ret, s1) = linux.connect fd address s in
      if is_zero ret then ((true, some fd), s1) else ((false, sockfd), linux.close fd s1)

  unfoldable pub connect : A → Option ℕ → S → (Bool × Option ℕ) × S
  connect address sockfd s = connect_created address sockfd (linux.socket s)

  -- `listen`, from the answer of `socket` on, which the field takes at once.
  unfoldable pub listen_created : A → Option ℕ × S → (Bool × Option ℕ) × S
  listen_created address (none, s) = ((false, none), s)
  listen_created address (some fd, s) =
      let (bound, s1) = linux.bind fd address s in
      let (ret, s2) = linux.listen fd s1 in
      if is_zero bound then ((is_zero ret, some fd), s2) else ((false, some fd), s1)

  unfoldable pub listen : A → S → (Bool × Option ℕ) × S
  listen address s = listen_created address (linux.socket s)

  unfoldable pub do_wait : Double → ℕ → ℕ → S → WaitStatus × S
  do_wait double fd timeout s =
      let (answer, s1) = linux.poll fd (double.truncated (double.times timeout thousand)) s in
      (
        elim answer.pollrc [
          | minus k ↦ wait_error
          | plus n ↦ if n == 0 then wait_timeout else if answer.pollin then wait_ok else wait_error
        ],
        s1,
      )

  unfoldable pub wait : Double → ℕ → ℕ → S → WaitStatus × S
  wait double fd timeout s =
      if double.at_most zero_double timeout then do_wait double fd timeout s else (wait_error, s)

  unfoldable pub accept_waited : ℕ → WaitStatus × S → Option ℕ × S
  accept_waited fd (wait_ok, s) = linux.accept fd s
  accept_waited fd (wait_timeout, s) = (none, s)
  accept_waited fd (wait_error, s) = (none, s)

  unfoldable pub accept : Double → ℕ → ℕ → S → Option ℕ × S
  accept double fd timeout s = accept_waited fd (wait double fd timeout s)

  -- The stream has ended if the call returns 0.
  unfoldable pub is_endpoint_connected : ℕ → S → Bool × S
  is_endpoint_connected fd s =
      let (answer, s1) = linux.peek fd s in
      (
        elim answer [ failed k ↦ true | stored bytes ↦ elim bytes [ [] ↦ false | b ∷ bs ↦ true ] ],
        s1,
      )

  -- The loop of `close` that reads the stream to its end; `none` where the rounds do not suffice.
  unfoldable pub drain : ℕ → ℕ → S → Option S
  drain zero fd s = none
  drain (suc fuel) fd s =
      let (answer, s1) = linux.recv fd 512 s in
      elim answer [
        | failed k ↦ some s1
        | stored bytes ↦ elim bytes [ [] ↦ some s1 | b ∷ bs ↦ drain fuel fd s1 ]
      ]

  unfoldable pub close : ℕ → Option ℕ → S → Option (Option ℕ × S)
  close fuel none s = some (none, s)
  close fuel (some fd) s = elim (drain fuel fd (linux.shutdown fd s)) [
    | none ↦ none
    | some s1 ↦ some (none, linux.close fd s1)
  ]
