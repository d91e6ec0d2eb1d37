-- ===== src/Env.antt =====
-- What a websocket is built on: the interface librcom/include/rcom/ISocket.h, the clock and the
-- random source behind ILinux.h, and the byte order of the host. The operations act on one state of
-- the outside world, which the clients of this interface take as a parameter.
-- Times are `double` seconds; a number of that type is known by its 64 bits, read as a natural
-- number, and the arithmetic on them is a parameter.
use librcom.Base.{
  ℕ, ◌≤◌, ◌≡◌, Bool, true, if◌then◌else◌, Option, some, Bytes, length, take, ◌++◌, drop, ◌==◌,
}
use librcom.HostOrder.{HostOrder}

-- `enum WaitStatus`
pub data WaitStatus : Type 0 where
  wait_ok wait_timeout wait_error : WaitStatus

-- `read` answers with the bytes that it stored, or with `none` where it returns false.
pub record ISocket (S : Type 0) : Type 0 where
  pub close : S → S
  pub is_connected : S → Bool
  pub is_endpoint_connected : S → Bool × S
  pub send : Bytes → S → Bool × S
  pub read : ℕ → S → Option Bytes × S
  pub wait : ℕ → S → WaitStatus × S
  pub turn_buffering_off : S → S
  pub turn_buffering_on : S → S

-- `clock_gettime` gives seconds and nanoseconds; `clock_nanosleep` takes them and returns 0, or
-- an error.
pub record ILinux (S : Type 0) : Type 0 where
  pub clock_gettime : S → (ℕ × ℕ) × S
  pub clock_nanosleep : ℕ → ℕ → S → ℕ × S
  pub getrandom : ℕ → S → Bytes × S

-- The operations on `double`. `truncated` is the cast to an integer of a number that is not negative;
-- `at_most` is `<=`, and `below` is `<`.
pub record Double : Type 0 where
  pub of_int : ℕ → ℕ
  pub truncated : ℕ → ℕ
  pub plus : ℕ → ℕ → ℕ
  pub minus : ℕ → ℕ → ℕ
  pub times : ℕ → ℕ → ℕ
  pub over : ℕ → ℕ → ℕ
  pub at_most : ℕ → ℕ → Bool
  pub below : ℕ → ℕ → Bool

-- The numbers that the sources write down.
abbrev pub zero_double : ℕ
zero_double = 0x0

abbrev pub one_hundredth : ℕ
one_hundredth = 0x3f847ae147ae147b

abbrev pub one_tenth : ℕ
one_tenth = 0x3fb999999999999a

abbrev pub one_half : ℕ
one_half = 0x3fe0000000000000

abbrev pub five : ℕ
five = 0x4014000000000000

abbrev pub ten : ℕ
ten = 0x4024000000000000

abbrev pub thousand : ℕ
thousand = 0x408f400000000000

abbrev pub billion : ℕ
billion = 0x41cdcd6500000000

-- `rounds` are those that the loop of the client's `close_connection` has at most, which ends by the
-- clock.
pub record Env (S : Type 0) : Type 0 where
  pub socket : ISocket S
  pub linux : ILinux S
  pub order : HostOrder
  pub double : Double
  pub rounds : ℕ

-- `std::min`
abbrev pub min_double : Double → ℕ → ℕ → ℕ
min_double double a b = if double.below b a then b else a

module _ {S : Type 0} (env : Env S) where
  -- `rcom_time`
  unfoldable pub rcom_time : S → ℕ × S
  rcom_time s =
      let ((sec, nsec), s') = env.linux.clock_gettime s in
      (
        env.double.plus (env.double.of_int sec) (env.double.over (env.double.of_int nsec) billion),
        s',
      )

  -- `rcom_sleep`; false where it throws.
  unfoldable pub rcom_sleep : ℕ → S → Bool × S
  rcom_sleep duration s =
      let sec = env.double.truncated duration in
      let nsec = env.double.minus duration (env.double.of_int sec) in
      let (r, s') =
        env.linux.clock_nanosleep sec (env.double.truncated (env.double.times nsec billion)) s in
      (r == 0, s')

-- What ISocket.h documents of `read` where the other end has sent enough: it blocks until all the
-- bytes are there, and they come in the order in which they were sent. `pending` are the bytes
-- sent and not yet read.
pub record IsStream {S : Type 0} (sock : ISocket S) : Type 0 where
  pub pending : S → Bytes
  pub advance : ℕ → S → S
  pub read_enough :
      (n : ℕ) (s : S)
      → n ≤ length (pending s)
      → sock.read n s ≡ (some (take n (pending s)), advance n s)
  pub pending-advance : (n : ℕ) (s : S) → pending (advance n s) ≡ drop n (pending s)

-- What getrandom(2) documents for four bytes.
abbrev pub FillsMask : {S : Type 0} → Env S → Type 0
FillsMask {S} env = (s : S) → length (env.linux.getrandom 4 s).0 ≡ 4

-- What ISocket.h documents of `send` where it answers true, on a socket whose writes succeed: the
-- bytes are written behind those written before, and nothing else writes.
pub record IsSink {S : Type 0} (env : Env S) : Type 0 where
  pub sent : S → Bytes
  pub accept : Bytes → S → S
  pub send_true : (bytes : Bytes) (s : S) → env.socket.send bytes s ≡ (true, accept bytes s)
  pub sent-accept : (bytes : Bytes) (s : S) → sent (accept bytes s) ≡ sent s ++ bytes
  pub sent-turn_buffering_off : (s : S) → sent (env.socket.turn_buffering_off s) ≡ sent s
  pub sent-turn_buffering_on : (s : S) → sent (env.socket.turn_buffering_on s) ≡ sent s
  pub sent-getrandom : (n : ℕ) (s : S) → sent (env.linux.getrandom n s).1 ≡ sent s
