-- ===== src/Tests/World.antt =====
-- A world that satisfies what the theorems ask of sockets, clocks and kernels.
use librcom.Base.{
  ◌+◌, ◌-◌, ℕ, zero, suc, ◌≤◌, ◌<◌, ◌≡◌, refl, ap, arith, Bool, true, false, Option, none, some, [],
  ◌∷◌, ◌++◌, Bytes, length, take, drop, leb, ltb, if◌then◌else◌, lt→ltb,
}
use librcom.HostOrder.{low_first}
use librcom.Env.{
  ISocket, Double, Env, wait_ok, wait_timeout, wait_error, IsStream, IsSink, FillsMask,
}
use librcom.Http.Stream.{IsReady}
use librcom.WebSocket.State.{WebSocket}
use librcom.WebSocket.Ends.{ClosesConnection}

pub record World : Type 0 where
  pub unread : Bytes
  pub written : Bytes
  pub open_ : Bool

abbrev pub quiet : World
quiet = record { unread = []; written = []; open_ = true }

abbrev read_bytes : ℕ → World → Option Bytes × World
read_bytes n s =
    if leb n (length s.unread)
    then (some (take n s.unread), record s { unread = drop n s.unread })
    else (none, s)

abbrev pub test_socket : ISocket World
test_socket = record {
  close = λ s. record s { open_ = false };
  is_connected = λ s. s.open_;
  is_endpoint_connected = λ s. (false, s);
  send = λ bytes s. (true, record s { written = s.written ++ bytes });
  read = read_bytes;
  wait = λ timeout s. (if ltb 0 (length s.unread) then wait_ok else wait_timeout, s);
  turn_buffering_off = λ s. s;
  turn_buffering_on = λ s. s;
}

-- Of this clock every reading is 0, and no time passes.
abbrev pub whole_seconds : Double
whole_seconds = record {
  of_int = λ n. n;
  truncated = λ a. a;
  plus = λ a b. a + b;
  minus = λ a b. a - b;
  times = λ a b. a;
  over = λ a b. a;
  at_most = λ a b. leb a b;
  below = λ a b. ltb a b;
}

abbrev pub test_env : Env World
test_env = record {
  socket = test_socket;
  linux = record {
    clock_gettime = λ s. ((0, 0), s);
    clock_nanosleep = λ sec nsec s. (0, s);
    getrandom = λ n s. (0x37 ∷ 0xfa ∷ 0x21 ∷ 0x3d ∷ [], s);
  };
  order = low_first;
  double = whole_seconds;
  rounds = 2;
}

-- One on which every call fails.
abbrev pub broken_env : Env World
broken_env = record {
  socket = record test_socket {
    send = λ bytes s. (false, s);
    wait = λ timeout s. (wait_error, s);
    is_endpoint_connected = λ s. (true, s);
  };
  linux = record (test_env.linux) { clock_nanosleep = λ sec nsec s. (4, s) };
  order = low_first;
  double = whole_seconds;
  rounds = 2;
}

pub test_read_enough :
    (n : ℕ) (s : World)
    → n ≤ length s.unread
    → read_bytes n s ≡ (some (take n s.unread), record s { unread = drop n s.unread })
test_read_enough n s h = ground arith

abbrev pub test_stream : IsStream test_socket
test_stream = record {
  pending = λ s. s.unread;
  advance = λ n s. record s { unread = drop n s.unread };
  read_enough = test_read_enough;
  pending-advance = λ n s. refl;
}

pub test_wait_ready :
    (timeout : ℕ) (s : World) → 0 < length s.unread → test_socket.wait timeout s ≡ (wait_ok, s)
test_wait_ready timeout s h = rw (lt→ltb 0 (length s.unread) h) refl

abbrev pub test_ready : IsReady test_socket test_stream
test_ready = record { waited = λ s. s; wait_ready = test_wait_ready; pending-waited = λ s. refl }

abbrev pub test_sink : IsSink test_env
test_sink = record {
  sent = λ s. s.written;
  accept = λ bytes s. record s { written = s.written ++ bytes };
  send_true = λ bytes s. refl;
  sent-accept = λ bytes s. refl;
  sent-turn_buffering_off = λ s. refl;
  sent-turn_buffering_on = λ s. refl;
  sent-getrandom = λ n s. refl;
}

abbrev pub test_fills : FillsMask test_env
test_fills = λ s. refl

abbrev pub test_closes : ClosesConnection test_socket
test_closes = λ s. refl

abbrev pub test_websocket : World → WebSocket World
test_websocket s = record {
  socket = s;
  output_message_buffer = [];
  input_payload_buffer = [];
  frame_header = record { fin = false; opcode = 0; mask = false; payload_len = 0 };
  is_text = false;
  is_continuation = false;
  remote_close_reason = 0;
  input_message_length = 0;
  input_mask = [];
  output_mask = [];
  message = [];
}

-- A long message of zeros.
pub zeros : ℕ → Bytes
zeros zero = []
zeros (suc n) = 0 ∷ zeros n

pub length-zeros : (n : ℕ) → length (zeros n) ≡ n
unfolding zeros
length-zeros zero = refl
length-zeros (suc n) = ap suc (length-zeros n)
