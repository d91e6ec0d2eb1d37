-- ===== src/Tests/SocketTest.antt =====
-- The theorems on librcom/src/BaseSocket.cpp with a kernel that sends at most three bytes at a time
-- and delivers at most two.
use librcom.Base.{
  ℕ, ◌+◌, ◌<◌, List, ◌∷◌, ◌==◌, ==_iff, if◌then◌else◌, ◌≡◌, refl, sym, arith, true, false, none,
  some, [], ◌++◌, Bytes, length, take, drop, min, codes, length-take, take-append-drop,
}
use librcom.BaseSocket
use librcom.BaseSocket.{Linux, Signed, plus, minus, RecvAnswer, stored, failed, size_mod}
use librcom.BaseSocket.Descriptor.{IsTable, Accounts, connect-Accounts, listen-Accounts}
use librcom.BaseSocket.Read.{Delivery, IsKernelStream, read-recv_error, read-take}
use librcom.BaseSocket.Write.{IsKernelSink, Writes, write-Writes}

record Kernel : Type 0 where
  incoming : Bytes
  outgoing : Bytes
  opened : List ℕ
  next_fd : ℕ

abbrev greeted : Kernel
greeted = record { incoming = codes "Hello"; outgoing = []; opened = 2 ∷ 1 ∷ 0 ∷ []; next_fd = 3 }

-- A descriptor that is not the newest is left as it is.
abbrev pub close_newest : ℕ → List ℕ → List ℕ
close_newest fd [] = []
close_newest fd (n ∷ rest) = if fd == n then rest else n ∷ rest

pub close_newest-head : (fd : ℕ) (rest s : List ℕ) → s ≡ fd ∷ rest → close_newest fd s ≡ rest
close_newest-head fd rest s e = rw (e, (==_iff fd fd).1 refl) refl

abbrev kernel_linux : Linux Kernel ℕ
kernel_linux = record {
  socket =
      λ s. (some s.next_fd, record s { opened = s.next_fd ∷ s.opened; next_fd = s.next_fd + 1 });
  connect = λ fd a s. (minus 0, s);
  bind = λ fd a s. (plus 0, s);
  listen = λ fd s. (plus 0, s);
  accept = λ fd s. (none, s);
  send = λ fd bytes s. (
    plus (min 3 (length bytes)),
    record s { outgoing = s.outgoing ++ take (min 3 (length bytes)) bytes },
  );
  recv = λ fd n s.
      (stored (take (min 2 n) s.incoming), record s { incoming = drop (min 2 n) s.incoming });
  peek = λ fd s. (stored (take 1 s.incoming), s);
  poll = λ fd timeout s. (record { pollrc = plus 1; pollin = true }, s);
  setsockopt_nodelay = λ fd value s. s;
  shutdown = λ fd s. s;
  close = λ fd s. record s { opened = close_newest fd s.opened };
  errno_is_eagain = λ s. false;
}

-- The same kernel, on which `recv` returns -1.
abbrev failing_linux : Linux Kernel ℕ
failing_linux = record kernel_linux { recv = λ fd n s. (failed 0, s) }

read-recv_error_example : BaseSocket.read failing_linux 2 3 5 greeted ≡ some ((true, []), greeted)
read-recv_error_example =
    read-recv_error failing_linux 3 0 5 greeted greeted (omega arith) (omega arith) refl

kernel_deliver :
    (n : ℕ) (s : Kernel)
    → 0 < n
    → 0 < length s.incoming
    → Delivery kernel_linux 3 s.incoming n (kernel_linux.recv 3 n s) (λ s'. s'.incoming)
kernel_deliver n s pos some_ = record {
  bytes = take (min 2 n) s.incoming;
  bytes_nonempty = omega (arith, length-take (min 2 n) s.incoming);
  bytes_fit = omega (arith, length-take (min 2 n) s.incoming);
  answer = refl;
  in_order = sym (take-append-drop (min 2 n) s.incoming);
}

abbrev kernel_stream : IsKernelStream kernel_linux 3
kernel_stream = record { incoming = λ s. s.incoming; deliver = kernel_deliver }

read-take_example :
    (s' : Kernel) × (BaseSocket.read kernel_linux 4 3 4 greeted ≡ some ((true, codes "Hell"), s'))
    × (s'.incoming ≡ codes "o")
read-take_example = read-take kernel_linux 3 kernel_stream 4 greeted (omega arith) (omega arith)

abbrev kernel_sink : IsKernelSink kernel_linux 3
kernel_sink = record { outgoing = λ s. s.outgoing; accepts = λ bytes s. (omega arith, refl) }

write-Writes_example :
    Writes kernel_linux 3 kernel_sink
      (codes "Hello")
      greeted
      (BaseSocket.write kernel_linux 3 (codes "Hello") greeted)
write-Writes_example = write-Writes kernel_linux 3 kernel_sink (codes "Hello") greeted

abbrev kernel_table : IsTable kernel_linux
kernel_table = record {
  opened = λ s. s.opened;
  opened-socket = λ s. refl;
  opened-connect = λ fd a s. refl;
  opened-bind = λ fd a s. refl;
  opened-listen = λ fd s. refl;
  opened-recv = λ fd n s. refl;
  opened-shutdown = λ fd s. refl;
  opened-close = λ fd rest s e. close_newest-head fd rest s.opened e;
}

-- A connection that is refused.
connect-Accounts_example :
    Accounts kernel_linux kernel_table greeted (BaseSocket.connect kernel_linux 8001 none greeted)
connect-Accounts_example = connect-Accounts kernel_linux kernel_table 8001 greeted

listen-Accounts_example :
    Accounts kernel_linux kernel_table greeted (BaseSocket.listen kernel_linux 8001 greeted)
listen-Accounts_example = listen-Accounts kernel_linux kernel_table 8001 greeted
