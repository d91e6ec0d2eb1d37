-- ===== src/WebSocket/Ends.antt =====
-- How the methods that close a connection end: WebSocket.cpp `close_with_handshake` and the two
-- `close_connection`.
use librcom.Base.{ℕ, zero, suc, ◌≡◌, refl, Bool, true, false, not, if◌then◌else◌}
use librcom.Env.{Env, ISocket, rcom_sleep, rcom_time, min_double, one_tenth, one_half, five}
use librcom.WebSocket.Close.{
  catch_all, close_with_handshake, try_close_with_handshake, send_close_message, closing_wait_reply,
}
use librcom.WebSocket.Output.{close_connection, wait_endpoint_closed, socket_close, sleep}
use librcom.WebSocket.State.{
  Side, server, client, Exception, runtime_error, Outcome, ok, throws, out_of_fuel, WebSocket, M,
  pure, throw, ◌>>=◌, ◌>>◌, next, outside,
}

-- A socket that has been closed is not connected.
abbrev pub ClosesConnection : {S : Type 0} → ISocket S → Type 0
ClosesConnection {S} sock = (s : S) → sock.is_connected (sock.close s) ≡ false

abbrev pub IsRuntime : Exception → Type 0
IsRuntime e = e ≡ runtime_error

abbrev pub AnyException : Exception → Type 0
AnyException e = Unit

module _ {S : Type 0} where
  -- A method ends well with `Q`, or throws an exception in `E`.
  abbrev pub Ends :
      {A : Type 0}
      → (A → WebSocket S → Type 0)
      → (Exception → Type 0)
      → Outcome A × WebSocket S
      → Type 0
  Ends Q E (ok a, w) = Q a w
  Ends Q E (throws e, w) = E e
  Ends Q E (out_of_fuel, w) = Unit

  abbrev pub Anyhow : {A : Type 0} → A → WebSocket S → Type 0
  Anyhow a w = Unit

  pub Ends-next :
      {A B : Type 0} (Q : A → WebSocket S → Type 0) (R : B → WebSocket S → Type 0)
      (E : Exception → Type 0) (r : Outcome A × WebSocket S) (f : A → M S B)
      → Ends Q E r
      → ((a : A) (w : WebSocket S) → Q a w → Ends R E (f a w))
      → Ends R E (next r f)
  Ends-next Q R E (ok a, w) f h k = k a w h
  Ends-next Q R E (throws e, w) f h k = h
  Ends-next Q R E (out_of_fuel, w) f h k = tt

  -- Only the last method counts where any exception may be thrown.
  pub Ends-last :
      {A B : Type 0} (R : B → WebSocket S → Type 0) (r : Outcome A × WebSocket S) (f : A → M S B)
      → ((a : A) (w : WebSocket S) → Ends R AnyException (f a w))
      → Ends R AnyException (next r f)
  Ends-last R (ok a, w) f k = k a w
  Ends-last R (throws e, w) f k = tt
  Ends-last R (out_of_fuel, w) f k = tt

  Ends-anyway :
      {A : Type 0} (Q : A → WebSocket S → Type 0) (E : Exception → Type 0)
      (r : Outcome A × WebSocket S)
      → Ends Q E r
      → Ends Q AnyException r
  Ends-anyway Q E (ok a, w) h = h
  Ends-anyway Q E (throws e, w) h = tt
  Ends-anyway Q E (out_of_fuel, w) h = tt

  pub Ends-if :
      {A : Type 0} (Q : A → WebSocket S → Type 0) (E : Exception → Type 0) (b : Bool) (m k : M S A)
      (w : WebSocket S)
      → Ends Q E (m w)
      → Ends Q E (k w)
      → Ends Q E ((if b then m else k) w)
  Ends-if Q E true m k w hm hk = hm
  Ends-if Q E false m k w hm hk = hk

  Ends-catch :
      {A : Type 0} (Q : A → WebSocket S → Type 0) (E E' : Exception → Type 0)
      (r : Outcome A × WebSocket S) (handler : M S A)
      → Ends Q E r
      → ((w : WebSocket S) → Ends Q E' (handler w))
      → Ends Q E' (catch_all r handler)
  Ends-catch Q E E' (ok a, w) handler h k = h
  Ends-catch Q E E' (throws e, w) handler h k = k w
  Ends-catch Q E E' (out_of_fuel, w) handler h k = tt

module _ {S : Type 0} (env : Env S) (closes : ClosesConnection env.socket) where
  -- No connection is left.
  abbrev pub IsClosed : {A : Type 0} → A → WebSocket S → Type 0
  IsClosed a w = env.socket.is_connected w.socket ≡ false

  sleep_lem : (duration : ℕ) (w : WebSocket S) → Ends Anyhow IsRuntime (sleep env duration w)
  unfolding sleep
  sleep_lem duration w =
      Ends-if Anyhow IsRuntime (rcom_sleep env duration w.socket).0 (pure tt) (throw runtime_error)
        (record w { socket = (rcom_sleep env duration w.socket).1 }) tt refl

  wait_endpoint_closed_lem :
      (fuel start_time : ℕ) (w : WebSocket S)
      → Ends Anyhow IsRuntime (wait_endpoint_closed env fuel start_time w)
  unfolding wait_endpoint_closed
  wait_endpoint_closed_lem zero start_time w = tt
  wait_endpoint_closed_lem (suc fuel) start_time w =
      let (connected, s) = env.socket.is_endpoint_connected w.socket in
      let (now, s') = rcom_time env s in
      let again =
        sleep env (
          min_double env.double one_tenth
            (env.double.minus one_half (env.double.minus now start_time)))
        >> wait_endpoint_closed env fuel start_time in
      let late : M S (Unit {0}) = outside env.socket.is_endpoint_connected >>= λ _. pure tt in
      Ends-if Anyhow IsRuntime (not connected) (pure tt)
        (outside (rcom_time env) >>= λ now.
          if env.double.at_most one_half (env.double.minus now start_time)
          then late
          else (sleep env (
                min_double env.double one_tenth
                  (env.double.minus one_half (env.double.minus now start_time)))
              >> wait_endpoint_closed env fuel start_time))
        (record w { socket = s }) tt
        (Ends-if Anyhow IsRuntime (env.double.at_most one_half (env.double.minus now start_time))
          late again (record w { socket = s' }) tt
          (Ends-next Anyhow Anyhow IsRuntime
            (sleep env
              (min_double env.double one_tenth
                (env.double.minus one_half (env.double.minus now start_time)))
              (record w { socket = s' }))
            (λ _. wait_endpoint_closed env fuel start_time)
            (sleep_lem
              (min_double env.double one_tenth
                (env.double.minus one_half (env.double.minus now start_time)))
              (record w { socket = s' }))
            (λ a v _. wait_endpoint_closed_lem fuel start_time v)))

  close_connection-IsClosed :
      (side : Side) (w : WebSocket S) → Ends IsClosed IsRuntime (close_connection env side w)
  unfolding close_connection socket_close
  close_connection-IsClosed server w = closes w.socket
  close_connection-IsClosed client w =
      let (start_time, s) = rcom_time env w.socket in
      Ends-next Anyhow IsClosed IsRuntime
        (wait_endpoint_closed env env.rounds start_time (record w { socket = s }))
        (λ _. socket_close env)
        (wait_endpoint_closed_lem env.rounds start_time (record w { socket = s }))
        (λ a v _. closes v.socket)

  pub close_with_handshake-IsClosed :
      (side : Side) (fuel code : ℕ) (w : WebSocket S)
      → Ends IsClosed IsRuntime (close_with_handshake env side fuel code w)
  unfolding close_with_handshake try_close_with_handshake
  close_with_handshake-IsClosed side fuel code w =
      let reply : Bool → M S (Unit {0}) =
        λ sent. if sent then closing_wait_reply env side fuel five else pure tt in
      Ends-catch IsClosed AnyException IsRuntime (try_close_with_handshake env side fuel code w)
        (close_connection env side)
        (Ends-last IsClosed (send_close_message env side code w)
          (λ sent. reply sent >> close_connection env side)
          (λ sent v.
            Ends-last IsClosed (reply sent v) (λ _. close_connection env side)
              (λ a u.
                Ends-anyway IsClosed IsRuntime (close_connection env side u)
                  (close_connection-IsClosed side u))))
        (close_connection-IsClosed side)
