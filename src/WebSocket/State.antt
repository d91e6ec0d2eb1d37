-- ===== src/WebSocket/State.antt =====
-- The state of `class WebSocket` (librcom/include/rcom/WebSocket.h) and the exceptions of its
-- methods. Each method is a function from the state to an outcome and the state after it, which an
-- exception leaves as the statements before it made it.
use mathlib.Core.Path.{fun_ext}
use librcom.Base.{ℕ, ◌≡◌, refl, ap, Bool, Bytes}
use librcom.Frame.{FrameHeader}

-- What is thrown: `RecvError` with its close code, or `std::runtime_error`.
pub data Exception : Type 0 where
  recv_error : ℕ → Exception
  runtime_error : Exception

-- `out_of_fuel` is no behaviour of the code: a loop of the model was given too few rounds.
pub data Outcome (A : Type 0) : Type 0 where
  ok : A → Outcome A
  throws : Exception → Outcome A
  out_of_fuel : Outcome A

-- `message` is the buffer that the caller of `recv` passes by reference. `input_mask` is the field
-- of the server's class, `output_mask` that of the client's.
pub record WebSocket (S : Type 0) : Type 0 where
  pub socket : S
  pub output_message_buffer : Bytes
  pub input_payload_buffer : Bytes
  pub frame_header : FrameHeader
  pub is_text : Bool
  pub is_continuation : Bool
  pub remote_close_reason : ℕ
  pub input_message_length : ℕ
  pub input_mask : Bytes
  pub output_mask : Bytes
  pub message : Bytes

-- The two classes that derive from it.
pub data Side : Type 0 where
  server client : Side

abbrev pub M : Type 0 → Type 0 → Type 0
M S A = WebSocket S → Outcome A × WebSocket S

module _ {S : Type 0} where
  abbrev pub pure : {A : Type 0} → A → M S A
  pure a w = (ok a, w)

  abbrev pub throw : {A : Type 0} → Exception → M S A
  throw e w = (throws e, w)

  abbrev pub diverge : {A : Type 0} → M S A
  diverge w = (out_of_fuel, w)

  -- What follows a method that has ended in this way.
  abbrev pub next : {A B : Type 0} → Outcome A × WebSocket S → (A → M S B) → Outcome B × WebSocket S
  next (ok a, w) f = f a w
  next (throws e, w) f = (throws e, w)
  next (out_of_fuel, w) f = (out_of_fuel, w)

  infixl 5 ◌>>=◌ ◌>>◌
  abbrev pub ◌>>=◌ : {A B : Type 0} → M S A → (A → M S B) → M S B
  ◌>>=◌ m f w = next (m w) f

  abbrev pub ◌>>◌ : {B : Type 0} → M S (Unit {0}) → M S B → M S B
  m >> k = m >>= λ _. k

  abbrev pub gets : {A : Type 0} → (WebSocket S → A) → M S A
  gets f w = (ok (f w), w)

  abbrev pub modify : (WebSocket S → WebSocket S) → M S (Unit {0})
  modify f w = (ok tt, f w)

  -- An operation on the outside world alone.
  abbrev pub outside : {A : Type 0} → (S → A × S) → M S A
  outside f w = let (a, s) = f w.socket in (ok a, record w { socket = s })

  -- A statement that ends well hands its result and its state to the next.
  pub >>=-ok :
      {A B : Type 0} (m : M S A) (f : A → M S B) {a : A} {w w' : WebSocket S}
      → m w ≡ (ok a, w')
      → (m >>= f) w ≡ f a w'
  >>=-ok m f e = ap (λ r. next r f) e

  -- One that throws ends the block.
  pub >>=-throws :
      {A B : Type 0} (m : M S A) (f : A → M S B) {e : Exception} {w w' : WebSocket S}
      → m w ≡ (throws e, w')
      → (m >>= f) w ≡ (throws e, w')
  >>=-throws m f e = ap (λ r. next r f) e

  next-pure : (r : Outcome (Unit {0}) × WebSocket S) → next r (λ _. pure tt) ≡ r
  next-pure (ok a, w) = refl
  next-pure (throws e, w) = refl
  next-pure (out_of_fuel, w) = refl

  -- A last statement that does nothing may be left out.
  pub >>-pure : (m : M S (Unit {0})) → (m >> pure tt) ≡ m
  >>-pure m = fun_ext λ w. next-pure (m w)
