-- ===== src/WebSocket/Payload.antt =====
-- The loops over a payload, block by block, against their results in one go.
use librcom.Base.{
  ℕ, zero, suc, ◌+◌, ◌-◌, ◌≤◌, ◌<◌, ◌≡◌, refl, sym, ap, ◌∙◌, arith, [], ◌∷◌, ◌++◌, append-nil,
  append_assoc, inl, inr, min, lt→ltb, le→ltb, length, take, drop, length-append, length-take,
  length-drop, take-append-drop, take-length_append, drop-length_append, take_all, take_cases,
  drop_all, Bytes,
}
use librcom.Env.{Env, IsStream}
use librcom.Frame.{apply_mask}
use librcom.Frame.Mask.{apply_mask-append, apply_mask-nil}
use librcom.WebSocket.Input.{socket_read, input_append_payload, input_read_payload_loop}
use librcom.WebSocket.Output.{mask_blocks}
use librcom.WebSocket.State.{Side, server, client, WebSocket, ok, >>=-ok}

-- Masking goes block by block.
apply_mask-blocks :
    (mask xs : Bytes)
    → apply_mask mask (take 1024 xs) ++ apply_mask mask (drop 1024 xs) ≡ apply_mask mask xs
apply_mask-blocks mask xs = elim (take_cases 1024 xs) [
  | inl short ↦
      rw (take_all 1024 xs short, drop_all 1024 xs short, apply_mask-nil mask, append-nil) refl
  | inr block ↦
      sym (apply_mask-append 256 mask (take 1024 xs) (drop 1024 xs) block)
      ∙ ap (apply_mask mask) (take-append-drop 1024 xs)
]

-- The client's loop masks as one pass over the whole payload would.
pub mask_blocks-apply_mask :
    (fuel : ℕ) (mask input : Bytes)
    → length input ≤ fuel
    → mask_blocks fuel mask input ≡ apply_mask mask input
unfolding mask_blocks
mask_blocks-apply_mask zero mask [] h = sym (apply_mask-nil mask)
mask_blocks-apply_mask zero mask (b ∷ input) h = absurd (omega arith)
mask_blocks-apply_mask (suc fuel) mask [] h = sym (apply_mask-nil mask)
mask_blocks-apply_mask (suc fuel) mask (b ∷ input) h =
    rw (lt→ltb 0 (suc (length input)) (omega arith)) (
      ap (λ t. apply_mask mask (take 1024 (b ∷ input)) ++ t)
        (mask_blocks-apply_mask fuel mask (drop 1024 (b ∷ input))
          (omega (arith, length-drop 1023 input)))
      ∙ apply_mask-blocks mask (b ∷ input))

-- The payload that a side makes of the bytes on the wire.
abbrev pub unmasked : Side → Bytes → Bytes → Bytes
unmasked server mask raw = apply_mask mask raw
unmasked client mask raw = raw

pub unmasked-blocks :
    (side : Side) (mask xs : Bytes)
    → unmasked side mask (take 1024 xs) ++ unmasked side mask (drop 1024 xs) ≡ unmasked side mask xs
unmasked-blocks server mask xs = apply_mask-blocks mask xs
unmasked-blocks client mask xs = take-append-drop 1024 xs

pub unmasked-nil : (side : Side) (mask : Bytes) → unmasked side mask [] ≡ []
unmasked-nil server mask = apply_mask-nil mask
unmasked-nil client mask = refl

input_append_payload_lem :
    {S : Type 0} (side : Side) (received : Bytes) (w : WebSocket S)
    → input_append_payload side received w ≡ (
      ok tt,
      record w {
        input_payload_buffer = w.input_payload_buffer ++ unmasked side w.input_mask received;
      },
    )
unfolding input_append_payload
input_append_payload_lem server received w = refl
input_append_payload_lem client received w = refl

module _ {S : Type 0} (env : Env S) (stream : IsStream env.socket) where
  open stream use {pending, advance, read_enough, pending-advance}

  pub socket_read_prefix :
      (xs rest : Bytes) (w : WebSocket S)
      → pending w.socket ≡ xs ++ rest
      → (socket_read env (length xs) w
          ≡ (ok xs, record w { socket = advance (length xs) w.socket }))
        × (pending (advance (length xs) w.socket) ≡ rest)
  unfolding socket_read
  socket_read_prefix xs rest w e = (
    rw
        (
          read_enough (length xs) w.socket (rw e (omega (arith, length-append xs rest))),
          e,
          take-length_append xs rest,
        )
        refl,
    rw (pending-advance, e) (drop-length_append xs rest),
  )

  -- One round of the loop reads the first block.
  input_read_payload_round :
      (side : Side) (fuel processed total : ℕ) (raw rest : Bytes) (w : WebSocket S)
      → processed + length raw ≡ total
      → 0 < length raw
      → pending w.socket ≡ raw ++ rest
      → (s : S) × (input_read_payload_loop env side (suc fuel) processed total w
          ≡ input_read_payload_loop env side fuel
              (processed + length (take 1024 raw))
              total
              (record w {
                socket = s;
                input_payload_buffer =
                    w.input_payload_buffer ++ unmasked side w.input_mask (take 1024 raw);
              }))
        × (pending s ≡ drop 1024 raw ++ rest)
  unfolding input_read_payload_loop
  input_read_payload_round side fuel processed total raw rest w e h p =
      let size : min (total - processed) 1024 ≡ length (take 1024 raw) =
        omega (arith, length-take 1024 raw) in
      let (read, after) = socket_read_prefix (take 1024 raw) (drop 1024 raw ++ rest) w (
        p
        ∙ ap (λ t. t ++ rest) (sym (take-append-drop 1024 raw))
        ∙ append_assoc (take 1024 raw) (drop 1024 raw) rest) in
      (
        advance (length (take 1024 raw)) w.socket,
        rw (lt→ltb processed total (omega arith), size)
            (>>=-ok (socket_read env (length (take 1024 raw))) _ read
              ∙ >>=-ok (input_append_payload side (take 1024 raw)) _
                  (input_append_payload_lem side (take 1024 raw) _)),
        after,
      )

  -- Whatever way the payload is cut into blocks, the buffer ends up with all of it, unmasked.
  pub input_read_payload_loop_lem :
      (side : Side) (fuel processed total : ℕ) (raw rest : Bytes) (w : WebSocket S)
      → processed + length raw ≡ total
      → length raw ≤ fuel
      → pending w.socket ≡ raw ++ rest
      → (s : S) × (input_read_payload_loop env side fuel processed total w ≡ (
        ok tt,
        record w {
          socket = s;
          input_payload_buffer = w.input_payload_buffer ++ unmasked side w.input_mask raw;
        },
      ))
        × (pending s ≡ rest)
  unfolding input_read_payload_loop
  input_read_payload_loop_lem side zero processed total [] rest w e h p = (
    w.socket,
    rw (le→ltb processed total (omega arith), unmasked-nil side w.input_mask, append-nil) refl,
    p,
  )
  input_read_payload_loop_lem side zero processed total (b ∷ raw) rest w e h p =
      absurd (omega arith)
  input_read_payload_loop_lem side (suc fuel) processed total [] rest w e h p = (
    w.socket,
    rw (le→ltb processed total (omega arith), unmasked-nil side w.input_mask, append-nil) refl,
    p,
  )
  input_read_payload_loop_lem side (suc fuel) processed total (b ∷ raw) rest w e h p =
      let all = b ∷ raw in
      let (s, round, after) =
        input_read_payload_round side fuel processed total all rest w e (omega arith) p in
      let (s', others, done) =
        input_read_payload_loop_lem side fuel (processed + length (take 1024 all)) total
          (drop 1024 all) rest
          (record w {
            socket = s;
            input_payload_buffer =
                w.input_payload_buffer ++ unmasked side w.input_mask (take 1024 all);
          })
          (omega (arith, length-take 1024 all, length-drop 1024 all))
          (omega (arith, length-drop 1023 raw)) after in
      (
        s',
        round
            ∙ others
            ∙ ap (λ t. (ok tt, record w { socket = s'; input_payload_buffer = t }))
                (append_assoc w.input_payload_buffer (unmasked side w.input_mask (take 1024 all))
                    (unmasked side w.input_mask (drop 1024 all))
                  ∙ ap (λ t. w.input_payload_buffer ++ t) (unmasked-blocks side w.input_mask all)),
        done,
      )
