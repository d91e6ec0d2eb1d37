-- ===== src/BaseSocket/Write.antt =====
-- The loop of `BaseSocket::write`.
use librcom.Base.{
  ℕ, zero, suc, ◌+◌, ◌≤◌, ◌<◌, ◌≡◌, sym, ap, ◌∙◌, arith, Bool, true, false, Option, none, some, [],
  ◌∷◌, ◌++◌, append-nil, append_assoc, lt→ltb, length, take, drop, take-append-drop, take_add,
  length-drop, Bytes,
}
use librcom.BaseSocket.{Linux, Signed, plus, minus, write_round, write_loop, write}

module _ {S A : Type 0} (linux : Linux S A) (fd : ℕ) where
  -- What send(2) documents: it has sent the first `n` bytes, or none where it returns -1.
  abbrev pub Accepts : (S → Bytes) → Bytes → S → Signed × S → Type 0
  Accepts outgoing bytes s (plus n, s') =
      (n ≤ length bytes) × (outgoing s' ≡ outgoing s ++ take n bytes)
  Accepts outgoing bytes s (minus k, s') = outgoing s' ≡ outgoing s

  pub record IsKernelSink : Type 0 where
    pub outgoing : S → Bytes
    pub accepts : (bytes : Bytes) (s : S) → Accepts outgoing bytes s (linux.send fd bytes s)

  module _ (kernel : IsKernelSink) where
    open kernel use {outgoing, accepts}

    -- `write` of these bytes has come back, having sent the first `k` of them: all, where it
    -- answers true, and not all, where it answers false.
    abbrev pub Writes : Bytes → S → Option (Bool × S) → Type 0
    Writes unsent s none = ⊥
    Writes unsent s (some (true, s')) = outgoing s' ≡ outgoing s ++ unsent
    Writes unsent s (some (false, s')) =
        (k : ℕ) × (k < length unsent) × (outgoing s' ≡ outgoing s ++ take k unsent)

    -- What a later part has written, seen from before the first `m` bytes.
    Writes-append :
        (m : ℕ) (unsent : Bytes) (s s1 : S) (r : Option (Bool × S))
        → m ≤ length unsent
        → outgoing s1 ≡ outgoing s ++ take m unsent
        → Writes (drop m unsent) s1 r
        → Writes unsent s r
    Writes-append m unsent s s1 none fits e w = w
    Writes-append m unsent s s1 (some (true, s')) fits e w =
        w
        ∙ ap (λ t. t ++ drop m unsent) e
        ∙ append_assoc (outgoing s) (take m unsent) (drop m unsent)
        ∙ ap (λ t. outgoing s ++ t) (take-append-drop m unsent)
    Writes-append m unsent s s1 (some (false, s')) fits e (k, less, w) = (
      m + k,
      omega (arith, length-drop m unsent),
      w
          ∙ ap (λ t. t ++ take k (drop m unsent)) e
          ∙ append_assoc (outgoing s) (take m unsent) (take k (drop m unsent))
          ∙ ap (λ t. outgoing s ++ t) (take_add m k unsent),
    )

    write_round_lem :
        (again : Bytes → S → Option (Bool × S)) (unsent : Bytes) (s : S) (a : Signed × S)
        → 0 < length unsent
        → Accepts outgoing unsent s a
        → ((n : ℕ) (s1 : S) → Writes (drop (suc n) unsent) s1 (again (drop (suc n) unsent) s1))
        → Writes unsent s (write_round linux again unsent a)
    unfolding write_round
    write_round_lem again unsent s (minus k, s1) pos h more =
        (0, pos, h ∙ sym (append-nil (outgoing s)))
    write_round_lem again unsent s (plus zero, s1) pos h more = (0, pos, h.1)
    write_round_lem again unsent s (plus (suc n), s1) pos h more =
        Writes-append (suc n) unsent s s1 (again (drop (suc n) unsent) s1) h.0 h.1 (more n s1)

    write_loop_lem :
        (fuel : ℕ) (unsent : Bytes) (s : S)
        → length unsent ≤ fuel
        → Writes unsent s (write_loop linux fuel fd unsent s)
    unfolding write_loop
    write_loop_lem zero [] s h = sym (append-nil (outgoing s))
    write_loop_lem zero (b ∷ unsent) s h = absurd (omega arith)
    write_loop_lem (suc fuel) [] s h = sym (append-nil (outgoing s))
    write_loop_lem (suc fuel) (b ∷ unsent) s h =
        let all = b ∷ unsent in
        rw (lt→ltb 0 (length all) (omega arith), Writes)
          (write_round_lem (write_loop linux fuel fd) all s (linux.send fd all s) (omega arith)
            (accepts all s)
            (λ n s1.
              write_loop_lem fuel (drop (suc n) all) s1 (omega (arith, length-drop n unsent))))

    -- `write` comes back, however much the kernel takes at a time. Where it answers true, the
    -- whole buffer has been sent in its order; where it answers false, a first part of it, short
    -- of the whole, and nothing else.
    pub write-Writes : (buffer : Bytes) (s : S) → Writes buffer s (write linux fd buffer s)
    unfolding write
    write-Writes buffer s = write_loop_lem (length buffer) buffer s (omega arith)
