-- ===== src/BaseSocket/Read.antt =====
-- The loop of `BaseSocket::read`.
use librcom.Base.{
  ℕ, zero, suc, ◌+◌, ◌-◌, ◌%◌, ◌≤◌, ◌<◌, ◌≡◌, refl, sym, ap, ◌∙◌, arith, Bool, true, Option, some,
  [], ◌∷◌, ◌++◌, append-nil, append_assoc, lt→ltb, le→ltb, length, length-append, take, drop,
  append-prefix, take_all, drop_all, take-append-drop, length-take, length-drop, Bytes,
}
use librcom.BaseSocket.{Linux, RecvAnswer, stored, failed, size_mod, read_round, read_loop, read}

module _ {S A : Type 0} (linux : Linux S A) (fd : ℕ) where
  -- What recv(2) documents for a stream on which no error occurs: a call for `n` bytes blocks until
  -- there are some, and stores the first of them, at most `n`.
  pub record Delivery (before : Bytes) (n : ℕ) (r : RecvAnswer × S) (after : S → Bytes)
      : Type 0 where
    pub bytes : Bytes
    pub bytes_nonempty : 0 < length bytes
    pub bytes_fit : length bytes ≤ n
    pub answer : r.0 ≡ stored bytes
    pub in_order : before ≡ bytes ++ after r.1

  pub record IsKernelStream : Type 0 where
    pub incoming : S → Bytes
    pub deliver :
        (n : ℕ) (s : S)
        → 0 < n
        → 0 < length (incoming s)
        → Delivery (incoming s) n (linux.recv fd n s) incoming

  -- An error of the first `recv` of a `read` of 1 to 2^64 - 1 bytes, for which it returns -1, is
  -- taken for a success: `read` answers true, and no byte has been stored.
  pub read-recv_error :
      (fuel len : ℕ) (s s' : S)
      → 0 < len
      → len < size_mod
      → linux.recv fd len s ≡ (failed zero, s')
      → read linux (suc (suc fuel)) fd len s ≡ some ((true, []), s')
  unfolding read read_loop read_round
  read-recv_error fuel len s s' pos fits e =
      let whole : len - 0 ≡ len = omega arith in
      rw (lt→ltb 0 len pos, whole, e, le→ltb (size_mod - 1) len (omega arith)) refl

  read_round-stored :
      (again : ℕ → Bytes → S → Option ((Bool × Bytes) × S)) (received : ℕ) (buffer bs : Bytes)
      (s : S)
      → length buffer ≡ received
      → received + length bs < size_mod
      → 0 < length bs
      → read_round linux again received buffer (stored bs, s)
        ≡ again (received + length bs) (buffer ++ bs) s
  unfolding read_round
  read_round-stored again received buffer [] s e fits pos = absurd (omega arith)
  read_round-stored again received buffer (b ∷ bs) s e fits pos =
      let size : (received + suc (length bs)) % size_mod ≡ received + suc (length bs) =
        omega arith in
      let kept : take received buffer ≡ buffer = take_all received buffer (omega arith) in
      let behind : drop (received + suc (length bs)) buffer ≡ [] =
        drop_all (received + suc (length bs)) buffer (omega arith) in
      rw (size, kept, behind, append-nil) refl

  module _ (kernel : IsKernelStream) where
    open kernel use {incoming, deliver}

    read_loop_lem :
        (fuel len received : ℕ) (buffer want rest : Bytes) (s : S)
        → len < size_mod
        → length buffer ≡ received
        → received + length want ≡ len
        → length want ≤ fuel
        → incoming s ≡ want ++ rest
        → (s' : S) × (read_loop linux fuel fd len received buffer s
            ≡ some ((true, buffer ++ want), s'))
          × (incoming s' ≡ rest)
    unfolding read_loop
    read_loop_lem zero len received buffer [] rest s fits at_end total enough p =
        (s, rw (le→ltb received len (omega arith), append-nil) refl, p)
    read_loop_lem zero len received buffer (b ∷ want) rest s fits at_end total enough p =
        absurd (omega arith)
    read_loop_lem (suc fuel) len received buffer [] rest s fits at_end total enough p =
        (s, rw (le→ltb received len (omega arith), append-nil) refl, p)
    read_loop_lem (suc fuel) len received buffer (b ∷ want) rest s fits at_end total enough p =
        let all = b ∷ want in
        let there : 0 < length (incoming s) = rw p (omega arith) in
        let d = deliver (len - received) s (omega arith) there in
        let r = linux.recv fd (len - received) s in
        let (first, second) =
          append-prefix d.bytes (incoming r.1) all rest (sym (d.in_order) ∙ p)
            (omega (arith, d.bytes_fit)) in
        let left = drop (length d.bytes) all in
        let n = length d.bytes in
        let (s', others, end) =
          read_loop_lem fuel len (received + n) (buffer ++ d.bytes) left rest r.1 fits
            (omega (arith, length-append buffer d.bytes))
            (omega (arith, length-drop n all, d.bytes_fit))
            (omega (arith, length-drop n all, d.bytes_nonempty)) second in
        (
          s',
          rw (lt→ltb received len (omega arith)) (
              ap (λ a. read_round linux (read_loop linux fuel fd len) received buffer (a, r.1))
                d.answer
              ∙ read_round-stored (read_loop linux fuel fd len) received buffer d.bytes r.1 at_end
                  (omega (arith, d.bytes_fit)) d.bytes_nonempty
              ∙ others
              ∙ ap (λ t. some ((true, t), s'))
                  (append_assoc buffer d.bytes left ∙ ap (λ t. buffer ++ t) (sym first))),
          end,
        )

    -- Where the kernel reports no error, gives at least one byte at a time, and has enough to
    -- give, `read` of less than 2^64 bytes comes back, however the kernel cuts the stream: it
    -- answers true, has stored the next `len` bytes of the stream in their order, and has taken no
    -- byte more.
    pub read-take :
        (len : ℕ) (s : S)
        → len < size_mod
        → len ≤ length (incoming s)
        → (s' : S) × (read linux len fd len s ≡ some ((true, take len (incoming s)), s'))
          × (incoming s' ≡ drop len (incoming s))
    unfolding read
    read-take len s fits enough =
        read_loop_lem len len 0 [] (take len (incoming s)) (drop len (incoming s)) s fits refl
          (omega (arith, length-take len (incoming s)))
          (omega (arith, length-take len (incoming s))) (sym (take-append-drop len (incoming s)))
