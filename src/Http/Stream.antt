-- ===== src/Http/Stream.antt =====
-- HttpParser.cpp `parse` over a socket: it reads a request to its last byte and no further.
use librcom.Base.{
  ℕ, zero, suc, drop, drop-drop_one, drop-length_append, ◌<◌, ◌≡◌, refl, ◌∙◌, arith, true,
  Bool-cases, inl, inr, some, [], ◌∷◌, ◌++◌, Bytes, length, All,
}
use librcom.Env.{ISocket, IsStream, wait_ok, five}
use librcom.Http.Parser.{
  State, body, HttpParser, Methods, Parsed, ok, err, ◌>>=◌, handle_char, handle_chars, handle_in,
  is_body, read_char, read_char_waited, read_char_answer, parse_round, parse_loop, parse_request,
}
use librcom.Http.Request.{Request, Headers, get_method}
use librcom.Http.RequestParser.{request_methods}
use librcom.Http.WellFormed.{is_body→body}
use librcom.Http.Lines.{IsWritable}
use librcom.Http.RoundTrip.{IsUri, request_text, new_parser, parse-request_text}

-- What ISocket.h says of `wait` when there is something to read.
pub record IsReady {S : Type 0} (sock : ISocket S) (stream : IsStream sock) : Type 0 where
  pub waited : S → S
  pub wait_ready :
      (timeout : ℕ) (s : S)
      → 0 < length (stream.pending s)
      → sock.wait timeout s ≡ (wait_ok, waited s)
  pub pending-waited : (s : S) → stream.pending (waited s) ≡ stream.pending s

body→is_body : (s : State) → s ≡ body → is_body s ≡ true
body→is_body s e = rw e refl

module _ {R : Type 0} (methods : Methods R) where
  -- The parser takes no byte behind the empty line.
  after_body :
      (c : ℕ) (cs : Bytes) (p q : HttpParser R)
      → is_body p.state ≡ true
      → handle_chars methods (c ∷ cs) p ≡ ok q
      → ⊥
  unfolding handle_chars handle_char handle_in
  after_body c cs p q in_body e = cc (rw (is_body→body p.state in_body) at e)

  module _ {S : Type 0} (sock : ISocket S) (stream : IsStream sock)
      (ready : IsReady sock stream) where
    open stream use {pending, advance, read_enough, pending-advance}
    open ready use {waited, wait_ready, pending-waited}

    -- The socket after `n` bytes have been waited for and read.
    unfoldable pub after_reads : ℕ → S → S
    after_reads zero s = s
    after_reads (suc n) s = after_reads n (advance 1 (waited s))

    pub pending-after_reads : (n : ℕ) (s : S) → pending (after_reads n s) ≡ drop n (pending s)
    unfolding after_reads
    pending-after_reads zero s = refl
    pending-after_reads (suc n) s =
        pending-after_reads n (advance 1 (waited s))
        ∙ rw (pending-advance, pending-waited) (drop-drop_one n (pending s))

    read_char_lem :
        (c : ℕ) (rest : Bytes) (p : HttpParser R) (s : S)
        → pending s ≡ c ∷ rest
        → (read_char methods sock p s ≡ (handle_char methods c p, advance 1 (waited s)))
          × (pending (advance 1 (waited s)) ≡ rest)
    unfolding read_char read_char_waited read_char_answer
    read_char_lem c rest p s e =
        let s1 = waited s in
        let same : pending s1 ≡ c ∷ rest = pending-waited s ∙ e in
        (
          rw
              (
                wait_ready five s (rw e (omega arith)),
                read_enough 1 s1 (rw same (omega arith)),
                same,
              )
              refl,
          rw (pending-advance, same) refl,
        )

    step_result :
        (r : Parsed R) (cs : Bytes) (q : HttpParser R)
        → (r >>= handle_chars methods cs) ≡ ok q
        → (p : HttpParser R) × (r ≡ ok p) × (handle_chars methods cs p ≡ ok q)
    step_result (ok p) cs q e = (p, refl, e)
    step_result (err what p) cs q e = absurd (cc e)

    pub parse_loop_lem :
        (cs rest : Bytes) (p q : HttpParser R) (s : S)
        → 0 < length cs
        → handle_chars methods cs p ≡ ok q
        → q.state ≡ body
        → pending s ≡ cs ++ rest
        → parse_loop methods sock (length cs) p s ≡ some (ok q, after_reads (length cs) s)
    unfolding handle_chars parse_loop parse_round after_reads
    parse_loop_lem [] rest p q s pos run in_body e = absurd (omega arith)
    parse_loop_lem (c ∷ []) rest p q s pos run in_body e =
        let (read, after) = read_char_lem c rest p s e in
        let (p1, handled, last) = step_result (handle_char methods c p) [] q run in
        let same : p1 ≡ q = cc last in
        rw (read, handled, same) (rw (body→is_body q.state in_body, parse_round) refl)
    parse_loop_lem (c ∷ d ∷ cs) rest p q s pos run in_body e =
        let (read, after) = read_char_lem c (d ∷ cs ++ rest) p s e in
        let (p1, handled, others) = step_result (handle_char methods c p) (d ∷ cs) q run in
        elim (Bool-cases (is_body p1.state)) [
          | inl done ↦ absurd (after_body d cs p1 q done others)
          | inr not_yet ↦
              let loop =
                parse_loop_lem (d ∷ cs) rest p1 q (advance 1 (waited s)) (omega arith) others
                  in_body after in
              rw (read, handled) (rw (not_yet, parse_round) loop)
        ]

module _ {S : Type 0} (sock : ISocket S) (stream : IsStream sock)
    (ready : IsReady sock stream) where
  open stream use {pending}

  -- A request that is written in the usual form, with any path of 1 to 2048 bytes without a space
  -- and any headers whose names are 1 to 128 token characters and whose values are 1 to 1024 bytes
  -- with no carriage return and no space in front, is parsed from a socket that delivers it and
  -- says when it can be read, in as many rounds as the request has bytes: the parser stops with
  -- its path and its headers in their order, and has not taken a byte of what stands behind it.
  pub parse_request-request_text :
      (uri : Bytes) (headers : Headers) (rest : Bytes) (s : S)
      → IsUri uri
      → All IsWritable headers
      → pending s ≡ request_text uri headers ++ rest
      → (q : HttpParser Request) × (s' : S) × (parse_request request_methods sock
            (length (request_text uri headers))
            new_parser
            s
          ≡ some (ok q, s'))
        × (q.target ≡ record { method = get_method; uri = uri; headers = headers })
        × (pending s' ≡ rest)
  unfolding parse_request
  parse_request-request_text uri headers rest s u h e =
      let (q, run, in_body, target) = parse-request_text uri headers u h in
      let text = request_text uri headers in
      (
        q,
        after_reads request_methods sock stream ready (length text) s,
        parse_loop_lem request_methods sock stream ready text rest new_parser q s (omega arith) run
            in_body e,
        target,
        pending-after_reads request_methods sock stream ready (length text) s
            ∙ rw e (drop-length_append text rest),
      )
