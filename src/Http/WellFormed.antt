-- ===== src/Http/WellFormed.antt =====
-- The limits that the parser of requests keeps in each of its states.
use librcom.Base.{
  ℕ, zero, suc, ◌≤◌, ◌<◌, ◌≡◌, ◌≢◌, refl, arith, true, Option, none, some, [], ◌∷◌, ◌++◌, length,
  length-append, All, All-append, Bytes, Bool-cases, inl, inr,
}
use librcom.Env.{ISocket, WaitStatus, wait_ok, wait_timeout, wait_error, five}
use librcom.Http.Characters.{is_token_character}
use librcom.Http.Parser.{
  State, request_method, request_method_spaces, request_uri, request_uri_spaces, request_version,
  request_line_lf, header_start, header_name, header_spaces, header_value, header_lf,
  headers_end_lf, body, HttpParser, Parsed, ok, err, skip_spaces, expect_lf, in_request_method,
  in_request_uri, in_request_version, in_header_start, in_header_name, in_header_spaces,
  in_header_value, handle_in, handle_char, is_body, parse_loop, parse_round, read_char,
  read_char_answer, read_char_waited, parse_request,
}
use librcom.Http.Request.{Request, get_method}
use librcom.Http.RequestParser.{set_method, set_uri, set_version, add_header, request_methods}

-- A name of 1 to 128 token characters.
pub record IsName (name : Bytes) : Type 0 where
  pub name_nonempty : 0 < length name
  pub name_fits : length name ≤ 128
  pub name_tokens : All (λ c. is_token_character c ≡ true) name

-- A value of 1 to 1024 characters, none of them a carriage return.
pub record IsValue (value : Bytes) : Type 0 where
  pub value_nonempty : 0 < length value
  pub value_fits : length value ≤ 1024
  pub value_no_cr : All (λ c. c ≢ b'\r') value

abbrev pub IsHeader : Bytes × Bytes → Type 0
IsHeader h = IsName h.0 × IsValue h.1

-- A request whose line has been read.
pub record IsStarted (r : Request) : Type 0 where
  pub method_is_get : r.method ≡ get_method
  pub headers_ok : All IsHeader r.headers

-- One whose path is known too.
pub record IsAddressed (r : Request) : Type 0 where
  pub started : IsStarted r
  pub uri_nonempty : 0 < length r.uri
  pub uri_fits : length r.uri ≤ 2048

-- What holds of the buffer, the name and the request in each state.
abbrev pub InState : State → Bytes → Bytes → Request → Type 0
InState request_method buffer name r = (length buffer ≤ 9) × All IsHeader r.headers
InState request_method_spaces buffer name r = IsStarted r
InState request_uri buffer name r = IsStarted r × (0 < length buffer) × (length buffer ≤ 2049)
InState request_uri_spaces buffer name r = IsAddressed r
InState request_version buffer name r = IsAddressed r × (length buffer ≤ 9)
InState request_line_lf buffer name r = IsAddressed r
InState header_start buffer name r = IsAddressed r
InState header_name buffer name r = IsAddressed r × IsName buffer
InState header_spaces buffer name r = IsAddressed r × IsName name
InState header_value buffer name r = IsAddressed r × IsName name × IsValue buffer
InState header_lf buffer name r = IsAddressed r
InState headers_end_lf buffer name r = IsAddressed r
InState body buffer name r = IsAddressed r
InState _ buffer name r = ⊥

abbrev pub IsWellFormed : HttpParser Request → Type 0
IsWellFormed p = InState p.state p.buffer p.name p.target

abbrev pub Keeps : Parsed Request → Type 0
Keeps (ok q) = IsWellFormed q
Keeps (err what q) = Unit

-- The parser in a state that is written out, so that the limits of the state compute.
abbrev at : State → HttpParser Request → HttpParser Request
at s p = record p { state = s }

IsName-put :
    (buffer : Bytes) (c : ℕ)
    → IsName buffer
    → length buffer < 128
    → is_token_character c ≡ true
    → IsName (buffer ++ c ∷ [])
IsName-put buffer c v fits token = record {
  name_nonempty = omega (arith, length-append buffer (c ∷ []));
  name_fits = omega (arith, length-append buffer (c ∷ []));
  name_tokens = All-append _ buffer (c ∷ []) v.name_tokens (token, tt);
}

IsValue-put :
    (buffer : Bytes) (c : ℕ)
    → IsValue buffer
    → length buffer < 1024
    → c ≢ b'\r'
    → IsValue (buffer ++ c ∷ [])
IsValue-put buffer c v fits no_cr = record {
  value_nonempty = omega (arith, length-append buffer (c ∷ []));
  value_fits = omega (arith, length-append buffer (c ∷ []));
  value_no_cr = All-append _ buffer (c ∷ []) v.value_no_cr (no_cr, tt);
}

in_request_method-Keeps :
    (c : ℕ) (p : HttpParser Request)
    → InState request_method p.buffer p.name p.target
    → Keeps (in_request_method request_methods c (at request_method p))
unfolding in_request_method set_method
in_request_method-Keeps c p h = ground (arith, length-append p.buffer (c ∷ []))

in_request_uri-Keeps :
    (c : ℕ) (p : HttpParser Request)
    → InState request_uri p.buffer p.name p.target
    → Keeps (in_request_uri request_methods c (at request_uri p))
unfolding in_request_uri set_uri
in_request_uri-Keeps c p h = ground (arith, length-append p.buffer (c ∷ []))

in_request_version-Keeps :
    (c : ℕ) (p : HttpParser Request)
    → InState request_version p.buffer p.name p.target
    → Keeps (in_request_version request_methods c (at request_version p))
unfolding in_request_version set_version
in_request_version-Keeps c p h = ground (arith, length-append p.buffer (c ∷ []))

in_header_start-Keeps :
    (c : ℕ) (p : HttpParser Request)
    → InState header_start p.buffer p.name p.target
    → Keeps (in_header_start request_methods c (at header_start p))
unfolding in_header_start
in_header_start-Keeps c p h = ground arith

in_header_name-Keeps :
    (c : ℕ) (p : HttpParser Request)
    → InState header_name p.buffer p.name p.target
    → Keeps (in_header_name request_methods c (at header_name p))
unfolding in_header_name
in_header_name-Keeps c p h = ground (arith, IsName-put p.buffer c h.1)

in_header_spaces-Keeps :
    (c : ℕ) (p : HttpParser Request)
    → InState header_spaces p.buffer p.name p.target
    → Keeps (in_header_spaces request_methods c (at header_spaces p))
unfolding in_header_spaces
in_header_spaces-Keeps c p h = ground arith

in_header_value-Keeps :
    (c : ℕ) (p : HttpParser Request)
    → InState header_value p.buffer p.name p.target
    → Keeps (in_header_value request_methods c (at header_value p))
unfolding in_header_value add_header
in_header_value-Keeps c p h = ground (
  arith,
  IsValue-put p.buffer c h.2,
  All-append IsHeader p.target.headers ((p.name, p.buffer) ∷ []) h.0.started.headers_ok
      ((h.1, h.2), tt),
)

handle_in-Keeps :
    (s : State) (c : ℕ) (p : HttpParser Request)
    → InState s p.buffer p.name p.target
    → Keeps (handle_in request_methods s c (at s p))
unfolding handle_in skip_spaces expect_lf
handle_in-Keeps request_method c p h = in_request_method-Keeps c p h
handle_in-Keeps request_method_spaces c p h = ground arith
handle_in-Keeps request_uri c p h = in_request_uri-Keeps c p h
handle_in-Keeps request_uri_spaces c p h = ground arith
handle_in-Keeps request_version c p h = in_request_version-Keeps c p h
handle_in-Keeps request_line_lf c p h = ground arith
handle_in-Keeps header_start c p h = in_header_start-Keeps c p h
handle_in-Keeps header_name c p h = in_header_name-Keeps c p h
handle_in-Keeps header_spaces c p h = in_header_spaces-Keeps c p h
handle_in-Keeps header_value c p h = in_header_value-Keeps c p h
handle_in-Keeps header_lf c p h = ground arith
handle_in-Keeps headers_end_lf c p h = ground arith
handle_in-Keeps body c p h = tt
handle_in-Keeps _ c p h = absurd h

pub handle_char-Keeps :
    (c : ℕ) (p : HttpParser Request) → IsWellFormed p → Keeps (handle_char request_methods c p)
unfolding handle_char
handle_char-Keeps c p h = handle_in-Keeps p.state c p h

pub is_body→body : (s : State) → is_body s ≡ true → s ≡ body
is_body→body body e = refl
is_body→body _ e = cc

module _ {S : Type 0} (sock : ISocket S) where
  read_char_answer-Keeps :
      (p : HttpParser Request) (a : Option Bytes × S)
      → IsWellFormed p
      → Keeps (read_char_answer request_methods sock p a).0
  unfolding read_char_answer
  read_char_answer-Keeps p (some [], s) h = h
  read_char_answer-Keeps p (some (c ∷ cs), s) h = handle_char-Keeps c p h
  read_char_answer-Keeps p (none, s) h = tt

  read_char_waited-Keeps :
      (p : HttpParser Request) (a : WaitStatus × S)
      → IsWellFormed p
      → Keeps (read_char_waited request_methods sock p a).0
  unfolding read_char_waited
  read_char_waited-Keeps p (wait_ok, s) h = read_char_answer-Keeps p (sock.read 1 s) h
  read_char_waited-Keeps p (wait_timeout, s) h = tt
  read_char_waited-Keeps p (wait_error, s) h = tt

  -- What `parse` answers when it comes back without an exception.
  abbrev Ends : Option (Parsed Request × S) → Type 0
  Ends none = Unit
  Ends (some (err what q, s)) = Unit
  Ends (some (ok q, s)) = (q.state ≡ body) × IsWellFormed q

  parse_round-Ends :
      (again : HttpParser Request → S → Option (Parsed Request × S)) (r : Parsed Request × S)
      → ((q : HttpParser Request) (s : S) → IsWellFormed q → Ends (again q s))
      → Keeps r.0
      → Ends (parse_round request_methods sock again r)
  unfolding parse_round
  parse_round-Ends again (err what q, s) more h = tt
  parse_round-Ends again (ok q, s) more h = elim (Bool-cases (is_body q.state)) [
    | inl done ↦ rw (done, Ends) (is_body→body q.state done, h)
    | inr not_yet ↦ rw (not_yet, Ends) (more q s h)
  ]

  parse_loop-Ends :
      (fuel : ℕ) (p : HttpParser Request) (s : S)
      → IsWellFormed p
      → Ends (parse_loop request_methods sock fuel p s)
  unfolding parse_loop read_char
  parse_loop-Ends zero p s h = tt
  parse_loop-Ends (suc fuel) p s h =
      parse_round-Ends (parse_loop request_methods sock fuel) (read_char request_methods sock p s)
        (parse_loop-Ends fuel) (read_char_waited-Keeps p (sock.wait five s) h)

  -- A request that `parse` accepts, whatever bytes the socket gives and however it gives them, has
  -- the method GET, a path of 1 to 2048 bytes, and headers whose names are 1 to 128 token
  -- characters and whose values are 1 to 1024 bytes with no carriage return, where the request had
  -- only such headers before.
  pub parse_request-IsAddressed :
      (fuel : ℕ) (p q : HttpParser Request) (s s' : S)
      → All IsHeader p.target.headers
      → parse_request request_methods sock fuel p s ≡ some (ok q, s')
      → IsAddressed q.target
  unfolding parse_request
  parse_request-IsAddressed fuel p q s s' h e =
      let start = record p { state = request_method; buffer = [] } in
      let (done, end) = rw e at (parse_loop-Ends fuel start s (omega arith, h)) in rw done at end
