-- ===== src/Http/Parser.antt =====
-- `class HttpParser` (librcom/include/rcom/HttpParser.h, librcom/src/HttpParser.cpp), over the
-- methods that its two derived classes give.
use librcom.Env.{ISocket, WaitStatus, wait_ok, wait_timeout, wait_error, five}
use librcom.Http.Characters.{isupper, isdigit, is_valid_version_char, is_token_character}
use librcom.Base.{
  ℕ, zero, suc, Bool, true, false, not, Option, none, some, [], ◌∷◌, ◌++◌, ltb, ◌==◌, if◌then◌else◌,
  length, Bytes,
}

-- `HttpParser::State`
pub data State : Type 0 where
  request_method request_method_spaces request_uri request_uri_spaces : State
  request_version request_line_lf : State
  response_version response_version_spaces response_code response_code_spaces : State
  response_reason response_reason_lf : State
  header_start header_name header_spaces header_value header_lf : State
  headers_end_lf body error_state : State

-- The texts that `error` is called with.
pub data Error : Type 0 where
  timed_out read_failed : Error
  method_too_long bad_method_char uri_too_long version_too_long bad_version_char : Error
  request_crlf code_too_long bad_code_char reason_too_long status_crlf : Error
  bad_name_char name_too_long cr_before_value value_too_long header_crlf headers_crlf : Error
  invalid_state : Error
  method_not_allowed unsupported_version unexpected_method unexpected_uri : Error
  unexpected_code unexpected_reason invalid_code : Error

abbrev pub max_header_name_length : ℕ
max_header_name_length = 128

abbrev pub max_header_value_length : ℕ
max_header_value_length = 1024

abbrev pub max_uri_length : ℕ
max_uri_length = 2048

-- `target` is the request or response that the derived class fills.
pub record HttpParser (R : Type 0) : Type 0 where
  pub state : State
  pub buffer : Bytes
  pub name : Bytes
  pub target : R

-- `err` is the exception, with the parser that it leaves behind.
pub data Result (A : Type 0) (R : Type 0) : Type 0 where
  ok : A → Result A R
  err : Error → HttpParser R → Result A R

abbrev pub Parsed : Type 0 → Type 0
Parsed R = Result (HttpParser R) R

infixl 5 ◌>>=◌
abbrev pub ◌>>=◌ : {A B R : Type 0} → Result A R → (A → Result B R) → Result B R
ok a >>= f = f a
err e p >>= f = err e p

-- `error`
abbrev pub error : {A R : Type 0} → HttpParser R → Error → Result A R
error p what = err what (record p { state = error_state })

-- The virtual methods, which read the buffer and the name and may call `error`.
pub record Methods (R : Type 0) : Type 0 where
  pub set_method : HttpParser R → Parsed R
  pub set_uri : HttpParser R → Parsed R
  pub set_version : HttpParser R → Parsed R
  pub set_code : HttpParser R → Parsed R
  pub set_reason : HttpParser R → Parsed R
  pub add_header : HttpParser R → Parsed R

module _ {R : Type 0} where
  -- `buffer_.put(c)`
  abbrev pub put : ℕ → HttpParser R → HttpParser R
  put c p = record p { buffer = p.buffer ++ c ∷ [] }

  -- `buffer_.clear(); buffer_.put(c); state_ = s`
  abbrev pub start_with : ℕ → State → HttpParser R → HttpParser R
  start_with c s p = record p { buffer = c ∷ []; state = s }

  abbrev pub goto : State → HttpParser R → HttpParser R
  goto s p = record p { state = s }

  -- The states that skip spaces.
  unfoldable pub skip_spaces : State → ℕ → HttpParser R → Parsed R
  skip_spaces after c p = if c == b' ' then ok p else ok (start_with c after p)

  -- The states that want a line feed.
  unfoldable pub expect_lf : State → Error → ℕ → HttpParser R → Parsed R
  expect_lf after what c p = if c == b'\n' then ok (goto after p) else error p what

abbrev pub is_body : State → Bool
is_body body = true
is_body _ = false

module _ {R : Type 0} (m : Methods R) where
  unfoldable pub in_request_method : ℕ → HttpParser R → Parsed R
  in_request_method c p =
      if ltb 8 (length p.buffer)
      then error p method_too_long
      else if c == b' '
      then (do q ← m.set_method p; ok (goto request_method_spaces q))
      else if isupper c
      then ok (put c p)
      else error p bad_method_char

  unfoldable pub in_request_uri : ℕ → HttpParser R → Parsed R
  in_request_uri c p =
      if ltb max_uri_length (length p.buffer)
      then error p uri_too_long
      else if c == b' '
      then (do q ← m.set_uri p; ok (goto request_uri_spaces q))
      else ok (put c p)

  unfoldable pub in_request_version : ℕ → HttpParser R → Parsed R
  in_request_version c p =
      if c == b'\r'
      then (do q ← m.set_version p; ok (goto request_line_lf q))
      else if ltb 8 (length p.buffer)
      then error p version_too_long
      else if not (is_valid_version_char c)
      then error p bad_version_char
      else ok (put c p)

  unfoldable pub in_response_version : ℕ → HttpParser R → Parsed R
  in_response_version c p =
      if ltb 8 (length p.buffer)
      then error p version_too_long
      else if c == b' '
      then (do q ← m.set_version p; ok (goto response_version_spaces q))
      else ok (put c p)

  unfoldable pub in_response_code : ℕ → HttpParser R → Parsed R
  in_response_code c p =
      if ltb 3 (length p.buffer)
      then error p code_too_long
      else if c == b' '
      then (do q ← m.set_code p; ok (goto response_code_spaces q))
      else if isdigit c
      then ok (put c p)
      else error p bad_code_char

  unfoldable pub in_response_reason : ℕ → HttpParser R → Parsed R
  in_response_reason c p =
      if ltb 128 (length p.buffer)
      then error p reason_too_long
      else if c == b'\r'
      then (do q ← m.set_reason p; ok (goto response_reason_lf q))
      else ok (put c p)

  unfoldable pub in_header_start : ℕ → HttpParser R → Parsed R
  in_header_start c p =
      if c == b'\r'
      then ok (goto headers_end_lf p)
      else if is_token_character c
      then ok (start_with c header_name p)
      else error p bad_name_char

  -- `store_header_name` included.
  unfoldable pub in_header_name : ℕ → HttpParser R → Parsed R
  in_header_name c p =
      if c == b':'
      then ok (record p { name = p.buffer; state = header_spaces })
      else if is_token_character c
      then if ltb (length p.buffer) max_header_name_length
        then ok (put c p)
        else error p name_too_long
      else error p bad_name_char

  unfoldable pub in_header_spaces : ℕ → HttpParser R → Parsed R
  in_header_spaces c p =
      if c == b' '
      then ok p
      else if c == b'\r'
      then error p cr_before_value
      else ok (start_with c header_value p)

  unfoldable pub in_header_value : ℕ → HttpParser R → Parsed R
  in_header_value c p =
      if c == b'\r'
      then (do q ← m.add_header p; ok (goto header_lf q))
      else if ltb (length p.buffer) max_header_value_length
      then ok (put c p)
      else error p value_too_long

  -- The switch of `handle_char`.
  unfoldable pub handle_in : State → ℕ → HttpParser R → Parsed R
  handle_in request_method c p = in_request_method c p
  handle_in request_method_spaces c p = skip_spaces request_uri c p
  handle_in request_uri c p = in_request_uri c p
  handle_in request_uri_spaces c p = skip_spaces request_version c p
  handle_in request_version c p = in_request_version c p
  handle_in request_line_lf c p = expect_lf header_start request_crlf c p
  handle_in response_version c p = in_response_version c p
  handle_in response_version_spaces c p = skip_spaces response_code c p
  handle_in response_code c p = in_response_code c p
  handle_in response_code_spaces c p = skip_spaces response_reason c p
  handle_in response_reason c p = in_response_reason c p
  handle_in response_reason_lf c p = expect_lf header_start status_crlf c p
  handle_in header_start c p = in_header_start c p
  handle_in header_name c p = in_header_name c p
  handle_in header_spaces c p = in_header_spaces c p
  handle_in header_value c p = in_header_value c p
  handle_in header_lf c p = expect_lf header_start header_crlf c p
  handle_in headers_end_lf c p = expect_lf body headers_crlf c p
  handle_in body c p = error p invalid_state
  handle_in error_state c p = error p invalid_state

  unfoldable pub handle_char : ℕ → HttpParser R → Parsed R
  handle_char c p = handle_in p.state c p

  -- All the bytes in turn.
  unfoldable pub handle_chars : Bytes → HttpParser R → Parsed R
  handle_chars [] p = ok p
  handle_chars (c ∷ cs) p = do q ← handle_char c p; handle_chars cs q

  module _ {S : Type 0} (sock : ISocket S) where
    -- What `read_char` does with the answer of `ISocket::read`.
    unfoldable pub read_char_answer : HttpParser R → Option Bytes × S → Parsed R × S
    read_char_answer p (some [], s) = (ok p, s)
    read_char_answer p (some (c ∷ cs), s) = (handle_char c p, s)
    read_char_answer p (none, s) = (error p read_failed, s)

    -- What the loop of `parse` does with the answer of `ISocket::wait`.
    unfoldable pub read_char_waited : HttpParser R → WaitStatus × S → Parsed R × S
    read_char_waited p (wait_ok, s) = read_char_answer p (sock.read 1 s)
    read_char_waited p (wait_timeout, s) = (error p timed_out, s)
    read_char_waited p (wait_error, s) = (error p timed_out, s)

    -- One round of that loop, up to its test.
    unfoldable pub read_char : HttpParser R → S → Parsed R × S
    read_char p s = read_char_waited p (sock.wait five s)

    -- Its test, and how it goes on.
    unfoldable pub parse_round :
        (HttpParser R → S → Option (Parsed R × S)) → Parsed R × S → Option (Parsed R × S)
    parse_round again (err what q, s) = some (err what q, s)
    parse_round again (ok q, s) = elim (is_body q.state) [
      | true ↦ some (ok q, s)
      | false ↦ again q s
    ]

    -- The loop, with the number of rounds at most; `none` where they do not suffice.
    unfoldable pub parse_loop : ℕ → HttpParser R → S → Option (Parsed R × S)
    parse_loop zero p s = none
    parse_loop (suc fuel) p s = parse_round (parse_loop fuel) (read_char p s)

    unfoldable pub parse_request : ℕ → HttpParser R → S → Option (Parsed R × S)
    parse_request fuel p s = parse_loop fuel (record p { state = request_method; buffer = [] }) s

    unfoldable pub parse_response : ℕ → HttpParser R → S → Option (Parsed R × S)
    parse_response fuel p s = parse_loop fuel (record p { state = response_version; buffer = [] }) s
