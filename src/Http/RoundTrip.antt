-- ===== src/Http/RoundTrip.antt =====
-- The parser of requests reads back what is written in the usual form.
use librcom.Base.{
  ℕ, ◌+◌, ◌≤◌, ◌<◌, ◌≡◌, ◌≢◌, refl, ap, ◌∙◌, arith, [], ◌∷◌, ◌++◌, append-nil, append_assoc, le→ltb,
  length, length-append, All, Bytes, codes, equal,
}
use librcom.Http.Characters.{is_valid_version_char, strchr}
use librcom.Http.Parser.{
  request_method, request_uri, header_start, body, HttpParser, Parsed, ok, handle_char, handle_in,
  handle_chars, skip_spaces, expect_lf, in_request_method, in_request_uri, in_request_version,
}
use librcom.Http.Request.{Request, Headers, get_method, new_request}
use librcom.Http.RequestParser.{set_method, set_uri, set_version, add_header, request_methods}
use librcom.Http.Lines.{IsWritable, header_lines, ne→==, put_headers, run-header_lines}

abbrev run : Bytes → HttpParser Request → Parsed Request
run = handle_chars request_methods

-- A path that can be written: 1 to 2048 bytes, none of them a space.
pub record IsUri (uri : Bytes) : Type 0 where
  pub uri_nonempty : 0 < length uri
  pub uri_fits : length uri ≤ 2048
  pub uri_no_space : All (λ c. c ≢ b' ') uri

-- "GET uri HTTP/1.1\r\n", the headers, "\r\n"
abbrev pub request_text : Bytes → Headers → Bytes
request_text uri headers =
    codes "GET " ++ (uri ++ (codes " HTTP/1.1\r\n" ++ header_lines headers (codes "\r\n")))

run-uri :
    (cs rest : Bytes) (p : HttpParser Request)
    → All (λ c. c ≢ b' ') cs
    → length p.buffer + length cs ≤ 2049
    → run (cs ++ rest) (record p { state = request_uri })
      ≡ run rest (record p { state = request_uri; buffer = p.buffer ++ cs })
unfolding handle_chars handle_char handle_in in_request_uri
run-uri [] rest p h fits = rw append-nil refl
run-uri (c ∷ cs) rest p h fits =
    rw (le→ltb 2048 (length p.buffer) (omega arith), ne→== c b' ' h.0)
      (run-uri cs rest (record p { buffer = p.buffer ++ c ∷ [] }) h.1
          (omega (arith, length-append p.buffer (c ∷ [])))
        ∙ ap (λ t. run rest (record p { state = request_uri; buffer = t }))
            (append_assoc p.buffer (c ∷ []) cs))

-- From the end of the path to the headers.
run-version :
    (rest : Bytes) (p : HttpParser Request)
    → length p.buffer ≤ 2048
    → run (codes " HTTP/1.1\r\n" ++ rest) (record p { state = request_uri })
      ≡ run rest (record p {
        state = header_start;
        buffer = codes "HTTP/1.1";
        target = record (p.target) { uri = p.buffer };
      })
unfolding handle_chars handle_char handle_in in_request_uri in_request_version skip_spaces expect_lf
    set_uri set_version equal is_valid_version_char strchr
run-version rest p fits = rw (le→ltb 2048 (length p.buffer) fits) refl

-- How a request takes its headers.
abbrev put_header : Bytes × Bytes → Request → Request
put_header h r = record r { headers = r.headers ++ h ∷ [] }

puts_header :
    (p : HttpParser Request)
    → add_header p ≡ ok (record p { target = put_header (p.name, p.buffer) p.target })
unfolding add_header
puts_header p = refl

put_headers-append :
    (hs : Headers) (r : Request)
    → put_headers request_methods put_header puts_header hs r
      ≡ record r { headers = r.headers ++ hs }
unfolding put_headers
put_headers-append [] r = rw append-nil refl
put_headers-append (h ∷ hs) r =
    put_headers-append hs (put_header h r)
    ∙ ap (λ t. record r { headers = t }) (append_assoc r.headers (h ∷ []) hs)

abbrev pub new_parser : HttpParser Request
new_parser = record { state = request_method; buffer = []; name = []; target = new_request }

-- From the start to the second character of the path.
run-method :
    (c : ℕ) (rest : Bytes)
    → c ≢ b' '
    → run (codes "GET " ++ c ∷ rest) new_parser
      ≡ run rest (record new_parser {
        state = request_uri;
        buffer = c ∷ [];
        target = record new_request { method = get_method };
      })
unfolding handle_chars handle_char handle_in in_request_method skip_spaces set_method equal
run-method c rest no_space = rw (ne→== c b' ' no_space) refl

-- A request of the usual form is read back: the parser comes to the body exactly at the end of the
-- text, with the method GET, the path, and all the headers in their order.
pub parse-request_text :
    (uri : Bytes) (headers : Headers)
    → IsUri uri
    → All IsWritable headers
    → (q : HttpParser Request) × (run (request_text uri headers) new_parser ≡ ok q)
      × (q.state ≡ body)
      × (q.target ≡ record { method = get_method; uri = uri; headers = headers })
parse-request_text [] headers u h = absurd (omega (arith, u.uri_nonempty))
parse-request_text (c ∷ uri) headers u h =
    let lines = header_lines headers (codes "\r\n") in
    let got : Request = record new_request { method = get_method } in
    let first = record new_parser { state = request_uri; buffer = c ∷ []; target = got } in
    let second = record first { buffer = c ∷ uri } in
    let third = record first { buffer = codes "HTTP/1.1"; target = record got { uri = c ∷ uri } } in
    let (q, read, at_body, filled) =
      run-header_lines request_methods put_header puts_header headers third h in
    (
      q,
      run-method c (uri ++ (codes " HTTP/1.1\r\n" ++ lines)) u.uri_no_space.0
          ∙ run-uri uri (codes " HTTP/1.1\r\n" ++ lines) first u.uri_no_space.1
              (omega (arith, u.uri_fits))
          ∙ run-version lines second u.uri_fits
          ∙ read,
      at_body,
      filled ∙ put_headers-append headers third.target,
    )
