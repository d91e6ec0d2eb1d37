-- ===== src/Handshake/ResponseRoundTrip.antt =====
-- The parser of responses reads back the response of the server.
use librcom.Base.{◌≡◌, refl, ap, ◌∙◌, [], ◌∷◌, ◌++◌, append-nil, append_assoc, Bytes, codes, equal}
use librcom.Http.Parser.{
  response_version, header_start, body, HttpParser, ok, handle_char, handle_in, handle_chars,
  skip_spaces, expect_lf, in_response_version, in_response_code, in_response_reason,
}
use librcom.Http.Request.{Headers}
use librcom.Http.Response.{Response, new_response}
use librcom.Http.ResponseParser.{
  set_response_version, set_code, strtol, add_response_header, response_methods,
}
use librcom.Http.Lines.{header_lines, put_headers, run-header_lines}
use librcom.Handshake.Texts.{IsPlain, response_headers, response_text, response_headers-IsWritable}

-- How a response takes its headers.
abbrev put_header : Bytes × Bytes → Response → Response
put_header h r = record r { headers = r.headers ++ h ∷ [] }

puts_header :
    (p : HttpParser Response)
    → add_response_header p ≡ ok (record p { target = put_header (p.name, p.buffer) p.target })
unfolding add_response_header
puts_header p = refl

put_headers-append :
    (hs : Headers) (r : Response)
    → put_headers response_methods put_header puts_header hs r
      ≡ record r { headers = r.headers ++ hs }
unfolding put_headers
put_headers-append [] r = rw append-nil refl
put_headers-append (h ∷ hs) r =
    put_headers-append hs (put_header h r)
    ∙ ap (λ t. record r { headers = t }) (append_assoc r.headers (h ∷ []) hs)

abbrev pub new_response_parser : HttpParser Response
new_response_parser = record {
  state = response_version;
  buffer = [];
  name = [];
  target = new_response;
}

-- The status line.
run-status_line :
    (rest : Bytes)
    → handle_chars response_methods
        (codes "HTTP/1.1 101 Switching Protocols\r\n" ++ rest)
        new_response_parser
      ≡ handle_chars response_methods rest (record new_response_parser {
        state = header_start;
        buffer = codes "Switching Protocols";
        target = record { code = 101; headers = [] };
      })
unfolding handle_chars handle_char handle_in in_response_version in_response_code in_response_reason
    skip_spaces expect_lf set_response_version set_code strtol equal
run-status_line rest = refl

-- The parser comes to the body exactly at the end of the text.
pub parse-response_text :
    (accept : Bytes)
    → IsPlain accept
    → (q : HttpParser Response) × (handle_chars response_methods
          (response_text accept)
          new_response_parser
        ≡ ok q)
      × (q.state ≡ body)
      × (q.target ≡ record { code = 101; headers = response_headers accept })
parse-response_text accept h =
    let headers = response_headers accept in
    let after : HttpParser Response = record new_response_parser {
      state = header_start;
      buffer = codes "Switching Protocols";
      target = record { code = 101; headers = [] };
    } in
    let (q, read, at_body, filled) =
      run-header_lines response_methods put_header puts_header headers after
        (response_headers-IsWritable accept h) in
    (
      q,
      run-status_line (header_lines headers (codes "\r\n")) ∙ read,
      at_body,
      filled ∙ put_headers-append headers after.target,
    )
