-- ===== src/Http/ResponseParser.antt =====
-- `class ResponseParser` (librcom/src/ResponseParser.cpp): what the parser of a response does with
-- the parts of it.
use librcom.Base.{
  ℕ, ◌+◌, ◌-◌, ◌*◌, ◌&&◌, Option, none, some, ◌++◌, [], ◌∷◌, ltb, leb, Bytes, codes, equal,
  if◌then◌else◌,
}
use librcom.Http.Characters.{isdigit}
use librcom.Http.Parser.{
  HttpParser, Methods, Parsed, ok, error, unsupported_version, unexpected_method, unexpected_uri,
  invalid_code,
}
use librcom.Http.Response.{Response}

-- `strtol` with base 10 on a text, which the parser has checked to hold digits only; `none` where it
-- stops before the end.
unfoldable pub strtol : ℕ → Bytes → Option ℕ
strtol value [] = some value
strtol value (c ∷ cs) = if isdigit c then strtol (value * 10 + (c - b'0')) cs else none

-- What `set_code` does with that number.
abbrev pub set_number : HttpParser Response → Option ℕ → Parsed Response
set_number p none = error p invalid_code
set_number p (some code) =
    if leb 100 code && ltb code 600
    then ok (record p { target = record (p.target) { code = code } })
    else error p invalid_code

unfoldable pub set_code : HttpParser Response → Parsed Response
set_code p = set_number p (strtol 0 p.buffer)

unfoldable pub set_response_version : HttpParser Response → Parsed Response
set_response_version p =
    if equal p.buffer (codes "HTTP/1.1") then ok p else error p unsupported_version

unfoldable pub add_response_header : HttpParser Response → Parsed Response
add_response_header p = ok (record p {
  target = record (p.target) { headers = p.target.headers ++ (p.name, p.buffer) ∷ [] };
})

abbrev pub response_methods : Methods Response
response_methods = record {
  set_method = λ p. error p unexpected_method;
  set_uri = λ p. error p unexpected_uri;
  set_version = set_response_version;
  set_code = set_code;
  set_reason = ok;
  add_header = add_response_header;
}
