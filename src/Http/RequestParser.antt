-- ===== src/Http/RequestParser.antt =====
-- `class RequestParser` (librcom/src/RequestParser.cpp): what the parser of a request does with
-- the parts of it.
use librcom.Base.{◌++◌, [], ◌∷◌, codes, equal, if◌then◌else◌}
use librcom.Http.Parser.{
  HttpParser, Methods, Parsed, ok, error, method_not_allowed, unsupported_version, unexpected_code,
  unexpected_reason,
}
use librcom.Http.Request.{Request, get_method}

unfoldable pub set_method : HttpParser Request → Parsed Request
set_method p =
    if equal p.buffer (codes "GET")
    then ok (record p { target = record (p.target) { method = get_method } })
    else error p method_not_allowed

unfoldable pub set_uri : HttpParser Request → Parsed Request
set_uri p = ok (record p { target = record (p.target) { uri = p.buffer } })

unfoldable pub set_version : HttpParser Request → Parsed Request
set_version p = if equal p.buffer (codes "HTTP/1.1") then ok p else error p unsupported_version

unfoldable pub add_header : HttpParser Request → Parsed Request
add_header p = ok (record p {
  target = record (p.target) { headers = p.target.headers ++ (p.name, p.buffer) ∷ [] };
})

abbrev pub request_methods : Methods Request
request_methods = record {
  set_method = set_method;
  set_uri = set_uri;
  set_version = set_version;
  set_code = λ p. error p unexpected_code;
  set_reason = λ p. error p unexpected_reason;
  add_header = add_header;
}
