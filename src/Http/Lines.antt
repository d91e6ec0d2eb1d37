-- ===== src/Http/Lines.antt =====
-- Header lines, read by HttpParser.cpp for either of its derived classes.
use librcom.Base.{
  ℕ, ◌+◌, ◌≤◌, ◌≡◌, ◌≢◌, refl, ap, ◌∙◌, arith, true, false, [], ◌∷◌, ◌++◌, append-nil, append_assoc,
  ◌==◌, lt→ltb, length, length-append, All, Bytes, codes,
}
use librcom.Http.Characters.{is_token_character, is_separator, strchr}
use librcom.Http.Parser.{
  header_start, header_name, header_value, body, HttpParser, Methods, Parsed, ok, handle_char,
  handle_in, handle_chars, expect_lf, in_header_start, in_header_name, in_header_spaces,
  in_header_value,
}
use librcom.Http.Request.{Headers}
use librcom.Http.WellFormed.{IsName, IsValue}

-- A value that can be written: it does not begin with a space.
abbrev pub NoLeadingSpace : Bytes → Type 0
NoLeadingSpace [] = Unit
NoLeadingSpace (c ∷ s) = c ≢ b' '

abbrev pub IsWritable : Bytes × Bytes → Type 0
IsWritable h = IsName h.0 × IsValue h.1 × NoLeadingSpace h.1

-- "name: value\r\n" for each header, and the bytes behind them.
abbrev pub header_lines : Headers → Bytes → Bytes
header_lines [] rest = rest
header_lines ((name, value) ∷ hs) rest =
    name ++ (b':' ∷ b' ' ∷ (value ++ (b'\r' ∷ b'\n' ∷ header_lines hs rest)))

pub ne→== : (a b : ℕ) → a ≢ b → (a == b) ≡ false
ne→== a b h = ground arith

token-ne-colon : (c : ℕ) → is_token_character c ≡ true → (c == b':') ≡ false
unfolding is_token_character is_separator strchr
token-ne-colon c h = ground arith

token-ne-cr : (c : ℕ) → is_token_character c ≡ true → (c == b'\r') ≡ false
unfolding is_token_character
token-ne-cr c h = ground arith

module _ {R : Type 0} (methods : Methods R) (put_header : Bytes × Bytes → R → R)
    (puts : (p : HttpParser R)
      → methods.add_header p
        ≡ ok (record p { target = put_header (p.name, p.buffer) p.target })) where
  abbrev run : Bytes → HttpParser R → Parsed R
  run = handle_chars methods

  -- The headers in their order.
  unfoldable pub put_headers : Headers → R → R
  put_headers [] r = r
  put_headers (h ∷ hs) r = put_headers hs (put_header h r)

  -- The bytes of a token, read into the buffer.
  run-name :
      (cs rest : Bytes) (p : HttpParser R)
      → All (λ c. is_token_character c ≡ true) cs
      → length p.buffer + length cs ≤ 128
      → run (cs ++ rest) (record p { state = header_name })
        ≡ run rest (record p { state = header_name; buffer = p.buffer ++ cs })
  unfolding handle_chars handle_char handle_in in_header_name
  run-name [] rest p h fits = rw append-nil refl
  run-name (c ∷ cs) rest p h fits =
      rw (token-ne-colon c h.0, h.0, lt→ltb (length p.buffer) 128 (omega arith))
        (run-name cs rest (record p { buffer = p.buffer ++ c ∷ [] }) h.1
            (omega (arith, length-append p.buffer (c ∷ [])))
          ∙ ap (λ t. run rest (record p { state = header_name; buffer = t }))
              (append_assoc p.buffer (c ∷ []) cs))

  run-value :
      (cs rest : Bytes) (p : HttpParser R)
      → All (λ c. c ≢ b'\r') cs
      → length p.buffer + length cs ≤ 1024
      → run (cs ++ rest) (record p { state = header_value })
        ≡ run rest (record p { state = header_value; buffer = p.buffer ++ cs })
  unfolding handle_chars handle_char handle_in in_header_value
  run-value [] rest p h fits = rw append-nil refl
  run-value (c ∷ cs) rest p h fits =
      rw (ne→== c b'\r' h.0, lt→ltb (length p.buffer) 1024 (omega arith))
        (run-value cs rest (record p { buffer = p.buffer ++ c ∷ [] }) h.1
            (omega (arith, length-append p.buffer (c ∷ [])))
          ∙ ap (λ t. run rest (record p { state = header_value; buffer = t }))
              (append_assoc p.buffer (c ∷ []) cs))

  -- From the start of a header to the start of its value.
  run-header_start :
      (c d : ℕ) (name rest : Bytes) (p : HttpParser R)
      → IsName (c ∷ name)
      → d ≢ b' '
      → d ≢ b'\r'
      → run (c ∷ (name ++ (b':' ∷ b' ' ∷ d ∷ rest))) (record p { state = header_start })
        ≡ run rest (record p { state = header_value; buffer = d ∷ []; name = c ∷ name })
  unfolding handle_chars handle_char handle_in in_header_start in_header_name in_header_spaces
  run-header_start c d name rest p h no_space no_cr =
      rw (token-ne-cr c h.name_tokens.0, h.name_tokens.0)
        (run-name name (b':' ∷ b' ' ∷ d ∷ rest) (record p { buffer = c ∷ [] }) h.name_tokens.1
            (omega (arith, h.name_fits))
          ∙ rw (ne→== d b' ' no_space, ne→== d b'\r' no_cr) refl)

  -- From there to the start of the next header.
  run-header_end :
      (d : ℕ) (value rest : Bytes) (p : HttpParser R)
      → IsValue (d ∷ value)
      → run (value ++ (b'\r' ∷ b'\n' ∷ rest)) (record p { state = header_value; buffer = d ∷ [] })
        ≡ run rest (record p {
          state = header_start;
          buffer = d ∷ value;
          target = put_header (p.name, d ∷ value) p.target;
        })
  unfolding handle_chars handle_char handle_in in_header_value expect_lf
  run-header_end d value rest p h =
      run-value value (b'\r' ∷ b'\n' ∷ rest) (record p { buffer = d ∷ [] }) h.value_no_cr.1
        (omega (arith, h.value_fits))
      ∙ rw (puts (record p { state = header_value; buffer = d ∷ value })) refl

  -- All the headers, up to the empty line.
  pub run-header_lines :
      (hs : Headers) (p : HttpParser R)
      → All IsWritable hs
      → (q : HttpParser R) × (run
            (header_lines hs (codes "\r\n"))
            (record p { state = header_start })
          ≡ ok q)
        × (q.state ≡ body)
        × (q.target ≡ put_headers hs p.target)
  unfolding handle_chars handle_char handle_in in_header_start expect_lf put_headers
  run-header_lines [] p h = (record p { state = body }, refl, refl, refl)
  run-header_lines (([], value) ∷ hs) p h = absurd (omega (arith, h.0.0.name_nonempty))
  run-header_lines ((c ∷ name, []) ∷ hs) p h = absurd (omega (arith, h.0.1.value_nonempty))
  run-header_lines ((c ∷ name, d ∷ value) ∷ hs) p h =
      let lines = header_lines hs (codes "\r\n") in
      let before = record p { buffer = d ∷ []; name = c ∷ name } in
      let after = record p {
        buffer = d ∷ value;
        name = c ∷ name;
        target = put_header (c ∷ name, d ∷ value) p.target;
      } in
      let (q, read, at_body, filled) = run-header_lines hs after h.1 in
      (
        q,
        run-header_start c d name (value ++ (b'\r' ∷ b'\n' ∷ lines)) p h.0.0 h.0.2
              h.0.1.value_no_cr.0
            ∙ run-header_end d value lines before h.0.1
            ∙ read,
        at_body,
        filled,
      )
