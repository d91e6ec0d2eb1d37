-- ===== src/Address/RoundTrip.antt =====
-- `Address::parse` against `Address::tostring`.
use librcom.Base.{
  ℕ, ◌%◌, ◌^◌, ◌<◌, ◌≡◌, ◌≢◌, refl, sym, ap, ◌∙◌, arith, true, none, some, [], ◌∷◌, ◌++◌, ◌/◌,
  IsBytes, Bytes, All,
}
use librcom.Action.{ok}
use librcom.HostOrder.{IsNetworkOrder, le_value, be_value}
use librcom.Http.Characters.{isdigit}
use librcom.Http.Lines.{ne→==}
use librcom.MemBuffer.{c_str, c_str_id}
use librcom.Address.{Inet, Address, parse, split_colon, set, tostring, ip, port, to_string}
use librcom.Address.Decimal.{to_string-digits, stoi-to_string}

split_colon-none : (cs : Bytes) → All (λ c. c ≢ b':') cs → split_colon cs ≡ none
unfolding split_colon
split_colon-none [] h = refl
split_colon-none (c ∷ cs) h = rw (split_colon-none cs h.1, ne→== c b':' h.0) refl

-- The last colon is the one that splits.
split_colon-last :
    (front back : Bytes)
    → All (λ c. c ≢ b':') back
    → split_colon (front ++ b':' ∷ back) ≡ some (front, back)
unfolding split_colon
split_colon-last [] back h = rw (split_colon-none back h) refl
split_colon-last (c ∷ front) back h = rw (split_colon-last front back h) refl

digits-no_colon : (cs : Bytes) → All (λ d. isdigit d ≡ true) cs → All (λ c. c ≢ b':') cs
digits-no_colon [] h = tt
digits-no_colon (c ∷ cs) h = (λ e. (let digit = h.0 in ground arith), digits-no_colon cs h.1)

to_string-no_colon : (n : ℕ) → All (λ c. c ≢ b':') (to_string n)
to_string-no_colon n =
    let (c, cs, shape, first, others) = to_string-digits n in
    rw shape (digits-no_colon (c ∷ cs) (first, others))

module _ (inet : Inet) where
  -- A port is taken modulo 2^16: a text that inet_aton reads, a colon and any number below 2^31 in
  -- decimal are parsed without an error to that address with the remainder of the number as its
  -- port.
  pub parse-to_string :
      (text : Bytes) (addr n : ℕ) (a : Address)
      → inet.inet_aton (c_str text) ≡ some addr
      → n < 2 ^ 31
      → parse inet (text ++ b':' ∷ to_string n) a
        ≡ ok (record { sin_port = inet.order.htons (n % 2 ^ 16); sin_addr = addr })
  unfolding parse set
  parse-to_string text addr n a known small =
      rw (split_colon-last text (to_string n) (to_string-no_colon n), stoi-to_string n small, known)
        refl

  -- What the manual page of inet_ntoa says: it writes a text of C that inet_aton reads.
  pub record IsInet : Type 0 where
    pub text_read : (addr : ℕ) → addr < 2 ^ 32 → inet.inet_aton (inet.inet_ntoa addr) ≡ some addr
    pub text_no_zero : (addr : ℕ) → All (λ c. c ≢ 0) (inet.inet_ntoa addr)
    pub inet_order : IsNetworkOrder inet.order

  -- The two conversions of a port undo each other.
  htons-ntohs :
      IsInet
      → (p : ℕ) → p < 2 ^ 16
      → (inet.order.htons (inet.order.ntohs p) ≡ p) × (inet.order.ntohs p < 2 ^ 16)
  htons-ntohs law p h =
      let bytes : Bytes = p % 256 ∷ p / 256 ∷ [] in
      let fine : IsBytes bytes = (omega arith, (omega arith, tt)) in
      let low : le_value bytes ≡ p = omega arith in
      let there : inet.order.ntohs p ≡ be_value bytes =
        ap (inet.order.ntohs) (sym low) ∙ law.inet_order.ntohs_bytes bytes fine refl in
      let back : inet.order.htons (be_value bytes) ≡ p =
        law.inet_order.htons_bytes bytes fine refl ∙ low in
      (ap (inet.order.htons) there ∙ back, rw there (omega arith))

  -- `parse` reads back the text that `tostring` makes of an address with a port below 2^16 and an
  -- IP address below 2^32, whatever address it is read into, if inet_aton reads what inet_ntoa
  -- writes, that text has no zero byte, and the conversions of byte order are those of the manual.
  pub parse-tostring :
      (a b : Address)
      → IsInet
      → a.sin_port < 2 ^ 16
      → a.sin_addr < 2 ^ 32
      → parse inet (tostring inet a) b ≡ ok a
  unfolding tostring ip port
  parse-tostring a b law small_port small_addr =
      let text = inet.inet_ntoa a.sin_addr in
      let (same, fits) = htons-ntohs law a.sin_port small_port in
      let known : inet.inet_aton (c_str text) ≡ some a.sin_addr =
        ap inet.inet_aton (c_str_id text (law.text_no_zero a.sin_addr))
        ∙ law.text_read a.sin_addr small_addr in
      let whole : inet.order.ntohs a.sin_port % 2 ^ 16 ≡ inet.order.ntohs a.sin_port =
        omega arith in
      parse-to_string text a.sin_addr (inet.order.ntohs a.sin_port) b known (omega arith)
      ∙ rw (whole, same) refl
