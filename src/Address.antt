-- ===== src/Address.antt =====
-- `class Address` (librcom/src/Address.cpp) and the tests of names in librcom/src/util.cpp. The
-- functions of arpa/inet.h and the address of the host are parameters.
pub mod Decimal
pub mod RoundTrip
pub mod Topic
use librcom.Base.{
  ℕ, zero, suc, ◌+◌, ◌-◌, ◌*◌, ◌/◌, ◌%◌, ◌^◌, Bool, true, false, not, ◌&&◌, ◌||◌, Option, none,
  some, [], ◌∷◌, ◌++◌, ltb, leb, ◌==◌, if◌then◌else◌, Bytes,
}
use librcom.Action.{Result, ok, throws}
use librcom.Http.Characters.{isdigit}
use librcom.HostOrder.{HostOrder}
use librcom.MemBuffer.{c_str}

-- arpa/inet.h; `inet_aton` answers `none` for 0.
pub record Inet : Type 0 where
  pub inet_aton : Bytes → Option ℕ
  pub inet_ntoa : ℕ → Bytes
  pub order : HostOrder

-- `sockaddr_in`, but for its family, which is always AF_INET. The port is in the order of the network.
pub record Address : Type 0 where
  pub sin_port : ℕ
  pub sin_addr : ℕ

pub data AddressError : Type 0 where
  inet_aton_failed invalid_port invalid_address : AddressError

-- `isspace`
abbrev pub isspace : ℕ → Bool
isspace c = c == b' ' || leb 9 c && leb c 13

unfoldable pub skip_blanks : Bytes → Bytes
skip_blanks [] = []
skip_blanks (c ∷ cs) = let rest = skip_blanks cs in if isspace c then rest else c ∷ cs

-- The digits in front of a text, behind those that have been read.
unfoldable pub read_digits : ℕ → Bytes → ℕ
read_digits value [] = value
read_digits value (c ∷ cs) = if isdigit c then read_digits (value * 10 + (c - b'0')) cs else value

-- The range of an `int`; the flag stands for a minus.
abbrev pub in_int_range : Bool → ℕ → Option (Bool × ℕ)
in_int_range true n = if leb n (2 ^ 31) then some (true, n) else none
in_int_range false n = if ltb n (2 ^ 31) then some (false, n) else none

unfoldable pub stoi_digits : Bool → Bytes → Option (Bool × ℕ)
stoi_digits negative [] = none
stoi_digits negative (c ∷ cs) =
    if isdigit c then in_int_range negative (read_digits 0 (c ∷ cs)) else none

unfoldable pub stoi_sign : Bytes → Option (Bool × ℕ)
stoi_sign [] = none
stoi_sign (c ∷ cs) =
    if c == b'-'
    then stoi_digits true cs
    else if c == b'+'
    then stoi_digits false cs
    else stoi_digits false (c ∷ cs)

-- `std::stoi`, as a sign and a magnitude; `none` where it throws.
unfoldable pub stoi : Bytes → Option (Bool × ℕ)
stoi s = stoi_sign (skip_blanks s)

-- The cast to `uint16_t`.
abbrev pub to_uint16 : Bool × ℕ → ℕ
to_uint16 (true, n) = (2 ^ 16 - n % 2 ^ 16) % 2 ^ 16
to_uint16 (false, n) = n % 2 ^ 16

-- `std::to_string`
unfoldable pub decimal : ℕ → ℕ → Bytes
decimal zero n = []
decimal (suc fuel) n =
    let front = decimal fuel (n / 10) in
    if ltb n 10 then (b'0' + n) ∷ [] else front ++ (b'0' + n % 10) ∷ []

unfoldable pub to_string : ℕ → Bytes
to_string n = decimal (suc n) n

-- The search from the end for a colon: the text before it, and the text behind it.
abbrev pub split_here : ℕ → Bytes → Option (Bytes × Bytes) → Option (Bytes × Bytes)
split_here c cs (some (front, back)) = some (c ∷ front, back)
split_here c cs none = if c == b':' then some ([], cs) else none

unfoldable pub split_colon : Bytes → Option (Bytes × Bytes)
split_colon [] = none
split_colon (c ∷ cs) = split_here c cs (split_colon cs)

-- [a-z-]{0,n}
unfoldable pub name_chars : ℕ → Bytes → Bool
name_chars n [] = true
name_chars zero (c ∷ cs) = false
name_chars (suc n) (c ∷ cs) = (leb b'a' c && leb c b'z' || c == b'-') && name_chars n cs

-- `is_valid_name` and `is_valid_topic`: the regular expression [a-z][a-z-]{2,64}.
unfoldable pub is_valid_name : Bytes → Bool
is_valid_name (c ∷ d ∷ e ∷ cs) = leb b'a' c && leb c b'z' && name_chars 64 (d ∷ e ∷ cs)
is_valid_name _ = false

abbrev pub is_valid_topic : Bytes → Bool
is_valid_topic topic = is_valid_name topic

module _ (inet : Inet) where
  unfoldable pub ip : Address → Bytes
  ip a = inet.inet_ntoa a.sin_addr

  unfoldable pub port : Address → ℕ
  port a = inet.order.ntohs a.sin_port

  -- What `set` makes of the answer of `inet_aton`.
  abbrev pub set_answer : ℕ → Option ℕ → Address → Result AddressError Address
  set_answer port none a = throws inet_aton_failed
  set_answer port (some addr) a = ok (record { sin_port = inet.order.htons port; sin_addr = addr })

  -- `set(const char*, uint16_t)`, with `set_ip` and `set_port`. An exception leaves the address as
  -- it is.
  unfoldable pub set : Bytes → ℕ → Address → Result AddressError Address
  set ip port a = set_answer port (inet.inet_aton (c_str ip)) a

  -- What `parse` makes of the two parts, and of the number in the second.
  abbrev pub parse_port : Bytes → Option (Bool × ℕ) → Address → Result AddressError Address
  parse_port ip none a = throws invalid_port
  parse_port ip (some number) a = set ip (to_uint16 number) a

  abbrev pub parse_parts : Option (Bytes × Bytes) → Address → Result AddressError Address
  parse_parts none a = throws invalid_address
  parse_parts (some (ip, portstr)) a = parse_port ip (stoi portstr) a

  unfoldable pub parse : Bytes → Address → Result AddressError Address
  parse address a = parse_parts (split_colon address) a

  unfoldable pub is_set : Address → Bool
  is_set a = not (a.sin_port == 0) && not (a.sin_addr == 0)

  unfoldable pub tostring : Address → Bytes
  tostring a = ip a ++ (b':' ∷ to_string (port a))
