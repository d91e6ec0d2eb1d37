-- ===== src/Tests/AddressTest.antt =====
-- The theorems on librcom/src/Address.cpp at concrete inputs.
use librcom.Base.{ℕ, ◌<◌, ◌^◌, ◌≡◌, ◌≢◌, true, refl, arith, some, [], ◌∷◌, ◌++◌, Bytes, codes, All}
use librcom.Action.{ok}
use librcom.HostOrder.{low_first, low_first-IsNetworkOrder}
use librcom.Http.Characters.{isdigit}
use librcom.MemBuffer.{c_str}
use librcom.Address.Decimal.{to_string-digits, read_digits-to_string}
use librcom.Address.{read_digits, Inet, Address, parse, tostring, to_string}
use librcom.Address.RoundTrip.{IsInet, parse-to_string, parse-tostring}

-- Texts of addresses: the number in decimal.
abbrev pub test_inet : Inet
test_inet = record {
  inet_aton = λ t. some (read_digits 0 t);
  inet_ntoa = to_string;
  order = low_first;
}

no_zero : (cs : Bytes) → All (λ d. isdigit d ≡ true) cs → All (λ c. c ≢ 0) cs
no_zero [] h = tt
no_zero (c ∷ cs) h = (λ e. (let digit = h.0 in ground arith), no_zero cs h.1)

pub to_string-no_zero : (n : ℕ) → All (λ c. c ≢ 0) (to_string n)
to_string-no_zero n =
    let (c, cs, shape, first, others) = to_string-digits n in
    rw shape (no_zero (c ∷ cs) (first, others))

pub to_string-read : (n : ℕ) → n < 2 ^ 32 → some (read_digits 0 (to_string n)) ≡ some n
to_string-read n h = rw (read_digits-to_string n) refl

abbrev pub test_IsInet : IsInet test_inet
test_IsInet = record {
  text_read = to_string-read;
  text_no_zero = to_string-no_zero;
  inet_order = low_first-IsNetworkOrder;
}

abbrev local_8080 : Address
local_8080 = record { sin_port = 0x901f; sin_addr = 0x0100007f }

abbrev no_address : Address
no_address = record { sin_port = 0; sin_addr = 0 }

parse-tostring_example : parse test_inet (tostring test_inet local_8080) no_address ≡ ok local_8080
parse-tostring_example =
    parse-tostring test_inet local_8080 no_address test_IsInet (omega arith) (omega arith)

nine : test_inet.inet_aton (c_str (codes "9")) ≡ some 9
unfolding c_str read_digits
nine = refl

-- Port 70000 is port 4464.
parse-to_string_example :
    parse test_inet (codes "9" ++ b':' ∷ to_string 70000) no_address
    ≡ ok (record { sin_port = low_first.htons 4464; sin_addr = 9 })
parse-to_string_example =
    parse-to_string test_inet (codes "9") 9 70000 no_address nine (omega arith)
