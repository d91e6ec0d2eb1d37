-- ===== src/Tests/RegistryTest.antt =====
-- The theorems on the registry's proxy and server at concrete inputs.
use librcom.Base.{
  ℕ, suc, true, none, some, List, [], ◌∷◌, ◌≡◌, refl, arith, Bytes, codes, equal, All,
}
use librcom.Action.{ok, throws}
use librcom.Address.{Inet, Address, is_set, tostring, set, decimal, to_string}
use librcom.Address.Decimal.{to_string-digits}
use librcom.Env.{Env}
use librcom.Http.Characters.{isdigit}
use librcom.Json.Plain.{IsPlainText, is_plain_char, fixed-IsPlainText}
use librcom.MemBuffer.{c_str}
use librcom.Registry
use librcom.Registry.{RegistryEntry}
use librcom.RegistryProxy
use librcom.RegistryProxy.Refinement.{
  IsAround, set-refines, remove-refines, get-refines, get-missing,
}
use librcom.RegistryProxy.Wire.{Wire, idle, wire}
use librcom.RegistryServer.{default_address, runtime_error, success_response, address_response}
use librcom.Tests.AddressTest.{test_inet, test_IsInet}
use librcom.Tests.ObjectReader.{object_json, object_IsJson, object_ReadsObjects}
use librcom.Tests.World.{test_env}

-- The clock of a world with a counter.
abbrev pub wire_env : Env (Wire ℕ)
wire_env = record {
  socket = record {
    close = λ s. s;
    is_connected = λ s. true;
    is_endpoint_connected = λ s. (true, s);
    send = λ bytes s. (true, s);
    read = λ n s. (none, s);
    wait = λ timeout s. (librcom.Env.wait_timeout, s);
    turn_buffering_off = λ s. s;
    turn_buffering_on = λ s. s;
  };
  linux = record {
    clock_gettime = λ s. ((s.rest, 0), record s { rest = suc s.rest });
    clock_nanosleep = λ sec nsec s. (0, s);
    getrandom = λ n s. ([], s);
  };
  order = test_env.order;
  double = test_env.double;
  rounds = 2;
}

digits_plain : (cs : Bytes) → All (λ d. isdigit d ≡ true) cs → IsPlainText cs
unfolding is_plain_char
digits_plain [] h = tt
digits_plain (c ∷ cs) h = ((let digit = h.0 in ground arith), digits_plain cs h.1)

pub to_string-IsPlainText : (n : ℕ) → IsPlainText (to_string n)
to_string-IsPlainText n =
    let (c, cs, shape, first, others) = to_string-digits n in
    rw shape (digits_plain (c ∷ cs) (first, others))

abbrev pub host_ip : Bytes
host_ip = codes "9"

abbrev host_address : Address
host_address = record { sin_port = 0; sin_addr = 9 }

pub host_read : default_address test_inet host_ip ≡ ok host_address
unfolding default_address set c_str librcom.Address.read_digits
host_read = refl

pub around : IsAround object_json test_inet host_ip wire_env
around = record {
  around_inet = test_IsInet;
  ntoa_plain = to_string-IsPlainText;
  local = host_address;
  local_address = host_read;
  time = λ s. (s.rest, 0);
  ticked = λ s. suc s.rest;
  clock_ends = λ s. refl;
}

abbrev pub camera : Bytes
camera = codes "camera"

camera-IsPlainText : IsPlainText camera
unfolding is_plain_char
camera-IsPlainText = fixed-IsPlainText camera refl

abbrev pub at_9000 : Address
at_9000 = record { sin_port = 0x2823; sin_addr = 77 }

abbrev pub camera_table : List (RegistryEntry Address)
camera_table = record { topic = camera; address = at_9000 } ∷ []

pub put : Registry.set (is_set test_inet) camera at_9000 [] ≡ some camera_table
unfolding Registry.set Registry.insert Registry.erase Registry.find is_set
put = refl

listed : Registry.get camera camera_table ≡ some at_9000
unfolding Registry.get Registry.find equal
listed = refl

not_listed : Registry.get {A = Address} camera [] ≡ none
unfolding Registry.get Registry.find
not_listed = refl

set-refines_example :
    RegistryProxy.set object_json wire_env test_inet
      (wire object_json test_inet host_ip)
      camera
      at_9000
      (record { registry = idle [] []; rest = 0 })
    ≡ (ok tt, record { registry = idle camera_table success_response; rest = 0 })
set-refines_example =
    set-refines object_json object_IsJson object_ReadsObjects test_inet host_ip wire_env around
      camera [] [] 0 camera-IsPlainText at_9000 camera_table (omega arith) (omega arith) put

remove-refines_example :
    RegistryProxy.remove object_json wire_env test_inet
      (wire object_json test_inet host_ip)
      camera
      (record { registry = idle camera_table []; rest = 0 })
    ≡ (
      ok tt,
      record { registry = idle (Registry.remove camera camera_table) success_response; rest = 0 },
    )
remove-refines_example =
    remove-refines object_json object_IsJson object_ReadsObjects test_inet host_ip wire_env around
      camera camera_table [] 0 camera-IsPlainText

get-refines_example :
    (s : Wire ℕ) × (RegistryProxy.get object_json wire_env test_inet
        (wire object_json test_inet host_ip)
        1
        camera
        host_address
        500
        (record { registry = idle camera_table []; rest = 0 })
      ≡ (ok (true, some at_9000), s))
    × (s.registry ≡ idle camera_table (address_response camera (tostring test_inet at_9000)))
get-refines_example =
    get-refines object_json object_IsJson object_ReadsObjects test_inet host_ip wire_env around
      camera camera_table [] 0 camera-IsPlainText at_9000 host_address 0 500 (omega arith)
      (omega arith) listed

get-missing_example :
    (s : Wire ℕ) × (RegistryProxy.get object_json wire_env test_inet
        (wire object_json test_inet host_ip)
        1
        camera
        host_address
        500
        (record { registry = idle [] []; rest = 0 })
      ≡ (throws (runtime_error (codes "RegistryProxy: invalid response")), s))
get-missing_example =
    get-missing object_json object_IsJson object_ReadsObjects test_inet host_ip wire_env around
      camera [] [] 0 camera-IsPlainText host_address 0 500 not_listed
