-- ===== src/Tests/MeetingTest.antt =====
-- The theorems on topics, hubs and links at concrete inputs.
use librcom.Base.{ℕ, ◌≤◌, ◌≡◌, refl, arith, true, [], length}
use librcom.Action.{ok, next, pure}
use librcom.Address.{is_valid_topic, is_valid_name, name_chars, tostring}
use librcom.Address.Topic.{is_valid_topic-IsPlainText}
use librcom.Json.Plain.{IsPlainText}
use librcom.MessageHub.{Factory, register_topic, new_message_link}
use librcom.MessageHub.Meeting.{LeadsToRegistry, link_meets_hub}
use librcom.RegistryProxy.Wire.{Wire, idle, wire}
use librcom.RegistryServer.{address_response}
use librcom.Tests.AddressTest.{test_inet}
use librcom.Tests.ObjectReader.{object_json, object_IsJson, object_ReadsObjects}
use librcom.Tests.RegistryTest.{wire_env, host_ip, camera, at_9000, camera_table, around, put}

camera_valid : is_valid_topic camera ≡ true
unfolding is_valid_name name_chars
camera_valid = refl

is_valid_topic-IsPlainText_example : IsPlainText camera × (3 ≤ length camera) × (length camera ≤ 65)
is_valid_topic-IsPlainText_example = is_valid_topic-IsPlainText camera camera_valid

abbrev test_factory : Factory (Wire ℕ)
test_factory = record {
  get_local_ip = λ s. (ok host_ip, s);
  registry_address = λ s. (ok at_9000, s);
  new_client_side_websocket = λ address s. (ok 0, s);
  websocket = λ link. wire object_json test_inet host_ip;
  close = λ link code s. (ok tt, s);
}

abbrev test_leading : LeadsToRegistry object_json test_inet host_ip test_factory
test_leading = record {
  registry = at_9000;
  link = 0;
  tells_ip = λ s. refl;
  knows_registry = λ s. refl;
  connects = λ s. refl;
  leads = refl;
  closes = λ code s. refl;
}

link_meets_hub_example :
    (after : Wire ℕ) × (s : Wire ℕ) × (register_topic object_json wire_env test_inet test_factory
        (λ s. (ok at_9000, s))
        camera
        (record { registry = idle [] []; rest = 0 })
      ≡ (ok tt, after))
    × (new_message_link object_json wire_env test_inet test_factory 1 camera 500 after
        ≡ next (test_factory.new_client_side_websocket at_9000 s) pure)
    × (s.registry ≡ idle camera_table (address_response camera (tostring test_inet at_9000)))
link_meets_hub_example =
    link_meets_hub object_json object_IsJson object_ReadsObjects test_inet host_ip wire_env around
      test_factory test_leading camera camera_valid at_9000 (λ s. (ok at_9000, s)) [] 0 []
      camera_table 0 500 (λ s. refl) (omega arith) (omega arith) tt put
