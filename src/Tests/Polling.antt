-- ===== src/Tests/Polling.antt =====
-- The theorems on the device flow, on example grants.
use django_oauth_toolkit.Prelude.{◌⊎◌, inl, ◌≡◌, ◌≢◌, refl, some, [], ◌∷◌, arith}
use django_oauth_toolkit.Text.{split_words}
use django_oauth_toolkit.Settings.{ok}
use django_oauth_toolkit.AuthorizationServer.Device.{
  authorized, authorization_pending, denied, DeviceGrant, Devices, DeviceRequest,
  DeviceCodeResponse, create_device_grant, submit_user_code, to_confirm, confirm_device, decide,
  to_status, access_denied, expired_token, proceeds, device_flow_token_response,
  set_oauthlib_user_to_device_request_user,
}
use django_oauth_toolkit.AuthorizationServer.Device.Steps.{decided, IsDevices, IsMoved}
use django_oauth_toolkit.AuthorizationServer.Device.Runs.{
  Step, confirms, Run, here, then, Step-IsMoved,
}
use django_oauth_toolkit.AuthorizationServer.Device.Verdicts.{refused_forever, authorized_settled}
use django_oauth_toolkit.AuthorizationServer.Device.Accepted.{IsAccepted, proceeds-IsAccepted}
use django_oauth_toolkit.AuthorizationServer.Device.Completes.{device_flow_completes}

abbrev device : DeviceGrant
device = record {
  pk = 1;
  user = some 5;
  device_code = "d1";
  user_code = "u1";
  scope = "read";
  expires = 200;
  status = authorization_pending;
  client_id = "client";
}

-- A grant that its user has not decided on, one that was denied, and one that was accepted.
abbrev devices : Devices
devices = record {
  grants =
      device
      ∷ record device { pk = 2; device_code = "d2"; user_code = "u2"; status = denied }
      ∷ record device { pk = 3; device_code = "d3"; user_code = "u3"; status = authorized }
      ∷ [];
  next_pk = 4;
}

devices-IsDevices : IsDevices devices
devices-IsDevices = record {
  keyed = (refl, (refl, (refl, tt)));
  fresh = (omega arith, (omega arith, (omega arith, tt)));
  owned = (tt, (tt, (refl, tt)));
}

abbrev accepted : Devices
accepted = record {
  grants =
      record device { status = authorized }
      ∷ record device { pk = 2; device_code = "d2"; user_code = "u2"; status = denied }
      ∷ record device { pk = 3; device_code = "d3"; user_code = "u3"; status = authorized }
      ∷ [];
  next_pk = 4;
}

accepting : confirm_device 5 "client" "u1" "accept" devices ≡ (to_status, accepted)
unfolding confirm_device decide
accepting = refl

step : Step (decided 5 "client" "u1" "accept") devices accepted
unfolding confirm_device decide
step = confirms 5 "client" "u1" "accept" devices

run : Run devices accepted
run = then step here

Step-IsMoved_example : IsMoved (decided 5 "client" "u1" "accept") devices accepted
Step-IsMoved_example = Step-IsMoved step devices-IsDevices

denied_before : device_flow_token_response "d2" devices ≡ access_denied
unfolding device_flow_token_response
denied_before = refl

refused_forever_example :
    device_flow_token_response "d2" accepted
    ≢ proceeds (record device { pk = 2; device_code = "d2"; user_code = "u2"; status = authorized })
refused_forever_example =
    refused_forever "d2" devices accepted devices-IsDevices run (inl denied_before)
      (record device { pk = 2; device_code = "d2"; user_code = "u2"; status = authorized })

abbrev third : DeviceGrant
third = record device { pk = 3; device_code = "d3"; user_code = "u3"; status = authorized }

granted_before : device_flow_token_response "d3" devices ≡ proceeds third
unfolding device_flow_token_response
granted_before = refl

authorized_settled_example :
    (device_flow_token_response "d3" accepted ≡ proceeds third)
    ⊎ (device_flow_token_response "d3" accepted ≡ expired_token)
authorized_settled_example =
    authorized_settled "d3" devices accepted third devices-IsDevices run granted_before

granted_after :
    device_flow_token_response "d1" accepted ≡ proceeds (record device { status = authorized })
unfolding device_flow_token_response
granted_after = refl

abbrev first : DeviceGrant
first = record device { status = authorized }

waits_before : (g : DeviceGrant) → device_flow_token_response "d1" devices ≢ proceeds g
unfolding device_flow_token_response
waits_before g h = cc

owner_example : IsAccepted "d1" devices accepted first
owner_example =
    proceeds-IsAccepted "d1" devices accepted first devices-IsDevices run waits_before granted_after

abbrev asked : DeviceRequest
asked = record { client_id = "client"; scope = some "read" }

abbrev codes : DeviceCodeResponse
codes = record { expires_in = 600; user_code = "u4"; device_code = "d4" }

device_flow_completes_example :
    (t1 t2 t3 : Devices) × (g : DeviceGrant) × (create_device_grant 100 asked codes devices ≡ ok t1)
    × (submit_user_code 150 7 "u4" t1 ≡ (to_confirm "client" "u4", t2))
    × (confirm_device 7 "client" "u4" "accept" t2 ≡ (to_status, t3))
    × (device_flow_token_response "d4" t3 ≡ proceeds g)
    × (g.user ≡ some 7)
    × (g.client_id ≡ "client")
    × (g.scope ≡ "read")
    × (set_oauthlib_user_to_device_request_user "d4" t3 ≡ some (some 7, "read" ∷ []))
unfolding split_words
device_flow_completes_example =
    device_flow_completes 100 150 7 asked codes devices devices-IsDevices refl refl (omega arith)
