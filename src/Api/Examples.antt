-- ===== src/Api/Examples.antt =====
-- A base URL with a port and a prefix.
use tiny_voice.Prelude.{◌≡◌, refl, true, some, [], ◌∷◌, arith, codes, atoi}
use tiny_voice.Api.Endpoint.{port_of, parse_endpoint, https}
use tiny_voice.Api.Endpoint.Reads.{parse_endpoint_lem}

-- The prefix ends with a slash, and the path starts with one.
parse_endpoint_lem_example :
    parse_endpoint (codes "https://box:8443/v2/") (codes "/messages")
    ≡ record { host = codes "box"; port = 8443; uri = codes "/v2/messages"; tls = true }
parse_endpoint_lem_example =
    parse_endpoint_lem https (codes "box") (some (8 ∷ 4 ∷ 4 ∷ 3 ∷ [])) (some (codes "v2")) true true
      (codes "messages") (refl, (refl, (refl, tt))) (refl, (refl, (refl, tt)))
      ((omega arith, (omega arith, (omega arith, (omega arith, tt)))), omega arith) refl tt tt

-- A port that is too large for an int stops at its end.
large_port : port_of 80 (some (codes ":4294967376")) ≡ 65535
unfolding port_of atoi
large_port = refl
