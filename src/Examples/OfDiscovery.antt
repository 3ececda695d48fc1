-- ===== src/Examples/OfDiscovery.antt =====
-- The theorem on the discovery, at a hub and two datagrams that are no answers.
use ai_control_hud.Prelude.{
  pos, ◌≡◌, refl, String, true, none, some, [], ◌∷◌, ◌++◌, arith, ok, err, size, codes, trim_text,
  str_eq, if◌then◌else◌, message, cut,
}
use ai_control_hud.Discovery.{
  Announcement, Codec, announcement_of, start_discovery, serve, request_payload, timed_out,
  datagram, discover, parse_response,
}
use ai_control_hud.Discovery.Found.{discover-serve, found_at}
use ai_control_hud.Examples.OfPolicy.{plain, plain_accepted}

abbrev sent : Announcement
sent = record {
  service = "ai-control-hud";
  schema_version = pos 1;
  hub_id = "central-hub";
  scheme = "http";
  http_port = pos 8787;
  hub_version = "1.0";
}

abbrev codec : Codec
codec = record {
  encode = λ a. "{}";
  decode = λ t. if str_eq t "{}" then some sent else none;
  decimal = λ n. "8787";
}

decodes :
    codec.decode (codec.encode (announcement_of plain " 1.0")) ≡ some (announcement_of plain " 1.0")
unfolding announcement_of trim_text
decodes = refl

short : size (codes (codec.encode (announcement_of plain " 1.0"))) ≡ 2
unfolding size
short = refl

refused : parse_response codec (cut 2048 "noise") none ≡ err (message "invalid JSON")
unfolding parse_response cut size
refused = refl

discover-serve_example :
    (text : String) × (start_discovery codec true plain " 1.0" ≡ ok (some text))
    × (serve text request_payload ≡ some text)
    × (discover codec
          ((timed_out ∷ datagram "noise" none ∷ []) ++ datagram text (some "10.0.0.7") ∷ [])
        ≡ ok (found_at codec plain " 1.0" "10.0.0.7"))
discover-serve_example =
    discover-serve codec plain " 1.0" "10.0.0.7" decodes plain_accepted (omega (arith, short))
      (timed_out ∷ datagram "noise" none ∷ []) [] (tt, ((message "invalid JSON", refused), tt))
