-- ===== src/Discovery/Found.antt =====
-- What a hub announces (agent/internal/hub/discovery.go) is what an agent finds
-- (agent/internal/discovery/discovery.go).
use Prim.Native.Char.{code}
use ai_control_hud.Prelude.{
  ℕ, ◌-◌, ◌≤◌, ◌≡◌, refl, String, true, false, some, List, [], ◌∷◌, ◌++◌, All, arith, str_eq, codes,
  size, trim_text, cut, ok, err, Error, inl, inr, ◌⊎◌, eq_iff,
}
use ai_control_hud.Hub.Config.{Config, validate, bad_port}
use ai_control_hud.Zcode.Status.{plain, is_one_of}
use ai_control_hud.Discovery.{
  Codec, announcement_of, start_discovery, serve, Discovered, request_payload, base_url_of,
  parse_response, check, accept, scheme_of, Arrival, timed_out, broken, datagram, discover,
}

-- A text that fits is not cut.
cut-whole : (n : ℕ) (s : String) → size (codes s) ≤ n → cut n s ≡ s
unfolding cut size
cut-whole n String.[] h = refl
cut-whole n (String.◌∷◌ c s) h = ground (arith, cut-whole (n - size (code c ∷ [])) s)

hub_id_checked : (c : Config) → validate c ≡ ok tt → str_eq (trim_text c.hub_id) "" ≡ false
unfolding validate
hub_id_checked c h = ground arith

port_checked : (c : Config) → validate c ≡ ok tt → bad_port c.http_port ≡ false
unfolding validate
port_checked c h = ground arith

scheme_checked :
    (c : Config) → validate c ≡ ok tt → (c.http_scheme ≡ "http") ⊎ (c.http_scheme ≡ "https")
unfolding validate
scheme_checked c h = ground (arith, eq_iff c.http_scheme "http", eq_iff c.http_scheme "https")

scheme_of_http : (s : String) → (s ≡ "http") ⊎ (s ≡ "https") → scheme_of s ≡ some s
unfolding plain is_one_of
scheme_of_http s (inl e) = rw e refl
scheme_of_http s (inr e) = rw e refl

-- A datagram that is not accepted, or none.
abbrev pub IsPassedOver : Codec → Arrival → Type 0
IsPassedOver codec timed_out = Unit {0}
IsPassedOver codec broken = ⊥
IsPassedOver codec (datagram text source) =
    (e : Error) × (parse_response codec (cut 2048 text) source ≡ err e)

-- What an agent finds of a hub at an address.
abbrev pub found_at : Codec → Config → String → String → Discovered
found_at codec c version address = record {
  base_url = base_url_of codec c.http_scheme address c.http_port;
  hub_id = trim_text c.hub_id;
  hub_version = trim_text (trim_text version);
  address = address;
}

module _ (codec : Codec) (c : Config) (version address : String)
    (decodes : codec.decode (codec.encode (announcement_of c version))
      ≡ some (announcement_of c version))
    (accepted : validate c ≡ ok tt)
    (fits : size (codes (codec.encode (announcement_of c version))) ≤ 2048) where
  announced : String
  announced = codec.encode (announcement_of c version)

  parse-announced :
      parse_response codec (cut 2048 announced) (some address)
      ≡ ok (found_at codec c version address)
  unfolding parse_response announced announcement_of check accept
  parse-announced =
      rw (cut-whole 2048 announced fits, decodes)
        (ground (
          arith,
          hub_id_checked c accepted,
          port_checked c accepted,
          scheme_of_http c.http_scheme (scheme_checked c accepted),
        ))

  -- An agent on the network finds every hub that accepted its configuration: the hub answers the
  -- agent's probe, and from that answer, after any number of datagrams that it does not accept and
  -- whatever comes behind, the agent gets the hub's scheme, port and id, and the address that
  -- answered. The JSON decoder undoes the encoder, and the answer is of at most 2048 bytes.
  pub discover-serve :
      (before after : List Arrival)
      → All (IsPassedOver codec) before
      → (text : String) × (start_discovery codec true c version ≡ ok (some text))
        × (serve text request_payload ≡ some text)
        × (discover codec (before ++ datagram text (some address) ∷ after)
            ≡ ok (found_at codec c version address))
  unfolding start_discovery serve discover announced cut size
  discover-serve before after h = (announced, ground (arith, accepted), refl, skip before h)
    where
      skip :
          (early : List Arrival)
          → All (IsPassedOver codec) early
          → discover codec (early ++ datagram announced (some address) ∷ after)
            ≡ ok (found_at codec c version address)
      skip [] h = rw (discover, parse-announced) refl
      skip (timed_out ∷ early) (_, h) = skip early h
      skip (broken ∷ early) (h, _) = absurd h
      skip (datagram text source ∷ early) ((e, refused), h) = rw (discover, refused) (skip early h)
