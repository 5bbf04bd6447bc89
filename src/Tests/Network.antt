-- ===== src/Tests/Network.antt =====
-- Addresses, credentials, upgrades and settings at concrete inputs.
use nodejs_wss_service_bridg.Base.{
  ℕ, ◌+◌, ◌-◌, ◌≡◌, ◌↔◌, ◌⊎◌, refl, arith, true, false, List, [], ◌∷◌, Option, none, some, has, ok,
  Distinct,
}
use nodejs_wss_service_bridg.Base.Text.{Text, codes, split, trim, all_digits, decimal}
use nodejs_wss_service_bridg.IpAllowlist.{is_ip_allowed, normalize_ip}
use nodejs_wss_service_bridg.IpAllowlist.Networks.{Any, is_ip_allowed_iff}
use nodejs_wss_service_bridg.Http.Auth.{basic_authorization, verify_basic_auth}
use nodejs_wss_service_bridg.Http.Auth.Credentials.{basic_authorization-verified}
use nodejs_wss_service_bridg.Http.Upgrade.{
  Request, Settings, upgrade, agent, path_or_url, handle_upgrade,
}
use nodejs_wss_service_bridg.Http.Upgrade.Grants.{Grants, handle_upgrade_iff}
use nodejs_wss_service_bridg.PortParser.{parse_agent_ports, parse_tokens, parse_port}
use nodejs_wss_service_bridg.Config.{read_port_list}
use nodejs_wss_service_bridg.Config.Ports.{
  Numerals, read_port_list_sound, read_port_list-parse_agent_ports,
}

abbrev no_other : Text → Option ℕ
no_other s = none

abbrev office : List Text
office = codes "127.0.0.1" ∷ codes "10.1.0.0/16" ∷ []

is_ip_allowed_iff_example :
    (is_ip_allowed no_other (some (codes "::ffff:10.1.2.3")) office ≡ true)
    ↔ ((office ≡ []) ⊎ Any no_other (normalize_ip (some (codes "::ffff:10.1.2.3"))) office)
is_ip_allowed_iff_example =
    is_ip_allowed_iff no_other (λ s n e. absurd (cc)) (some (codes "::ffff:10.1.2.3")) office

-- In place of Base64, a code that moves each code unit by 100, and has no blanks.
abbrev encode : Text → Text
encode [] = []
encode (c ∷ s) = (c + 100) ∷ encode s

abbrev decode : Text → Text
decode [] = []
decode (c ∷ s) = (c - 100) ∷ decode s

decode-encode : (s : Text) → decode (encode s) ≡ s
decode-encode [] = refl
decode-encode (c ∷ s) = ground (arith, decode-encode s)

encode-solid : (s : Text) → has b' ' (encode s) ≡ false
encode-solid [] = refl
encode-solid (c ∷ s) = ground (arith, encode-solid s)

basic_authorization-verified_example :
    verify_basic_auth
      (λ s. s)
      decode
      (some (basic_authorization encode (codes "admin") (codes "secret")))
      (codes "admin")
      (codes "secret")
    ≡ true
basic_authorization-verified_example =
    basic_authorization-verified (λ s. s) decode encode decode-encode encode-solid (codes "admin")
      (codes "secret") refl

abbrev settings : Settings
settings = record {
  tunnel_path = codes "/tunnel";
  username = codes "admin";
  password = codes "secret";
  tcp_agent_path = codes "/tcp";
  tcp_agent_username = codes "agent";
  tcp_agent_password = codes "secret";
  tcp_agent_require_tls = true;
  tcp_agent_trusted_proxies = codes "10.0.0.0/8" ∷ [];
  tcp_agent_allowed_origins = [];
}

abbrev agent_request : Request
agent_request = record {
  url = codes "/tcp?a";
  authorization = some (basic_authorization (λ s. s) (codes "agent") (codes "secret"));
  origin = none;
  forwarded_proto = some (codes "HTTPS, http");
  encrypted = false;
  remote_address = some (codes "10.9.9.9");
}

abbrev no_url : Text → Option Text
no_url s = none

handle_upgrade_iff_example :
    (handle_upgrade (λ s. s) (λ s. s) no_other no_url settings true agent_request
      ≡ upgrade agent ∷ [])
    ↔ Grants
        (λ s. s)
        (λ s. s)
        no_other
        no_url
        settings
        true
        (path_or_url (no_url agent_request.url) agent_request.url)
        agent_request
        agent
handle_upgrade_iff_example =
    handle_upgrade_iff (λ s. s) (λ s. s) no_other no_url settings true agent_request agent

abbrev listed : Text
listed = codes "80, 443,,80"

read_port_list_sound_example :
    (ps : List ℕ) × Numerals (split b',' listed) ps
    × Distinct (80 ∷ 443 ∷ [])
    × ((q : ℕ) → has q (80 ∷ 443 ∷ []) ≡ has q ps)
unfolding read_port_list all_digits
read_port_list_sound_example = read_port_list_sound listed (80 ∷ 443 ∷ []) refl refl

read_port_list-parse_agent_ports_example :
    read_port_list (some (codes "80, 443")) ≡ ok (80 ∷ 443 ∷ [])
unfolding parse_agent_ports trim parse_tokens split parse_port all_digits decimal
read_port_list-parse_agent_ports_example =
    read_port_list-parse_agent_ports (codes "80, 443") (80 ∷ 443 ∷ []) refl
