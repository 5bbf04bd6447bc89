-- ===== src/Http/Upgrade.antt =====
-- src/server/HttpRouter.js: `isAgentRequestSecure`, `handleUpgrade` and `_rejectUpgrade`. `digest`,
-- `decode` and `other` are the parameters of src/shared/utils.js and src/shared/ipAllowlist.js, and
-- `url_pathname` is the path of `new URL`, `none` where that throws.
pub mod Grants
use nodejs_wss_service_bridg.Base.{
  ℕ, Bool, true, false, not, ◌&&◌, ◌||◌, List, [], ◌∷◌, Option, none, some, String, if◌then◌else◌,
}
use nodejs_wss_service_bridg.Base.Text.{Text, codes, text_eq, split, is_empty, trim}
use nodejs_wss_service_bridg.IpAllowlist.{is_ip_allowed, first_or_empty}
use nodejs_wss_service_bridg.Http.Headers.{to_lower, text_in}
use nodejs_wss_service_bridg.Http.Auth.{verify_basic_auth}

-- What is read of a request: its URL, the headers `authorization`, `origin` and `x-forwarded-proto`,
-- whether its socket is encrypted, and the socket's `remoteAddress`.
pub record Request : Type 0 where
  pub url : Text
  pub authorization : Option Text
  pub origin : Option Text
  pub forwarded_proto : Option Text
  pub encrypted : Bool
  pub remote_address : Option Text

pub record Settings : Type 0 where
  pub tunnel_path : Text
  pub username : Text
  pub password : Text
  pub tcp_agent_path : Text
  pub tcp_agent_username : Text
  pub tcp_agent_password : Text
  pub tcp_agent_require_tls : Bool
  pub tcp_agent_trusted_proxies : List Text
  pub tcp_agent_allowed_origins : List Text

pub data Endpoint : Type 0 where
  tunnel agent : Endpoint

-- What is called on the socket, oldest first; `upgrade` is `handleUpgrade` of the WebSocket server of
-- the tunnel clients or of the agents, which emits `connection` once the handshake is done.
pub data Action : Type 0 where
  write : String → Action
  destroy : Action
  upgrade : Endpoint → Action

abbrev pub not_implemented : String
not_implemented = "HTTP/1.1 501 Not Implemented\r\nConnection: close\r\n\r\n"

abbrev pub upgrade_required : String
upgrade_required = "HTTP/1.1 426 Upgrade Required\r\nConnection: close\r\nContent-Length: 0\r\n\r\n"

abbrev pub forbidden : String
forbidden = "HTTP/1.1 403 Forbidden\r\nConnection: close\r\nContent-Length: 0\r\n\r\n"

abbrev pub unauthorized : String
unauthorized =
    "HTTP/1.1 401 Unauthorized\r\nWWW-Authenticate: Basic realm=\"tunnel\"\r\nConnection: close\r\nContent-Length: 0\r\n\r\n"

-- `_rejectUpgrade`: a throw of `write` is ignored.
abbrev pub reject_upgrade : String → List Action
reject_upgrade text = write text ∷ destroy ∷ []

abbrev pub header_or_empty : Option Text → Text
header_or_empty none = []
header_or_empty (some s) = s

-- The request has an origin, some origins are listed, and it is not one of them.
unfoldable pub is_foreign : Option Text → List Text → Bool
unfolding text_in
is_foreign origin [] = false
is_foreign none (allowed ∷ rest) = false
is_foreign (some origin) (allowed ∷ rest) =
    if is_empty origin then false else not (text_in origin (allowed ∷ rest))

-- The path of the URL, or what stands before its first `?`.
abbrev pub path_or_url : Option Text → Text → Text
path_or_url none url = first_or_empty (split b'?' url)
path_or_url (some pathname) url = pathname

module _ (digest : Text → List ℕ) (decode : Text → Text) (other : Text → Option ℕ)
    (url_pathname : Text → Option Text) where
  -- `isAgentRequestSecure`
  unfoldable pub is_agent_request_secure : Request → List Text → Bool
  unfolding is_ip_allowed split trim to_lower text_eq
  is_agent_request_secure req [] = req.encrypted
  is_agent_request_secure req (proxy ∷ proxies) =
      if req.encrypted
      then true
      else if not (is_ip_allowed other req.remote_address (proxy ∷ proxies))
      then false
      else text_eq
          (to_lower (trim (first_or_empty (split b',' (header_or_empty req.forwarded_proto)))))
          (codes "https")

  -- The part of `handleUpgrade` for the agents' path.
  unfoldable pub handle_agent_upgrade : Settings → Bool → Request → List Action
  unfolding is_agent_request_secure is_foreign verify_basic_auth
  handle_agent_upgrade settings agent_wss req =
      if not agent_wss
      then reject_upgrade not_implemented
      else if settings.tcp_agent_require_tls
          && not (is_agent_request_secure req settings.tcp_agent_trusted_proxies)
      then reject_upgrade upgrade_required
      else if is_foreign req.origin settings.tcp_agent_allowed_origins
      then reject_upgrade forbidden
      else if not (
          verify_basic_auth digest decode req.authorization settings.tcp_agent_username
            settings.tcp_agent_password)
      then reject_upgrade unauthorized
      else upgrade agent ∷ []

  -- `handleUpgrade`; `agent_wss` says that there is a WebSocket server for the agents.
  unfoldable pub handle_upgrade : Settings → Bool → Request → List Action
  unfolding handle_agent_upgrade split text_eq
  handle_upgrade settings agent_wss req =
      let pathname = path_or_url (url_pathname req.url) req.url in
      if text_eq pathname settings.tcp_agent_path
      then handle_agent_upgrade settings agent_wss req
      else if not (text_eq pathname settings.tunnel_path)
      then reject_upgrade not_implemented
      else if not
          (verify_basic_auth digest decode req.authorization settings.username settings.password)
      then reject_upgrade unauthorized
      else upgrade tunnel ∷ []
