-- ===== src/Http/Router.antt =====
-- src/server/HttpRouter.js: `handleRequest` and `_serveFile`.
use nodejs_wss_service_bridg.Base.{
  ℕ, Bool, true, false, ◌&&◌, ◌||◌, not, [], ◌∷◌, ◌++◌, Option, none, some, String, if◌then◌else◌,
}
use nodejs_wss_service_bridg.Base.Text.{Text, codes, text_eq, split}
use nodejs_wss_service_bridg.Protocol.{Bytes}
use nodejs_wss_service_bridg.IpAllowlist.{first_or_empty}
use nodejs_wss_service_bridg.Clients.{Sockets, Clients, get_active_client}
use nodejs_wss_service_bridg.Server.{Global}
use nodejs_wss_service_bridg.Http.{one, nothing, file, Net, Config}
use nodejs_wss_service_bridg.Http.Forward.{Incoming, Outcome, answered, answer, proxy_http_request}

-- What `handleRequest` comes to: an outcome, or one of the handlers that are not modelled
-- (`_serveLandingPage`, `_serveInstallScript`, `_handleConfigRequest`).
pub data Route : Type 0 where
  done : Outcome → Route
  landing_page install_script config_request : Route

-- The settings that are read: INSTALL_UUID, TUNNEL_PATH, TCP_AGENT_PATH, whether
-- TCP_AGENT_ALLOWED_PORTS has entries, and MAX_CONCURRENT_STREAMS.
pub record Settings : Type 0 where
  pub install_uuid : Text
  pub tunnel_path : Text
  pub tcp_agent_path : Text
  pub has_agent_ports : Bool
  pub max_concurrent_streams : ℕ

abbrev pub not_found : Route
not_found = done (answer 404 "Not found")

-- The path of an installed file: `/`, INSTALL_UUID, and the name.
abbrev pub installed : Settings → String → Text
installed settings name = b'/' ∷ (settings.install_uuid ++ codes name)

-- `(req.url || '/').split('?')[0]`
abbrev pub path_of : Text → Text
path_of [] = codes "/"
path_of (c ∷ s) = first_or_empty (split b'?' (c ∷ s))

-- `_serveFile`; `read_file` is the content of a file of the project, `none` where the read throws.
unfoldable pub serve_file : (String → Option Bytes) → String → String → Route
serve_file read_file path content_type = elim (read_file path) [
  | none ↦ done (answer 500 "Internal server error")
  | some content ↦ done (
      answered 200
        ((codes "Content-Type", some (one (codes content_type)))
          ∷ (codes "Cache-Control", some (one (codes "no-store")))
          ∷ [])
        (file content))
]

abbrev javascript : String
javascript = "application/javascript; charset=utf-8"

abbrev json_type : String
json_type = "application/json; charset=utf-8"

-- The tests for the files of the client and of the agent, and what is left: `none` where no test holds.
unfoldable pub installed_file : (String → Option Bytes) → Settings → Text → Option Route
unfolding serve_file text_eq
installed_file read_file settings pathname =
    if text_eq pathname (installed settings "-client.js")
    then some (serve_file read_file "dist/client.js" javascript)
    else if text_eq pathname (installed settings "-client-package.json")
    then some (serve_file read_file "serve/client-package.json" json_type)
    else if text_eq pathname (installed settings "-tcp-agent.js")
    then some (
        if settings.has_agent_ports
        then serve_file read_file "dist/tcp-agent.js" javascript
        else not_found)
    else if text_eq pathname (installed settings "-tcp-agent-package.json")
    then some (
        if settings.has_agent_ports
        then serve_file read_file "serve/tcp-agent-package.json" json_type
        else not_found)
    else none

-- All that `handleRequest` does itself: `none` where the request is left to the proxy; `connected`
-- says that `getActiveClient` returns a client.
unfoldable pub local_route : (String → Option Bytes) → Settings → Bool → Bool → Text → Option Route
unfolding installed_file text_eq
local_route read_file settings connected is_get pathname =
    let redirect =
      done (answered 302 ((codes "Location", some (one (codes "/__info"))) ∷ []) nothing) in
    if text_eq pathname (codes "/__health") || text_eq pathname (codes "/healthz")
    then some (done (answer 200 "ok"))
    else if text_eq pathname (codes "/") && is_get && not connected
    then some redirect
    else if text_eq pathname (codes "/__info") && is_get
    then some landing_page
    else if text_eq pathname (installed settings "-install")
    then some install_script
    else if text_eq pathname (installed settings "-config")
    then some config_request
    else elim (installed_file read_file settings pathname) [
      | some route ↦ some route
      | none ↦
          if text_eq pathname settings.tunnel_path
          then some not_found
          else if text_eq pathname settings.tcp_agent_path
          then some not_found
          else none
    ]

abbrev pub is_some : Option ℕ → Bool
is_some none = false
is_some (some ws) = true

-- `handleRequest`
unfoldable pub handle_request :
    (String → Option Bytes)
    → Settings
    → Net
    → Config
    → Sockets
    → Clients
    → ℕ
    → Incoming
    → Global
    → Route × Global
unfolding local_route split get_active_client proxy_http_request
handle_request read_file settings net config sockets clients ref req g =
    let connected = is_some (get_active_client sockets clients) in
    let (outcome, h) =
      proxy_http_request net config sockets clients settings.max_concurrent_streams ref req g in
    elim (local_route read_file settings connected (text_eq req.method (codes "GET"))
      (path_of req.url)) [ some route ↦ (route, g) | none ↦ (done outcome, h) ]
