-- ===== src/TcpAgent/Ready.antt =====
-- serve/tcp-agent.js: the readiness of the agent, on which the ready file stands.
use nodejs_wss_service_bridg.Base.{
  ℕ, Bool, true, false, ◌&&◌, ◌||◌, not, List, [], ◌∷◌, has, if◌then◌else◌,
}
use nodejs_wss_service_bridg.PortParser.{Route}
use nodejs_wss_service_bridg.TcpAgent.{Net, Config, Agent, ws_ready}

-- `allListenersListening`
unfoldable pub all_listening : List Route → List ℕ → Bool
all_listening [] ports = true
all_listening (route ∷ routes) ports = has route.local_port ports && all_listening routes ports

-- `writeReadyFile` and `removeReadyFile`
unfoldable pub write_ready_file : Net → Config → Agent → Agent
write_ready_file net config a = record a {
  ready_file = config.has_ready_file && net.file_written || a.ready_file;
}

-- A throw of `rmSync` is ignored: the file stays.
unfoldable pub remove_ready_file : Config → Agent → Agent
remove_ready_file config a =
    if config.has_ready_file && config.file_removed then record a { ready_file = false } else a

-- `markReadyIfEligible`
unfoldable pub mark_ready_if_eligible : Net → Config → Agent → Agent
unfolding all_listening write_ready_file
mark_ready_if_eligible net config a =
    if a.ready || a.shutting_down
    then a
    else if not (ws_ready a) || not (all_listening config.routes a.listening_ports)
    then a
    else write_ready_file net config (record a { ready = true })

-- `clearReady`
unfoldable pub clear_ready : Config → Agent → Agent
unfolding remove_ready_file
clear_ready config a = remove_ready_file config (record a { ready = false })
