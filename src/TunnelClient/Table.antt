-- ===== src/TunnelClient/Table.antt =====
-- The tunnel client's table of streams: what holds of it between two events, and the operations that
-- keep it.
pub mod Handlers
pub mod Frames
pub mod Requests
use nodejs_wss_service_bridg.Base.{ℕ, ◌+◌, ◌≡◌, refl, Bool, true, false, Option, none}
use nodejs_wss_service_bridg.Base.Map.{get, put, delete}
use nodejs_wss_service_bridg.Objects
use nodejs_wss_service_bridg.Objects.{IsTable}
use nodejs_wss_service_bridg.TunnelClient.{Stream, Client, Effect, change, emit}

abbrev pub is_cleaned : Stream → Bool
is_cleaned s = s.cleaned

abbrev pub id_of : Stream → ℕ
id_of s = s.id

unfoldable pub IsClient : Client → Type 0
IsClient c = IsTable is_cleaned id_of c.streams c.objects c.next_object

pub change-IsTable :
    (ref : ℕ) (s : Stream) (c : Client)
    → IsClient c
    → s.cleaned ≡ (c.objects ref).cleaned
    → s.id ≡ (c.objects ref).id
    → IsClient (change ref s c)
unfolding IsClient
change-IsTable ref s c h e i = Objects.set-IsTable is_cleaned id_of h ref s e i

pub drop-IsTable :
    (ref : ℕ) (s : Stream) (c : Client)
    → IsClient c
    → (c.objects ref).cleaned ≡ false
    → s.cleaned ≡ true
    → IsClient (record (change ref s c) { streams = delete (c.objects ref).id c.streams })
unfolding IsClient
drop-IsTable ref s c h l e = Objects.drop-IsTable is_cleaned id_of h ref s l e

pub add-IsTable :
    (id : ℕ) (s : Stream) (c : Client)
    → IsClient c
    → get id c.streams ≡ none
    → s.cleaned ≡ false
    → s.id ≡ id
    → IsClient (record (change c.next_object s c) {
      streams = put id c.next_object c.streams;
      next_object = c.next_object + 1;
    })
unfolding IsClient
add-IsTable id s c h fresh l i = Objects.add-IsTable is_cleaned id_of h id s fresh l i

pub emit-IsTable : (e : Effect) (c : Client) → IsClient c → IsClient (emit e c)
unfolding IsClient
emit-IsTable e c h = h

pub sockets-IsTable :
    (destroyed : ℕ → Bool) (c : Client)
    → IsClient c
    → IsClient (record c { socket_destroyed = destroyed })
unfolding IsClient
sockets-IsTable destroyed c h = h
