-- ===== src/Servient/Stopped.antt =====
-- The operations that only a stopped servient allows.
use wotpy.Prelude.{
  ℕ, String, ◌≡◌, true, false, Option, none, some, ◌==◌, nat_eq, string_eq, arith, if◌then◌else◌,
}
use wotpy.Outcome.{Outcome, raised, servient_state}
use wotpy.Dict
use wotpy.Dict.{Dict, values, pop}
use wotpy.Dict.Laws.{get-set, get-pop}
use wotpy.Servient.Forms.{Server}
use wotpy.Servient.Defs.{
  Servient, Client, add_server, remove_server, add_client, remove_client, set_catalogue_port,
  disable_td_catalogue,
}

abbrev pub refused : Servient → Outcome (Unit {0}) × Servient
refused s = (raised (servient_state "Attempted to modify the Servient while it was running"), s)

-- While a servient runs, its servers, its clients and the port of its catalogue stay as they are: each
-- operation that would change them raises and changes nothing.
pub running_refuses :
    (s : Servient) (server : Server) (client : Client) (protocol : String) (port : Option ℕ)
    → s.is_running ≡ true
    → (add_server server s ≡ refused s)
      × (remove_server protocol s ≡ refused s)
      × (add_client client s ≡ refused s)
      × (remove_client protocol s ≡ refused s)
      × (set_catalogue_port port s ≡ refused s)
      × (disable_td_catalogue s ≡ refused s)
unfolding add_server remove_server add_client remove_client set_catalogue_port disable_td_catalogue
running_refuses s server client protocol port h =
    (ground arith, ground arith, ground arith, ground arith, ground arith, ground arith)

-- On a stopped servient a server that was added stands under its protocol, the others stay, and
-- removing the protocol takes it out again.
pub stopped_servers :
    (s : Servient) (server : Server) (protocol : String)
    → s.is_running ≡ false
    → (Dict.get protocol (add_server server s).1.servers
        ≡ (if server.protocol == protocol then some server else Dict.get protocol s.servers))
      × (Dict.get protocol (remove_server server.protocol (add_server server s).1).1.servers
          ≡ (if server.protocol == protocol then none else Dict.get protocol s.servers))
unfolding add_server remove_server
stopped_servers s server protocol h = (
  ground (arith, get-set server.protocol protocol server s.servers),
  ground (
    arith,
    get-set server.protocol protocol server s.servers,
    get-pop server.protocol protocol (Dict.set server.protocol server s.servers),
  ),
)
