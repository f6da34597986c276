-- ===== src/Daemon/RouteExamples.antt =====
-- The theorems on the route's cache and on the module's description at concrete inputs, and tests.
use ssc.Base.{
  ◌≡◌, refl, true, false, List, [], ◌∷◌, ◌++◌, none, some, Option, Bytes, codes, arith, text_eq,
  if◌then◌else◌,
}
use ssc.Config.Files.{Disk, written}
use ssc.Daemon.ModuleProp.{prop_path, StateChange, show_status, with_status}
use ssc.Daemon.Route.{RouteInfo, Call, AllRecent, route_info-AllRecent, iface_of}
use ssc.Daemon.Shown.{showing, last_status, show_status-shows}

-- two calls, the second within five seconds and the third after them
abbrev calls : List Call
calls =
    record { now = 10; later = 20; local_address = some (codes "10.0.0.1:9"); interfaces = [] }
    ∷ record { now = 30; later = 30; local_address = none; interfaces = [] }
    ∷ record { now = 6000000000; later = 6000000001; local_address = none; interfaces = [] }
    ∷ []

abbrev nowhere : RouteInfo
nowhere = record { online = false; raw = []; iface = []; gw = []; src = [] }

route_info-AllRecent_example : AllRecent calls (record { ri = nowhere; expires = 0 }) []
route_info-AllRecent_example =
    route_info-AllRecent calls nowhere (omega arith, (omega arith, (omega arith, tt)))

-- an address that is longer is taken for the own one
longer_address_is_taken :
    iface_of
      (codes "10.0.0.1")
      ((codes "tun0", codes "10.0.0.12/24" ∷ []) ∷ (codes "wlan0", codes "10.0.0.1/24" ∷ []) ∷ [])
    ≡ codes "tun0"
unfolding iface_of ssc.Daemon.Route.is_own ssc.Base.has_prefix
longer_address_is_taken = refl

abbrev module_text : Bytes
module_text = codes "id=sshcustom" ++ b'\n' ∷ codes "description=old" ++ b'\n' ∷ codes "x=1"

status_is_written :
    with_status (codes "running") module_text
    ≡ codes "id=sshcustom"
      ++ b'\n' ∷ codes "description=[*] SSHCustom-Magisk - running"
      ++ b'\n' ∷ codes "x=1"
unfolding with_status ssc.Daemon.ModuleProp.split_newline ssc.Daemon.ModuleProp.join_newline
    ssc.Daemon.ModuleProp.set_desc ssc.Daemon.ModuleProp.desc_of ssc.Base.has_prefix
    ssc.Base.text_eq
status_is_written = refl

abbrev module_disk : Disk
module_disk path = if text_eq path prop_path then some module_text else none

abbrev up_then_down : List StateChange
up_then_down =
    record { connected = true; running = true; write = written }
    ∷ record { connected = false; running = false; write = written }
    ∷ []

show_status-shows_example :
    show_status
      (record { connected = false; running = true; write = written } ∷ up_then_down)
      []
      module_disk
      prop_path
    ≡ showing
        (last_status []
          (record { connected = false; running = true; write = written } ∷ up_then_down))
        (module_disk prop_path)
show_status-shows_example =
    show_status-shows (record { connected = false; running = true; write = written }) up_then_down
      module_disk (refl, (refl, (refl, tt)))
