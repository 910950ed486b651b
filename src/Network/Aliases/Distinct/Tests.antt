-- ===== src/Network/Aliases/Distinct/Tests.antt =====
-- A concrete run of the operations on addresses (pkg/maclet/darwin_network.go).
use maclet.Prelude.{contains, refl, List, [], ◌∷◌}
use maclet.Prelude.Text.{codes}
use maclet.Network.Handle.{Handle, Call, list_interfaces, Reply, done, table}
use maclet.Network.Aliases.{World, add_workload_ip, remove_workload_ip}
use maclet.Network.Aliases.Distinct.{IsDistinct, aliases-IsDistinct}

abbrev node : Handle
node = record {
  interface = codes "bridge100";
  pod_cidr = codes "10.42.3.0/24";
  gateway = codes "10.42.3.1";
  gateway_mac = [];
  peer_gateways = [];
  arps = [];
  routes = [];
  aliases = codes "10.42.3.3" ∷ codes "10.42.3.4" ∷ [];
}

abbrev quiet : List Call → Call → Reply
quiet h list_interfaces = table []
quiet h c = done

abbrev idle : World
idle = record { handle = node; calls = [] }

aliases-IsDistinct_example :
    IsDistinct (add_workload_ip quiet (codes "10.42.3.3") idle).1.handle.aliases
    × IsDistinct (remove_workload_ip quiet (codes "10.42.3.3") idle).1.handle.aliases
unfolding contains
aliases-IsDistinct_example = aliases-IsDistinct quiet (codes "10.42.3.3") idle (refl, (refl, tt))
