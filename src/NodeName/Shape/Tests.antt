-- ===== src/NodeName/Shape/Tests.antt =====
-- Concrete names of hosts (pkg/maclet/node_name.go).
use maclet.Prelude.{◌≡◌, refl, none}
use maclet.Prelude.Text.{codes}
use maclet.NodeName.{node_name_from_hostname, default_node_name}
use maclet.NodeName.Shape.{IsNodeName, node_name_from_hostname-IsNodeName}

node_name_from_hostname-IsNodeName_example :
    IsNodeName (node_name_from_hostname (λ c. c) (codes " Ed's MacBook.local."))
node_name_from_hostname-IsNodeName_example =
    node_name_from_hostname-IsNodeName (λ c. c) (codes " Ed's MacBook.local.")

named :
    node_name_from_hostname (λ c. c) (codes " Ed's _MacBook-.local.") ≡ codes "ed-s-macbook.local"
unfolding node_name_from_hostname
named = refl

unnamed : default_node_name (λ c. c) (codes "maclet") none ≡ codes "maclet"
unfolding default_node_name
unnamed = refl
