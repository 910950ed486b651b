-- ===== src/Workloads/Arguments/Fixtures.antt =====
-- A container and what its arguments are made from, for the tests of pkg/maclet/workload_mounts.go.
use maclet.Prelude.{true, false, [], ◌∷◌, ok}
use maclet.Prelude.Text.{codes}
use maclet.Go.Numbers.{pos}
use maclet.Workloads.Arguments.{RunSpec, RunInputs}

abbrev pub inputs : RunInputs
inputs = record {
  host_network = false;
  network_is_valid = true;
  disable_port_forward = false;
  ip = codes "10.42.3.3";
  container_name = codes "maclet-default-web";
  volume_args = ok [];
  environment = ok (codes "A=1" ∷ []);
}

abbrev pub web : RunSpec
web = record {
  image = codes "web:1";
  working_dir = codes "/srv/";
  ports = record { container_port = pos 80; host_port = pos 0; protocol = codes "tcp" } ∷ [];
  command = codes "serve" ∷ codes "-v" ∷ [];
  args = codes "x" ∷ [];
}
