-- ===== src/Resolver/Files/Foreign/Tests.antt =====
-- A resolver file of others is not ours (pkg/maclet/dns_resolver.go).
use maclet.Prelude.{◌≡◌, refl, false}
use maclet.Prelude.Text.{codes}
use maclet.Resolver.{is_managed_resolver_file}

foreign_file : is_managed_resolver_file (codes "nameserver 10.0.0.1\n") ≡ false
unfolding is_managed_resolver_file
foreign_file = refl
