-- ===== src/Resolver/Manager/Agreement/Tests.antt =====
-- Concrete ticks of the resolver of pkg/maclet/dns_resolver.go.
use maclet.Prelude.{◌≡◌, refl, Bool, true, false, Option, none, some, List, [], ◌∷◌}
use maclet.Prelude.Exec.Triples.{Holds}
use maclet.Prelude.Text.{Text, codes}
use maclet.Resolver.{is_managed_resolver_file, default_path}
use maclet.Resolver.Files.{Call, World}
use maclet.Resolver.Manager.{Service, new_resolver, reconcile, cleanup}
use maclet.Resolver.Manager.Agreement.{IsTickDone, resolver-IsForeign, reconcile-IsPublished}

abbrev other_file : Text
other_file = codes "nameserver 10.0.0.1"

abbrev taken : World
taken = record { disk = λ q. some other_file; temporary = none; doubtful = []; calls = [] }

abbrev willing : List Call → Call → Bool
willing calls c = true

abbrev kube_dns : List Call → Option Service
kube_dns calls = some record { cluster_ips = codes "10.43.0.10" ∷ []; cluster_ip = [] }

other_is_foreign : is_managed_resolver_file other_file ≡ false
unfolding is_managed_resolver_file
other_is_foreign = refl

resolver-IsForeign_example :
    ((reconcile willing kube_dns (new_resolver true []) taken).1.disk default_path
      ≡ some other_file)
    × ((cleanup willing kube_dns (new_resolver true []) taken).1.disk default_path
        ≡ some other_file)
resolver-IsForeign_example =
    resolver-IsForeign willing kube_dns default_path other_file other_is_foreign
      (new_resolver true []) taken refl

reconcile-IsPublished_example :
    Holds
      (IsTickDone willing kube_dns)
      (reconcile willing kube_dns (new_resolver false []) (record taken { disk = λ q. none })).0
      (reconcile willing kube_dns (new_resolver false []) (record taken { disk = λ q. none })).1
unfolding new_resolver
reconcile-IsPublished_example =
    reconcile-IsPublished willing kube_dns (new_resolver false [])
      (record taken { disk = λ q. none }) refl
