-- ===== src/Resolver/Files/Installed/Tests.antt =====
-- Concrete writes of pkg/maclet/dns_resolver.go.
use maclet.Net.V4.{parse_v4}
use maclet.Net.Cidr.{parse_ip}
use maclet.Prelude.Exec.Bind.{◌>>=◌}
use maclet.Prelude.{◌≡◌, refl, Bool, true, false, none, some, List, [], ◌∷◌, ok}
use maclet.Prelude.Text.{Text, codes}
use maclet.Resolver.{default_path, default_domain}
use maclet.Resolver.Files.{
  write_content, remove_temporary, Call, World, write_managed_resolver_file,
}

abbrev empty_disk : World
empty_disk = record { disk = λ q. none; temporary = none; doubtful = []; calls = [] }

abbrev willing : List Call → Call → Bool
willing calls c = true

abbrev dns : List Text
dns = codes "10.43.0.10" ∷ []

written : (write_managed_resolver_file willing default_path default_domain dns empty_disk).0 ≡ ok tt
unfolding write_managed_resolver_file ◌>>=◌ parse_ip parse_v4
written = refl

-- A full disk, where the temporary file cannot be removed either
abbrev full_disk : List Call → Call → Bool
full_disk calls write_content = false
full_disk calls remove_temporary = false
full_disk calls c = true

left_behind :
    (write_managed_resolver_file full_disk default_path default_domain dns empty_disk).1.temporary
    ≡ some record { content = []; has_mode = true; synced = false }
unfolding write_managed_resolver_file ◌>>=◌ parse_ip parse_v4
left_behind = refl
