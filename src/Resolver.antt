-- ===== src/Resolver.antt =====
-- The resolver file of the cluster's DNS (pkg/maclet/dns_resolver.go): what is in it, and the list of
-- nameservers. Files has the file system, Manager the resolver of a session.
pub mod Files
pub mod Nameservers
pub mod Manager
use maclet.Prelude.{
  ℕ, Bool, true, false, not, ◌||◌, ◌&&◌, Option, none, some, List, [], ◌∷◌, ◌++◌, ◌==◌, ltb, eqb,
  text_eq_instance, list_eq, contains, if◌then◌else◌,
}
use maclet.Prelude.Text.{Text, codes, trim_space, cut}
use maclet.Net.Cidr.{parse_ip}
use maclet.Workloads.Journal.{text_less}

abbrev pub managed_comment : Text
managed_comment = codes "# Managed by maclet; do not edit."

abbrev pub domain_comment_prefix : Text
domain_comment_prefix = codes "# Cluster DNS domain: "

abbrev pub default_domain : Text
default_domain = codes "cluster.local"

abbrev pub default_path : Text
default_path = codes "/etc/resolver/cluster.local"

unfoldable pub nameserver_lines : List Text → Text
nameserver_lines [] = []
nameserver_lines (n ∷ ns) = codes "nameserver " ++ n ++ b'\n' ∷ nameserver_lines ns

unfoldable pub resolver_file_content : Text → List Text → Text
unfolding nameserver_lines
resolver_file_content domain nameservers =
    managed_comment
    ++ b'\n' ∷ (domain_comment_prefix ++ domain ++ b'\n' ∷ nameserver_lines nameservers)

-- The first line is what stands before the first line break.
unfoldable pub is_managed_resolver_file : Text → Bool
unfolding cut trim_space
is_managed_resolver_file body = trim_space (cut b'\n' body).0 == managed_comment

abbrev pub is_ip : Text → Bool
is_ip s = elim (parse_ip s) [ none ↦ false | some ip ↦ true ]

-- The loop of validNameservers, with the candidates seen so far
unfoldable pub nameservers_from : List Text → List Text → List Text
unfolding trim_space contains
nameservers_from seen [] = []
nameservers_from seen (c ∷ cs) =
    let n = trim_space c in
    let skip = nameservers_from seen cs in
    let keep = n ∷ nameservers_from (n ∷ seen) cs in
    if n == [] || not (is_ip n) || contains seen n then skip else keep

unfoldable pub insert_text : Text → List Text → List Text
unfolding text_less
insert_text t [] = t ∷ []
insert_text t (x ∷ xs) =
    let rest = insert_text t xs in if text_less x t then x ∷ rest else t ∷ x ∷ xs

-- sort.Strings
unfoldable pub sort_texts : List Text → List Text
unfolding insert_text
sort_texts [] = []
sort_texts (t ∷ ts) = insert_text t (sort_texts ts)

unfoldable pub valid_nameservers : List Text → List Text
unfolding nameservers_from sort_texts
valid_nameservers candidates = sort_texts (nameservers_from [] candidates)

-- sameStrings
unfoldable pub same_strings : List Text → List Text → Bool
unfolding list_eq
same_strings left right = list_eq left right
