-- ===== src/Netip/Tests.antt =====
-- Texts of addresses and prefixes, read and printed.
use cluster_api_ipam_provide.Common.{◌≡◌, refl, Option, some, none, map, String, [], ◌∷◌}
use cluster_api_ipam_provide.Netip.Cidr.{parse_cidr}
use cluster_api_ipam_provide.Netip.Parse.{parse_addr, parse_prefix}
use cluster_api_ipam_provide.Netip.Print.{addr_text, prefix_text}
use mathlib.Core.Option

abbrev reprint : String → Option String
reprint s = Option.map addr_text (parse_addr s)

reprinted :
    map reprint (
      "10.0.0.1" ∷ "2001:DB8::0:1" ∷ "::" ∷ "::ffff:1.2.3.4" ∷ "fe80::1%eth0" ∷ "1::2:0:0:0:5"
      ∷ "1:2:3:4:5:6:7:8" ∷ [])
    ≡ some "10.0.0.1"
      ∷ some "2001:db8::1"
      ∷ some "::"
      ∷ some "::ffff:1.2.3.4"
      ∷ some "fe80::1%eth0"
      ∷ some "1:0:0:2::5"
      ∷ some "1:2:3:4:5:6:7:8"
      ∷ []
unfolding parse_addr addr_text
reprinted = refl

refused :
    map parse_addr (
      "10.0.0.256" ∷ "10.0.0" ∷ "10.0.0.01" ∷ "1::2::3" ∷ "1:2:3:4:5:6:7" ∷ "" ∷ "::1%" ∷ "12345::"
      ∷ [])
    ≡ none ∷ none ∷ none ∷ none ∷ none ∷ none ∷ none ∷ none ∷ []
unfolding parse_addr
refused = refl

prefixes :
    map
      (λ s. Option.map prefix_text (parse_prefix s))
      ("192.168.0.0/24" ∷ "2001:db8::/64" ∷ "10.0.0.0/33" ∷ "10.0.0.0/08" ∷ "10.0.0.0" ∷ [])
    ≡ some "192.168.0.0/24" ∷ some "2001:db8::/64" ∷ none ∷ none ∷ none ∷ []
unfolding parse_prefix prefix_text
prefixes = refl

networks :
    map
      (λ s. Option.map prefix_text (parse_cidr s))
      ("10.0.0.7/08" ∷ "10.0.0.0/24" ∷ "2001:db8::1/64" ∷ "::ffff:1.2.3.4/120" ∷ "10.0.0.0/33"
        ∷ "10.0.0.0/" ∷ "fe80::1%a/64" ∷ [])
    ≡ some "10.0.0.0/8"
      ∷ some "10.0.0.0/24"
      ∷ some "2001:db8::/64"
      ∷ some "1.2.3.0/24"
      ∷ none
      ∷ none
      ∷ none
      ∷ []
unfolding parse_cidr prefix_text
networks = refl
