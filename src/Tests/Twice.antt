-- ===== src/Tests/Twice.antt =====
-- Ensuring the address of a claim twice, on a concrete claim.
use cluster_api_ipam_provide.Common.{◌≡◌, refl, returns, has_suffix}
use cluster_api_ipam_provide.Netip.{contains}
use cluster_api_ipam_provide.Netip.Parse.{parse_addr, parse_prefix}
use cluster_api_ipam_provide.Netip.Print.{addr_text}
use cluster_api_ipam_provide.Infoblox.Records.{
  entry_addr, first_in, get_allocated_host_record_addr_in_subnet, get_or_new_host_record,
  host_query,
}
use cluster_api_ipam_provide.Infoblox.Addresses as Addresses
use cluster_api_ipam_provide.Api.{IpAddress}
use cluster_api_ipam_provide.Controllers.Claim.{
  ensure_address, ensure_hostname, get_hostname, allocate_from,
}
use cluster_api_ipam_provide.Controllers.Handler.{Handler, annotated}
use cluster_api_ipam_provide.Controllers.Claim.Ensure.{made_ready}
use cluster_api_ipam_provide.Controllers.Claim.Again.{ensure_address-again}
use cluster_api_ipam_provide.Tests.World.{Server, wapi, host_config, pool, kube, unsorted, handler}
use cluster_api_ipam_provide.Tests.Addresses.{remembers}
use cluster_api_ipam_provide.Tests.Claims.{blank, known, filled}

ensure_address-again_example :
    (again : IpAddress) × (h : Handler Server) × (ensure_address kube unsorted blank
        (known, made_ready kube (annotated "host" (handler pool)))
      ≡ returns again (known, h))
    × (again.address ≡ filled.address)
    × (again.prefix ≡ filled.prefix)
    × (again.gateway ≡ filled.gateway)
unfolding ensure_address ensure_hostname get_hostname allocate_from has_suffix parse_prefix
    Addresses.get_or_allocate_address get_or_new_host_record host_query first_in entry_addr
    parse_addr contains get_allocated_host_record_addr_in_subnet addr_text
ensure_address-again_example =
    ensure_address-again kube unsorted blank blank filled (known, handler pool)
      (known, made_ready kube (annotated "host" (handler pool))) pool wapi host_config
      (record { cidr = "10.0.0.0/24"; gateway = "10.0.0.1" }) remembers refl refl refl (λ bad. cc)
      refl
