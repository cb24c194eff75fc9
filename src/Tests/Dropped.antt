-- ===== src/Tests/Dropped.antt =====
-- The release of a claim's addresses, against a server that keeps book of its hosts.
use cluster_api_ipam_provide.Common.{◌≡◌, refl, some, none, false, [], ◌∷◌, returns}
use cluster_api_ipam_provide.Kube.{Kube}
use cluster_api_ipam_provide.Infoblox.Client.{client_over}
use cluster_api_ipam_provide.Controllers.Claim.{get_hostname, release_address}
use cluster_api_ipam_provide.Controllers.Handler.{Handler}
use cluster_api_ipam_provide.Controllers.Claim.Dropped.{Dropped, release_address-Dropped}
use cluster_api_ipam_provide.Tests.World.{
  claim, pool, host_config, cluster, unsorted, entry, host_record,
}
use cluster_api_ipam_provide.Tests.Ledger.{Ledger, ledger_wapi, set_host}
use cluster_api_ipam_provide.Tests.Ledger.Book.{ledger_book}

abbrev one_host : Ledger
one_host = set_host "host" (some (host_record (entry "10.0.0.9" ∷ []))) (λ h. none)

abbrev ledger_kube : Kube Ledger
ledger_kube = cluster pool [] false

abbrev ledger_handler : Handler Ledger
ledger_handler = record {
  claim = claim;
  pool = some pool;
  ib_client = some (client_over ledger_wapi host_config);
}

release_address-Dropped_example :
    (s' : Ledger) × (release_address ledger_kube unsorted (one_host, ledger_handler)
      ≡ returns tt (s', ledger_handler))
    × Dropped ledger_wapi host_config pool "host" pool.spec.subnets one_host s'
unfolding get_hostname
release_address-Dropped_example =
    release_address-Dropped ledger_kube unsorted (one_host, ledger_handler)
      (one_host, ledger_handler) pool ledger_wapi host_config "host" (ledger_book "default") refl
      refl refl refl
