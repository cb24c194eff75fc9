-- ===== src/Tests/Owners.antt =====
-- The search for a machine among the owners of a claim, in a cluster that has one.
use mathlib.Core.List.{Memᴰ}
use cluster_api_ipam_provide.Common.{◌≡◌, ◌≢◌, ◌↔◌, String, refl, returns, none, [], ◌∷◌}
use cluster_api_ipam_provide.Api.{OwnerReference, OwnedObject}
use cluster_api_ipam_provide.Hostname.{search_hostname, object_of_claim}
use cluster_api_ipam_provide.Hostname.Search.{IsOwnedBy}
use cluster_api_ipam_provide.Hostname.Complete.{IsClosed, search_hostname_iff}
use cluster_api_ipam_provide.Controllers.Handler.{machine_kind}
use cluster_api_ipam_provide.Tests.World.{claim, kube, machine_reference, unsorted}

-- Objects whose owners all have names.
abbrev Named : OwnedObject → Type 0
Named obj = (o : OwnerReference) → Memᴰ o obj.owner_references → o.name ≢ ""

Named-one :
    (namespace : String) (r : OwnerReference)
    → r.name ≢ ""
    → Named (record { namespace = namespace; owner_references = r ∷ [] })
Named-one namespace r given o (Memᴰ.head e) = rw e given
Named-one namespace r given o (Memᴰ.tail m) = elim m [ ]

closed : IsClosed kube unsorted machine_kind Named
closed = record {
  fetched = λ obj o named m. (
    record { namespace = "ns"; owner_references = machine_reference ∷ [] },
    Named-one "ns" machine_reference (λ bad. cc),
    λ s. refl,
  );
  named = λ obj o named m fits. named o m;
}

search_hostname_iff_example :
    ((name : String) × (search_hostname kube unsorted machine_kind 5 claim none
        ≡ returns name none))
    ↔ ((name : String) × IsOwnedBy kube machine_kind 4 (object_of_claim claim) name)
search_hostname_iff_example =
    search_hostname_iff kube unsorted machine_kind Named closed (λ cmp os o m. m) 5 claim none
      (λ cmp os o m. m)
      (Named-one "ns"
        (record { api_version = "infrastructure.cluster.x-k8s.io/v1"; kind = "VM"; name = "vm" })
        (λ bad. cc))
