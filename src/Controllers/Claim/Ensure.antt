-- ===== src/Controllers/Claim/Ensure.antt =====
-- The loop of `EnsureAddress` over the subnets of the pool.
use cluster_api_ipam_provide.Common.{
  none, All, ◌⊎◌, ◌≡◌, refl, ap, String, List, [], ◌∷◌, ◌++◌, some, arith, returns, fails, Error,
  text, Option-cases, inl, inr, Outcome-cases, Action,
}
use cluster_api_ipam_provide.Netip.{Addr, Prefix}
use cluster_api_ipam_provide.Netip.Parse.{parse_prefix}
use cluster_api_ipam_provide.Infoblox.Client.{Client}
use cluster_api_ipam_provide.Api.{
  IpAddressClaim, holds, fails_with, address_allocated_reason, allocation_failed_reason, Subnet,
  InfobloxIpPool, IpAddress,
}
use cluster_api_ipam_provide.Kube.{Kube}
use cluster_api_ipam_provide.Hostname.{SortFunc}
use cluster_api_ipam_provide.Controllers.Pool.{dns_view_of}
use cluster_api_ipam_provide.Controllers.Claim.{allocate_from}
use cluster_api_ipam_provide.Controllers.Handler.{Handler, filled_in}

module _ {S : Type 0} (pool : InfobloxIpPool) (host_name : String) (address : IpAddress) where
  -- The request for an address in a subnet.
  abbrev pub request : Client S → Prefix → Action S Addr
  request ib subnet =
      ib.get_or_allocate_address pool.spec.network_view (dns_view_of pool ib) subnet host_name
        pool.spec.dns_zone

  -- The subnet cannot be parsed, or the client failed to give an address in it.
  abbrev pub IsPassedOver : Client S → Subnet → Type 0
  IsPassedOver ib sub =
      (parse_prefix sub.cidr ≡ none)
      ⊎ ((p : Prefix) × (e : Error) × (s s' : S) × (parse_prefix sub.cidr ≡ some p)
          × (request ib p s ≡ fails e s'))

  -- The way in which an address came about: a subnet of the list parses, those before it were passed
  -- over, the client gave an address for it, and the object has that address, its prefix length and
  -- the subnet's gateway.
  pub record CameFrom (ib : Client S) (subs : List Subnet) (result : IpAddress) : Type 0 where
    pub sub : Subnet
    pub before : List Subnet
    pub later : List Subnet
    pub listed : subs ≡ before ++ sub ∷ later
    pub passed_over : All (IsPassedOver ib) before
    pub subnet : Prefix
    pub parsed : parse_prefix sub.cidr ≡ some subnet
    pub allocated : Addr
    pub from : S
    pub to : S
    pub given : request ib subnet from ≡ returns allocated to
    pub filled : result ≡ filled_in address allocated subnet sub

module _ {S : Type 0} (kube : Kube S) where
  -- What a handler holds after a success: the claim is ready, and nothing else has changed.
  abbrev pub made_ready : Handler S → Handler S
  made_ready h =
      let claim : IpAddressClaim = h.claim in
      record h {
        claim = record claim {
          conditions = kube.set_condition (holds address_allocated_reason "") claim.conditions;
        };
      }

  -- What it holds after a failure: the claim is not ready, for the reason of the error.
  abbrev pub made_unready : String → Handler S → Handler S
  made_unready message h =
      let claim : IpAddressClaim = h.claim in
      record h {
        claim = record claim {
          conditions =
              kube.set_condition (fails_with allocation_failed_reason message) claim.conditions;
        };
      }

module _ {S : Type 0} (kube : Kube S) (sort_func : SortFunc) (pool : InfobloxIpPool)
    (host_name : String) (address : IpAddress) where
  abbrev passing_over :
      (ib : Client S) (sub : Subnet) (subs : List Subnet) (result : IpAddress)
      → IsPassedOver pool host_name address ib sub
      → CameFrom pool host_name address ib subs result
      → CameFrom pool host_name address ib (sub ∷ subs) result
  passing_over ib sub subs result over c = record {
    sub = c.sub;
    before = sub ∷ c.before;
    later = c.later;
    listed = ap (λ l. sub ∷ l) c.listed;
    passed_over = (over, c.passed_over);
    subnet = c.subnet;
    parsed = c.parsed;
    allocated = c.allocated;
    from = c.from;
    to = c.to;
    given = c.given;
    filled = c.filled;
  }

  pub allocate_from-CameFrom :
      (ib : Client S) (errs : List Error) (subs : List Subnet) (w w' : S × Handler S)
      (result : IpAddress)
      → w.1.ib_client ≡ some ib
      → allocate_from kube sort_func pool host_name address errs subs w ≡ returns result w'
      → (c : CameFrom pool host_name address ib subs result) × (w'.0 ≡ c.to)
        × (w'.1 ≡ made_ready kube w.1)
  unfolding allocate_from
  allocate_from-CameFrom ib errs [] w w' result has_ib h = absurd (ground arith)
  allocate_from-CameFrom ib errs (sub ∷ subs) w w' result has_ib h =
      elim (Option-cases (parse_prefix sub.cidr)) [
        | inl bad ↦
            let (c, at, same) =
              allocate_from-CameFrom ib errs subs w w' result has_ib (ground arith) in
            (passing_over ib sub subs result (inl bad) c, at, same)
        | inr (subnet, parsed) ↦
            elim (Outcome-cases (request pool host_name address ib subnet w.0)) [
              | inl (a, s, given) ↦ (
                record {
                  sub = sub;
                  before = [];
                  later = subs;
                  listed = refl;
                  passed_over = tt;
                  subnet = subnet;
                  parsed = parsed;
                  allocated = a;
                  from = w.0;
                  to = s;
                  given = given;
                  filled = ground arith;
                },
                ground arith,
                ground arith,
              )
              | inr (inl (e, s, failed)) ↦
                  let (c, at, same) =
                    allocate_from-CameFrom ib (errs ++ e ∷ []) subs (s, w.1) w' result has_ib
                      (ground arith) in
                  (
                    passing_over ib sub subs result (inr (subnet, e, w.0, s, parsed, failed)) c,
                    at,
                    same,
                  )
              | inr (inr (s, crashed)) ↦ absurd (ground arith)
            ]
      ]

  -- If no subnet yields an address, the call fails with the joined errors, and the claim says so.
  pub allocate_from-made_unready :
      (ib : Client S) (errs : List Error) (subs : List Subnet) (w w' : S × Handler S) (e : Error)
      → w.1.ib_client ≡ some ib
      → allocate_from kube sort_func pool host_name address errs subs w ≡ fails e w'
      → w'.1 ≡ made_unready kube (text e) w.1
  unfolding allocate_from
  allocate_from-made_unready ib errs [] w w' e has_ib h = ground arith
  allocate_from-made_unready ib errs (sub ∷ subs) w w' e has_ib h =
      elim (Option-cases (parse_prefix sub.cidr)) [
        | inl bad ↦ allocate_from-made_unready ib errs subs w w' e has_ib (ground arith)
        | inr (subnet, parsed) ↦
            elim (Outcome-cases (request pool host_name address ib subnet w.0)) [
              | inl (a, s, given) ↦ absurd (ground arith)
              | inr (inl (e₁, s, failed)) ↦
                  allocate_from-made_unready ib (errs ++ e₁ ∷ []) subs (s, w.1) w' e has_ib
                    (ground arith)
              | inr (inr (s, crashed)) ↦ absurd (ground arith)
            ]
      ]
