-- ===== src/Tests/Ledger/Book.antt =====
-- The server of the tests keeps book of its hosts.
use text.Mathlib.TextEquality.{eq_iff}
use text.Mathlib.TextPositions.{eq_refl}
use cluster_api_ipam_provide.Common.{
  ◌≡◌, ◌≢◌, refl, sym, ap, ◌∙◌, String, Bool, true, false, Option, none, some, List, [], ◌∷◌, map,
  ok, err, arith, plain, Error, not, ◌&&◌, ◌||◌, elements, if◌then◌else◌, ◌==◌, string_eq,
  Bool-cases, inl, inr, Result,
}
use cluster_api_ipam_provide.Infoblox.Wapi.{HostRecordAddr, HostRecord}
use cluster_api_ipam_provide.Infoblox.Records.{host_query}
use cluster_api_ipam_provide.Infoblox.Leases.{entries_of}
use cluster_api_ipam_provide.Infoblox.Leases.Entries.{is_request, IsSettled, Resolved}
use cluster_api_ipam_provide.Infoblox.Leases.Book.{Written, Erased, Book}
use cluster_api_ipam_provide.Tests.Ledger.{
  Ledger, answered_entry, shown_record, set_host, host_of, find_answer, get_answer, listed, row,
  name_or_empty, asking, is_free, allowed, written_in, ledger_wapi,
}

answered_entry-settled :
    (host : String) (ip : HostRecordAddr) → is_request (answered_entry host ip) ≡ false
answered_entry-settled host ip = elim (Bool-cases (is_request ip)) [
  | inl asks ↦ elim (Bool-cases (host == "host")) [
    | inl same ↦ rw (asks, same) refl
    | inr apart ↦ rw (asks, apart) refl
  ]
  | inr holds ↦ rw holds holds
]

map-answered-IsSettled :
    (host : String) (ips : List HostRecordAddr) → IsSettled (map (answered_entry host) ips)
map-answered-IsSettled host [] = tt
map-answered-IsSettled host (ip ∷ ips) =
    (answered_entry-settled host ip, map-answered-IsSettled host ips)

map-answered-Resolved :
    (host : String) (ips : List HostRecordAddr) → Resolved ips (map (answered_entry host) ips)
map-answered-Resolved host [] = tt
map-answered-Resolved host (ip ∷ ips) = (
  elim (Bool-cases (is_request ip)) [ inl asks ↦ rw asks tt | inr holds ↦ rw holds refl ],
  map-answered-Resolved host ips,
)

pub row_self :
    (host : String) (r : Option HostRecord) (s : Ledger)
    → listed host ≡ true
    → row (set_host host r s) host ≡ r
row_self host r s known = rw (known, eq_refl host) refl

got_is_shown :
    (host : String) (written x : HostRecord) (r : Option HostRecord) (s s₂ : Ledger)
    → r ≡ some written
    → (◌≡◌ {A = Result HostRecord × Ledger} (get_answer host r, s) (ok x, s₂))
    → (x ≡ shown_record host written) × (s ≡ s₂)
got_is_shown host written x none s s₂ self e = absurd (ground arith)
got_is_shown host written x (some hr) s s₂ self e =
    let same : hr ≡ written = cc in
    let answered : shown_record host hr ≡ x = cc in
    (sym answered ∙ ap (shown_record host) same, ap (λ p. p.1) e)

row_ne :
    (host other : String) (r : Option HostRecord) (s : Ledger)
    → other ≢ host
    → row (set_host host r s) other ≡ row s other
row_ne host other r s apart = elim (Bool-cases (other == host)) [
  | inl same ↦ absurd (apart ((eq_iff other host).0 same))
  | inr differs ↦ rw differs refl
]

set_host-Written :
    (view host : String) (written : HostRecord) (s : Ledger)
    → listed host ≡ true
    → Written ledger_wapi view host written (String.◌∷◌ "r" host) s (set_host host (some written) s)
unfolding host_query
set_host-Written view host written s known = record {
  hr = shown_record host written;
  found = rw (row_self host (some written) s known) refl;
  resolved = λ f.
      elim f as (λ g. Resolved (entries_of written g) (entries_of (shown_record host written) g)) [
        | true ↦ map-answered-Resolved host (elements written.ipv4_addrs)
        | false ↦ map-answered-Resolved host (elements written.ipv6_addrs)
      ];
  fetched = λ x s₂ e.
      got_is_shown host written x (row (set_host host (some written) s) host)
        (set_host host (some written) s) s₂ (row_self host (some written) s known) e;
  others = λ o apart. ap (λ r. find_answer o r) (row_ne host o (some written) s apart);
}

found-ref :
    (host : String) (r : Option HostRecord) (s s' : Ledger) (old : HostRecord)
    → (◌≡◌ {A = Result (List HostRecord) × Ledger} (find_answer host r, s) (ok (old ∷ []), s'))
    → String.◌∷◌ "r" host ≡ old.ref
found-ref host none s s' old e = absurd (ground arith)
found-ref host (some hr) s s' old e =
    let same : shown_record host hr ≡ old = cc in ap (λ hr. hr.ref) same

ref-text : (host : String) → String.◌∷◌ "r" host ≢ ""
ref-text host bad = cc

IsSettled-answer :
    (host : String) (hr : HostRecord) (r : Option HostRecord) (family : Bool)
    → find_answer host r ≡ ok (hr ∷ [])
    → IsSettled (entries_of hr family)
IsSettled-answer host hr none family e = absurd (ground arith)
IsSettled-answer host hr (some x) true e =
    let same : shown_record host x ≡ hr = cc in
    rw (← same) (map-answered-IsSettled host (elements x.ipv4_addrs))
IsSettled-answer host hr (some x) false e =
    let same : shown_record host x ≡ hr = cc in
    rw (← same) (map-answered-IsSettled host (elements x.ipv6_addrs))

host_of_ref : (ref host : String) → ref ≡ String.◌∷◌ "r" host → host_of ref ≡ host
host_of_ref ref host e = rw e

-- A write that was not refused has put the record under the host's name.
pub record Put (host : String) (written : HostRecord) (ref : String) (s s₁ : Ledger) : Type 0 where
  pub known : listed host ≡ true
  pub free :
      (asking (elements written.ipv4_addrs) || asking (elements written.ipv6_addrs)) ≡ true
      → is_free s host ≡ true
  pub text : String.◌∷◌ "r" host ≡ ref
  pub stored : set_host host (some written) s ≡ s₁

sent_there :
    (text ref : String) (s s₁ : Ledger)
    → (◌≡◌ {A = Result String × Ledger} (ok text, s) (ok ref, s₁))
    → (text ≡ ref) × (s ≡ s₁)
sent_there text ref s s₁ e = (cc, ap (λ p. p.1) e)

-- What an answer to a write says about it.
sent_if :
    (b : Bool) (text ref : String) (s s' s₁ : Ledger)
    → (◌≡◌ {A = Result String × Ledger}
        (if b then (ok text, s') else (err (plain "refused"), s))
        (ok ref, s₁))
    → (b ≡ true) × (text ≡ ref) × (s' ≡ s₁)
sent_if true text ref s s' s₁ e = (refl, cc, ap (λ p. p.1) e)
sent_if false text ref s s' s₁ e =
    let bad : err (plain "refused") ≡ ok ref = ap (λ p. p.0) e in absurd (cc)

lost_if :
    (b : Bool) (text : String) (s s' s₁ : Ledger) (e : Error)
    → (◌≡◌ {A = Result String × Ledger}
        (if b then (ok text, s') else (err (plain "refused"), s))
        (err e, s₁))
    → s ≡ s₁
lost_if true text s s' s₁ e h = let bad : ok text ≡ err e = ap (λ p. p.0) h in absurd (cc)
lost_if false text s s' s₁ e h = ap (λ p. p.1) h

allowed_lem :
    (known asks free : Bool)
    → (known && (not asks || free)) ≡ true
    → (known ≡ true) × (asks ≡ true → free ≡ true)
allowed_lem true true true e = (refl, λ x. refl)
allowed_lem true true false e = absurd (cc)
allowed_lem true false free e = (refl, λ x. absurd (cc))
allowed_lem false asks free e = absurd (cc)

written_in-Put :
    (at host ref : String) (written : HostRecord) (s s₁ : Ledger)
    → at ≡ host
    → written_in at written s ≡ (ok ref, s₁)
    → Put host written ref s s₁
written_in-Put at host ref written s s₁ here sent =
    let asks = asking (elements written.ipv4_addrs) || asking (elements written.ipv6_addrs) in
    let (may, text, stored) =
      sent_if (allowed host written s) (String.◌∷◌ "r" host) ref s (set_host host (some written) s)
        s₁ (rw here at sent) in
    record {
      known = (allowed_lem (listed host) asks (is_free s host) may).0;
      free = (allowed_lem (listed host) asks (is_free s host) may).1;
      text = text;
      stored = stored;
    }

pub written_in-lost :
    (host : String) (written : HostRecord) (s s₁ : Ledger) (e : Error)
    → written_in host written s ≡ (err e, s₁)
    → s ≡ s₁
written_in-lost host written s s₁ e lost =
    lost_if (allowed host written s) (String.◌∷◌ "r" host) s (set_host host (some written) s) s₁ e
      lost

Written-Put :
    (view host ref : String) (written : HostRecord) (s s₁ : Ledger)
    → Put host written ref s s₁
    → Written ledger_wapi view host written ref s s₁
Written-Put view host ref written s s₁ p =
    rw (← p.text) (rw (← p.stored) (set_host-Written view host written s p.known))

row-none : (host : String) (s : Ledger) → row (set_host host none s) host ≡ none
row-none host s = elim (Bool-cases (listed host)) [
  | inl known ↦ row_self host none s known
  | inr unknown ↦ rw unknown refl
]

Erased-at :
    (view host : String) (s : Ledger) → Erased ledger_wapi view host s (set_host host none s)
unfolding host_query
Erased-at view host s = record {
  m = "not found";
  missing = ap (λ r. (find_answer host r, set_host host none s)) (row-none host s);
  others = λ o apart. ap (λ r. find_answer o r) (row_ne host o none s apart);
}

pub created-Put :
    (view host m ref : String) (s s₁ : Ledger) (written : HostRecord)
    → (written.name ≡ some host) × (written.network_view ≡ view)
    → ledger_wapi.create_object written s ≡ (ok ref, s₁)
    → Put host written ref s s₁
created-Put view host m ref s s₁ written (named, viewed) sent =
    written_in-Put (name_or_empty written) host ref written s s₁ (rw named) sent

pub updated-Put :
    (view host ref : String) (s s₁ : Ledger) (old written : HostRecord)
    → ledger_wapi.find_host_records (host_query view host) s ≡ (ok (old ∷ []), s)
    → (written.ref ≡ old.ref) × (written.name ≡ old.name)
    → ledger_wapi.update_object written written.ref s ≡ (ok ref, s₁)
    → Put host written ref s s₁
unfolding host_query
updated-Put view host ref s s₁ old written found (same_ref, same_name) sent =
    written_in-Put (host_of written.ref) host ref written s s₁
      (host_of_ref written.ref host (same_ref ∙ sym (found-ref host (row s host) s s old found)))
      sent

pub ledger_book : (view : String) → Book ledger_wapi view
unfolding host_query
ledger_book view = record {
  basics = record {
    searches = λ v host s. refl;
    referenced = λ v host s s' hr e. rw (← found-ref host (row s host) s s' hr e) (ref-text host);
    blank = (refl, refl, refl);
  };
  settled = λ host s hr family e. IsSettled-answer host hr (row s host) family (ap (λ p. p.0) e);
  created = λ host m ref s s₁ written missing names sent.
      Written-Put view host ref written s s₁ (created-Put view host m ref s s₁ written names sent);
  updated = λ host ref s s₁ old written found names sent.
      Written-Put view host ref written s s₁
        (updated-Put view host ref s s₁ old written found names sent);
  deleted = λ host ref s s₁ old found sent.
      let here : host_of old.ref ≡ host =
        host_of_ref old.ref host (sym (found-ref host (row s host) s s old found)) in
      let (text, stored) = sent_there _ ref _ s₁ sent in
      let gone : set_host host none s ≡ s₁ = rw here at stored in
      rw (← gone) (Erased-at view host s);
}
