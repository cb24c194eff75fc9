-- ===== src/Netip/Ipv4Bounds.antt =====
-- What a text of an IPv4 address can denote: a number of 32 bits.
use cluster_api_ipam_provide.Common.{
  ℕ, ◌<◌, ◌≡◌, some, List, [], ◌∷◌, arith, inl, inr, Option-cases,
}
use cluster_api_ipam_provide.Netip.Parse.{octet, four, decimal}

octet_bound : (s : List ℕ) (n : ℕ) → octet s ≡ some n → n < 256
unfolding octet
octet_bound [] n e = absurd (ground arith)
octet_bound (c ∷ s) n e = elim (Option-cases (decimal 0 (c ∷ s))) [
  | inl nothing ↦ absurd (ground arith)
  | inr (m, read) ↦ ground arith
]

pub four_bound : (l : List (List ℕ)) (n : ℕ) → four l ≡ some n → n < 4294967296
unfolding four
four_bound (a ∷ b ∷ c ∷ d ∷ []) n e = elim (Option-cases (octet a)) [
  | inl nothing ↦ absurd (ground arith)
  | inr (i, ea) ↦ elim (Option-cases (octet b)) [
    | inl nothing ↦ absurd (ground arith)
    | inr (j, eb) ↦ elim (Option-cases (octet c)) [
      | inl nothing ↦ absurd (ground arith)
      | inr (k, ec) ↦ elim (Option-cases (octet d)) [
        | inl nothing ↦ absurd (ground arith)
        | inr (m, ed) ↦
            let ha = octet_bound a i ea in
            let hb = octet_bound b j eb in
            let hc = octet_bound c k ec in let hd = octet_bound d m ed in ground arith
      ]
    ]
  ]
]
four_bound [] n e = absurd (ground arith)
four_bound (a ∷ []) n e = absurd (ground arith)
four_bound (a ∷ b ∷ []) n e = absurd (ground arith)
four_bound (a ∷ b ∷ c ∷ []) n e = absurd (ground arith)
four_bound (a ∷ b ∷ c ∷ d ∷ x ∷ l) n e = absurd (ground arith)
