-- ===== src/Common/Texts.antt =====
-- The functions of Go's `strings` that the code calls, over native texts.
use Prim.Native.Nat.{ℕ, ◌+◌}
use Prim.Native.Char.{Char, code}
use Prim.Native.String
use Prim.Native.String.{String, [], ◌∷◌, len, slice}
use mathlib.Core.Path.{◌≡◌, sym, ap, ◌∙◌}
use mathlib.Core.Logic.{inl, inr}
use mathlib.Core.Bool.{Bool, true, ◌||◌}
use mathlib.Core.Option.{Option, none, some}
use mathlib.Core.List.{List, [], ◌∷◌}
use native.Mathlib.Omega.{arith}
use text.Mathlib.Text.{starts_with, find?}
use text.Mathlib.TextEquality.{eq_iff}
use text.Mathlib.TextPositions.{eq_refl}
use text.Mathlib.TextLemmas.{nil-append, cons-append}
use cluster_api_ipam_provide.Common.Decisions.{◌==◌, nat_eq, string_eq, if◌then◌else◌, Bool-cases}

-- The code points of a text.
abbrev pub codes : String → List ℕ
codes String.[] = []
codes (String.◌∷◌ c s) = code c ∷ codes s

-- `strings.HasPrefix`
abbrev pub has_prefix : String → String → Bool
has_prefix s t = starts_with s t

-- `strings.HasSuffix`
unfoldable pub has_suffix : String → String → Bool
has_suffix [] t = t == ""
has_suffix (c ∷ s) t = (c ∷ s) == t || has_suffix s t

-- `strings.Contains`
unfoldable pub has_infix : String → String → Bool
has_infix [] t = t == ""
has_infix (c ∷ s) t = starts_with (c ∷ s) t || has_infix s t

-- `strings.Cut`: what stands before and after the first occurrence of the separator.
unfoldable pub cut : String → String → Option (String × String)
cut s sep = elim (find? s sep) [
  | none ↦ none
  | some i ↦ some (slice s 0 i, slice s (i + len sep) (len s))
]

add_head : Char → List String → List String
add_head c [] = (c ∷ "") ∷ []
add_head c (piece ∷ pieces) = (c ∷ piece) ∷ pieces

-- `strings.Split` at a separator of one character, given by its code.
unfoldable pub split : String → ℕ → List String
unfolding add_head
split [] sep = "" ∷ []
split (c ∷ s) sep = let rest = split s sep in if code c == sep then "" ∷ rest else add_head c rest

-- `strings.Join`
unfoldable pub join : List String → String → String
join [] sep = ""
join (s ∷ []) sep = s
join (s ∷ t ∷ ts) sep = String.◌++◌ s (String.◌++◌ sep (join (t ∷ ts) sep))

has_suffix_self : (t : String) → has_suffix t t ≡ true
unfolding has_suffix
has_suffix_self [] = eq_refl ""
has_suffix_self (c ∷ t) = rw (eq_refl (c ∷ t))

-- Any text ends in itself, with anything in front.
pub has_suffix-append : (s t : String) → has_suffix (String.◌++◌ s t) t ≡ true
unfolding has_suffix
has_suffix-append [] t = rw nil-append (has_suffix_self t)
has_suffix-append (c ∷ s) t =
    rw (cons-append c s t, has_suffix) (ground (arith, has_suffix-append s t))

-- A text that passes the test is some text followed by the suffix.
pub has_suffix_sound : (s t : String) → has_suffix s t ≡ true → (p : String) × (s ≡ String.◌++◌ p t)
unfolding has_suffix
has_suffix_sound [] t h = ([], sym ((eq_iff t "").0 h) ∙ sym (nil-append t))
has_suffix_sound (c ∷ s) t h = elim (Bool-cases ((c ∷ s) == t)) [
  | inl e ↦ ([], (eq_iff (c ∷ s) t).0 e ∙ sym (nil-append t))
  | inr n ↦
      let (p, e) = has_suffix_sound s t (ground arith) in
      (c ∷ p, ap (λ x. c ∷ x) e ∙ sym (cons-append c p t))
]

-- `m[key]` for a map from texts to texts: a missing key gives the empty text.
abbrev pub value_at : String → List (String × String) → String
value_at key [] = ""
value_at key ((k, v) ∷ m) = if k == key then v else value_at key m
