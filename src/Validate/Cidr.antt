-- ===== src/Validate/Cidr.antt =====
-- `validate_ipv4_cidr` of common/procutil.py: the shape `^(\d{1,3}\.){3}\d{1,3}/\d{1,2}$`, and the
-- ranges of its numbers.
use mathlib.Core.List.{foldl}
use usbover_ip.Base.{
  ℕ, ◌+◌, ◌*◌, String, ◌<>◌, Bool, true, false, ◌&&◌, Option, none, some, List, [], ◌∷◌, length,
  leb, eqb, if◌then◌else◌,
}
use usbover_ip.Validate.{codes}
use usbover_ip.Base.Exec.{Result, ok, err, validation_error}

module _ (digit : ℕ → Bool) (digit_value : ℕ → ℕ) where
  -- The longest run of digits, and what follows.
  unfoldable pub span_digits : List ℕ → List ℕ × List ℕ
  span_digits [] = ([], [])
  span_digits (c ∷ s) =
      let (ds, rest) = span_digits s in if digit c then (c ∷ ds, rest) else ([], c ∷ s)

  unfoldable pub number_of : List ℕ → ℕ
  number_of ds = foldl (λ n c. 10 * n + digit_value c) 0 ds

  -- One to `width` digits of a number up to `top`, and the separator after them.
  unfoldable pub field : ℕ → ℕ → ℕ → List ℕ → Option (List ℕ)
  unfolding span_digits number_of
  field width top separator s =
      let (ds, rest) = span_digits s in
      if leb 1 (length ds) && leb (length ds) width && leb (number_of ds) top
      then elim rest [ [] ↦ none | c ∷ more ↦ if eqb c separator then some more else none ]
      else none

  -- The last number, before the end or a line feed that ends the text.
  unfoldable pub last_field : ℕ → ℕ → List ℕ → Bool
  unfolding span_digits number_of
  last_field width top s =
      let (ds, rest) = span_digits s in
      leb 1 (length ds)
      && leb (length ds) width
      && leb (number_of ds) top
      && elim rest [ [] ↦ true | c ∷ more ↦ eqb c 10 && elim more [ [] ↦ true | d ∷ r ↦ false ] ]

  abbrev then_field : Option (List ℕ) → (List ℕ → Option (List ℕ)) → Option (List ℕ)
  then_field none next = none
  then_field (some s) next = next s

  unfoldable pub cidr_like : List ℕ → Bool
  unfolding field last_field
  cidr_like s =
      let octets = then_field (field 3 255 b'.' s) λ a.
        then_field (field 3 255 b'.' a) λ b. then_field (field 3 255 b'.' b) (field 3 255 b'/') in
      elim octets [ none ↦ false | some rest ↦ last_field 2 32 rest ]

  unfoldable pub validate_ipv4_cidr : String → Result String
  unfolding cidr_like
  validate_ipv4_cidr cidr =
      if cidr_like (codes cidr)
      then ok cidr
      else err (validation_error ("invalid IPv4 CIDR: " <> cidr))
