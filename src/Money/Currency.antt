-- ===== src/Money/Currency.antt =====
-- The currency table of platform/money/src/currency.ts.
use sintius.Prelude.{
  ℕ, List, [], ◌∷◌, none, some, Text, text, text_eq, find?, ◌≡◌, ◌⊎◌, inl, inr, Option-cases,
  Text-discrete, same_iff, find?-holds,
}
use sintius.Problem.{Outcome, ok, problem, unsupported_currency}

pub record Currency : Type 0 where
  pub code : Text
  -- The ISO 4217 exponent of the minor unit.
  pub minor_units : ℕ

-- `CURRENCIES`, in the order of the source.
unfoldable pub currencies : List Currency
currencies =
    record { code = text "USD"; minor_units = 2 }
    ∷ record { code = text "EUR"; minor_units = 2 }
    ∷ record { code = text "GBP"; minor_units = 2 }
    ∷ record { code = text "CAD"; minor_units = 2 }
    ∷ record { code = text "AUD"; minor_units = 2 }
    ∷ record { code = text "INR"; minor_units = 2 }
    ∷ record { code = text "JPY"; minor_units = 0 }
    ∷ record { code = text "KRW"; minor_units = 0 }
    ∷ record { code = text "KWD"; minor_units = 3 }
    ∷ record { code = text "BHD"; minor_units = 3 }
    ∷ record { code = text "OMR"; minor_units = 3 }
    ∷ record { code = text "JOD"; minor_units = 3 }
    ∷ record { code = text "TND"; minor_units = 3 }
    ∷ []

-- `currency(code)`
unfoldable pub currency : Text → Outcome Currency
currency code = elim (find? (λ c. text_eq c.code code) currencies) [
  | some found ↦ ok found
  | none ↦ problem unsupported_currency
]

-- A code is not supported, or it is that of the currency that is found.
pub currency-cases :
    (code : Text)
    → (currency code ≡ problem unsupported_currency)
      ⊎ ((unit : Currency) × (currency code ≡ ok unit) × (unit.code ≡ code))
unfolding currency
currency-cases code = elim (Option-cases (find? (λ c. text_eq c.code code) currencies)) [
  | inl e ↦ inl (rw (e, currency))
  | inr (c, e) ↦ inr (
    c,
    rw (e, currency),
    (same_iff Text-discrete c.code code).0 (find?-holds (λ d. text_eq d.code code) currencies e),
  )
]
