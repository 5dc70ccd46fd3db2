-- ===== src/Converter/Validate/Tests.antt =====
-- Files that the converters of internal/converter accept and reject.
use llm_file_gateway.Prelude.{◌≡◌, ◌↔◌, none, some, [], ◌∷◌, ◌≢◌, arith}
use llm_file_gateway.Converter.Validate.{ole_signature, zip_signature, validate_signature}
use llm_file_gateway.Converter.Validate.Exact.{StartsWithOne, validate_signature_exact}

short_rejected : validate_signature (zip_signature ∷ []) (some (80 ∷ 75 ∷ 3 ∷ [])) ≢ none
unfolding validate_signature
short_rejected e = cc e

validate_signature_exact_example :
    (validate_signature (ole_signature ∷ zip_signature ∷ []) (some (80 ∷ 75 ∷ 3 ∷ 4 ∷ 9 ∷ []))
      ≡ none)
    ↔ StartsWithOne (ole_signature ∷ zip_signature ∷ []) (80 ∷ 75 ∷ 3 ∷ 4 ∷ 9 ∷ [])
validate_signature_exact_example =
    validate_signature_exact (ole_signature ∷ zip_signature ∷ [])
      ((omega arith, omega arith), ((omega arith, omega arith), tt)) (80 ∷ 75 ∷ 3 ∷ 4 ∷ 9 ∷ [])
