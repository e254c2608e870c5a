-- ===== src/Utils/Encoding.antt =====
-- internal/utils/encrypt.go; `encode_to_string` and `decode_string` are those of
-- `base64.StdEncoding`, and the latter may fail beside a part of the bytes.
use greatsql_operator.Prelude.{ℕ, String, Option, none, some, List, Outcome, ok, err}

-- `Base64Encode`
unfoldable pub base64_encode : (List ℕ → String) → List ℕ → String
base64_encode encode_to_string bytes = encode_to_string bytes

-- `Base64Decode`: an error leaves no bytes.
unfoldable pub base64_decode : (String → List ℕ × Option String) → String → Outcome String (List ℕ)
base64_decode decode_string text =
    let (bytes, failure) = decode_string text in elim failure [ none ↦ ok bytes | some e ↦ err e ]
