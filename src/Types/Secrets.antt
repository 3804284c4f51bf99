-- ===== src/Types/Secrets.antt =====
-- pkg/goxidized/secrets.go: values that print as a marker. `fmt` and `json` see a secret through
-- `String`, `GoString` and `MarshalJSON` only.
use go_xidized.Prelude.{Bool, Text, codes, is_empty, ◌++◌, ◌≡◌, refl}

-- `SecretString` and `SecretBytes`; the copies that the latter makes are equal values.
pub record Secret : Type 0 where
  value : Text

abbrev redacted_marker : Text
redacted_marker = codes "[REDACTED]"

unfoldable pub new_secret : Text → Secret
new_secret value = record { value = value }

pub to_string : Secret → Text
to_string s = redacted_marker

pub marshal_json : Secret → Text
marshal_json s = codes "\"" ++ redacted_marker ++ codes "\""

unfoldable pub reveal : Secret → Text
reveal s = s.value

unfoldable pub is_zero : Secret → Bool
is_zero s = is_empty s.value

-- What a program prints or serializes of a secret does not depend on its value, and `Reveal` is
-- the way to the value.
pub secret_hidden :
    (v w : Text)
    → (to_string (new_secret v) ≡ to_string (new_secret w))
      × (marshal_json (new_secret v) ≡ marshal_json (new_secret w))
      × (reveal (new_secret v) ≡ v)
unfolding new_secret to_string marshal_json reveal
secret_hidden v w = (refl, refl, refl)
