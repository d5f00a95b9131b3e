-- ===== src/Webhook/Hex.antt =====
-- encoding/hex, as internal/webhook/hmac.go uses it.
use pulse_data.Prelude.{
  ℕ, ◌+◌, ◌-◌, ◌*◌, ◌/◌, ◌%◌, ◌<◌, ◌≡◌, refl, ltb, leb, if◌then◌else◌, ◌&&◌, Option, none, some,
  List, [], ◌∷◌, All, arith,
}
use pulse_data.Prelude.Text.{Text}

abbrev pub hex_digit : ℕ → ℕ
hex_digit n = if ltb n 10 then b'0' + n else b'a' + n - 10

abbrev pub from_hex : ℕ → Option ℕ
from_hex c =
    if leb b'0' c && leb c b'9'
    then some (c - b'0')
    else if leb b'a' c && leb c b'f'
    then some (c - b'a' + 10)
    else if leb b'A' c && leb c b'F'
    then some (c - b'A' + 10)
    else none

-- hex.EncodeToString
unfoldable pub hex_encode : List ℕ → Text
hex_encode [] = []
hex_encode (b ∷ bs) = hex_digit (b / 16) ∷ hex_digit (b % 16) ∷ hex_encode bs

abbrev pub join_digits : Option ℕ → Option ℕ → Option (List ℕ) → Option (List ℕ)
join_digits (some hi) (some lo) (some bs) = some ((16 * hi + lo) ∷ bs)
join_digits _ _ _ = none

-- hex.DecodeString: an odd length and a character that is no digit are errors.
unfoldable pub hex_decode : Text → Option (List ℕ)
hex_decode [] = some []
hex_decode (c ∷ []) = none
hex_decode (c ∷ d ∷ s) = join_digits (from_hex c) (from_hex d) (hex_decode s)

from_hex-hex_digit : (n : ℕ) → n < 16 → from_hex (hex_digit n) ≡ some n
from_hex-hex_digit n h = ground arith

pub hex_decode-hex_encode :
    (bs : List ℕ) → All (λ b. b < 256) bs → hex_decode (hex_encode bs) ≡ some bs
unfolding hex_decode hex_encode
hex_decode-hex_encode [] h = refl
hex_decode-hex_encode (b ∷ bs) h =
    rw
      (
        from_hex-hex_digit (b / 16) (omega arith),
        from_hex-hex_digit (b % 16) (omega arith),
        hex_decode-hex_encode bs h.1,
      )
      (ground arith)
