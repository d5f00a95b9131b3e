-- ===== src/Webhook/Signature.antt =====
-- internal/webhook/hmac.go: the signature of a delivery and its check. HMAC-SHA256 is a parameter.
use pulse_data.Prelude.{
  ℕ, ◌+◌, ◌-◌, ◌*◌, ◌/◌, ◌≤◌, ◌<◌, ◌≡◌, refl, ap, ◌⊎◌, ltb, if◌then◌else◌, ◌&&◌, ◌||◌, Bool, true,
  false, Option, none, some, List, [], ◌∷◌, ◌++◌, All, if_pos, arith,
}
use pulse_data.Prelude.Text.{Text, Text-discrete, codes, utf8, decimal}
use pulse_data.Events.{Event, Time}
use pulse_data.Events.Validate.{second, zero_time, bytes_equal}
use pulse_data.Webhook.Hex.{hex_encode, hex_decode, hex_decode-hex_encode}

-- The seconds from the origin of times to the beginning of 1970.
abbrev pub unix_epoch : ℕ
unix_epoch = 62_135_596_800 + 367 * 86_400

-- strconv.FormatInt(timestamp.Unix(), 10)
unfoldable pub unix_text : Time → Text
unix_text t =
    let s = t / second in
    if ltb s unix_epoch then codes "-" ++ decimal (unix_epoch - s) else decimal (s - unix_epoch)

-- hmac.New(sha256.New, secret), fed with the bytes that are given.
abbrev pub Hmac : Type 0
Hmac = List ℕ → List ℕ → List ℕ

-- The event is not signed but through the body.
unfoldable pub signature : Hmac → List ℕ → Event → Time → List ℕ → Text
signature hmac secret event timestamp body =
    hex_encode (hmac secret (utf8 (unix_text timestamp) ++ (b'.' ∷ body)))

-- hmac.Equal of two decoded texts, false if one is not decoded.
abbrev pub equal_decoded : Option (List ℕ) → Option (List ℕ) → Bool
equal_decoded (some a) (some b) = bytes_equal a b
equal_decoded _ _ = false

-- events.Event{}
abbrev pub empty_event : Event
empty_event = record {
  tenant_id = [];
  event_id = [];
  type = [];
  timestamp = zero_time;
  payload = [];
}

unfoldable pub verify_signature : Hmac → List ℕ → Text → Time → List ℕ → ℕ → Time → Bool
verify_signature hmac secret given timestamp body tolerance now =
    if ltb 0 tolerance && (ltb tolerance (now - timestamp) || ltb tolerance (timestamp - now))
    then false
    else equal_decoded (hex_decode given)
        (hex_decode (signature hmac secret empty_event timestamp body))

bytes_equal_iff : (a b : List ℕ) → bytes_equal a b ≡ true → a ≡ b
unfolding bytes_equal
bytes_equal_iff a b h = ground arith

bytes_equal_refl : (a : List ℕ) → bytes_equal a a ≡ true
unfolding bytes_equal
bytes_equal_refl a = if_pos (Text-discrete a a) refl true false

-- What is signed: the time, a dot and the body.
abbrev pub signed_text : Time → List ℕ → List ℕ
signed_text timestamp body = utf8 (unix_text timestamp) ++ (b'.' ∷ body)

-- Every byte of a code is below 256.
abbrev pub YieldsBytes : Hmac → Type 0
YieldsBytes hmac = (key text : List ℕ) → All (λ b. b < 256) (hmac key text)

hex_decode-signature :
    (hmac : Hmac) (secret : List ℕ) (e : Event) (timestamp : Time) (body : List ℕ)
    → YieldsBytes hmac
    → hex_decode (signature hmac secret e timestamp body)
      ≡ some (hmac secret (signed_text timestamp body))
unfolding signature
hex_decode-signature hmac secret e timestamp body bytes =
    hex_decode-hex_encode (hmac secret (signed_text timestamp body))
      (bytes secret (signed_text timestamp body))

equal_decoded_sound :
    (a : Option (List ℕ)) (b : List ℕ) → equal_decoded a (some b) ≡ true → a ≡ some b
equal_decoded_sound none b h = cc
equal_decoded_sound (some a) b h = ap some (bytes_equal_iff a b h)

-- The signature of an event is accepted for the same secret, time and body while the clocks differ
-- by no more than the tolerance, whatever the event.
pub verify_signature-signature :
    (hmac : Hmac) (secret : List ℕ) (e : Event) (timestamp : Time) (body : List ℕ) (tolerance : ℕ)
    (now : Time)
    → YieldsBytes hmac
    → now ≤ timestamp + tolerance
    → timestamp ≤ now + tolerance
    → verify_signature hmac secret
        (signature hmac secret e timestamp body)
        timestamp
        body
        tolerance
        now
      ≡ true
unfolding verify_signature
verify_signature-signature hmac secret e timestamp body tolerance now bytes late early =
    let code = hmac secret (signed_text timestamp body) in
    ground (
      arith,
      hex_decode-signature hmac secret e timestamp body bytes,
      hex_decode-signature hmac secret empty_event timestamp body bytes,
      bytes_equal_refl code,
    )

-- What is accepted is within the tolerance, if there is one, and decodes to the code of the time
-- and the body.
pub verify_signature_sound :
    (hmac : Hmac) (secret : List ℕ) (given : Text) (timestamp : Time) (body : List ℕ)
    (tolerance : ℕ) (now : Time)
    → YieldsBytes hmac
    → verify_signature hmac secret given timestamp body tolerance now ≡ true
    → ((tolerance ≡ 0) ⊎ ((now ≤ timestamp + tolerance) × (timestamp ≤ now + tolerance)))
      × (hex_decode given ≡ some (hmac secret (signed_text timestamp body)))
unfolding verify_signature
verify_signature_sound hmac secret given timestamp body tolerance now bytes h = ground (
  arith,
  hex_decode-signature hmac secret empty_event timestamp body bytes,
  equal_decoded_sound (hex_decode given) (hmac secret (signed_text timestamp body)),
)
