-- ===== src/Tests/WebhookRuns.antt =====
-- Runs of the breaker, the claims and the dispatcher of internal/webhook.
use pulse_data.Prelude.{
  ◌==◌, ℕ, ◌+◌, ◌*◌, ◌≤◌, ◌<◌, ◌≡◌, ◌≢◌, ◌↔◌, ◌⊎◌, refl, none, some, Bool, true, false,
  if◌then◌else◌, ltb, List, [], ◌∷◌, All, arith, ap, length, ℕ_discrete,
}
use mathlib.Core.List.{lookup}
use pulse_data.Prelude.Text.{Text-discrete, codes, utf8, decimal, digits_from}
use pulse_data.Errors.{ok, plain}
use pulse_data.Events.Validate.{second, bytes_equal}
use pulse_data.Webhook.Breaker
use pulse_data.Webhook.Breaker.{
  CircuitBreaker, closed, open_circuit, half_open, new_circuit_breaker, allow, failure, allow_at,
  fail_at, succeed,
}
use pulse_data.Webhook.Breaker.Laws
use pulse_data.Webhook.Hex.{hex_encode, hex_decode}
use pulse_data.Webhook.Signature.{
  signature, verify_signature, unix_text, signed_text, verify_signature-signature,
  verify_signature_sound,
}
use pulse_data.Webhook.Claims.{DeliveryClaim, claim_delivery, complete_delivery, delivery_lease}
use pulse_data.Webhook.Claims.Exclusion.{
  Op, claims, completes, releases, grants, claim_excludes, completion_is_final,
}
use pulse_data.Webhook.Dispatcher
use pulse_data.Webhook.Dispatcher.{
  Delivery, Env, Dispatcher, panicked, returned, err_circuit_open, deliver,
}
use pulse_data.Webhook.Dispatcher.Schedule.{posts, total_slept, deliver_within_lease}
use pulse_data.Webhook.Dispatcher.Slots.{bulkhead_of, deliver-bulkhead_of}
use pulse_data.Webhook.Bulkhead.{new_bulkhead}
use pulse_data.Webhook.Dispatcher.Probe.{outcomes, cancelled_probe_blocks}
use pulse_data.Persistence.Agreement.{memory_answers, row_answers, memory_answers-eq-row_answers}
use pulse_data.Tests.Samples.{order, today, failure_error}
use pulse_data.Webhook.Dialer
use pulse_data.Webhook.Ssrf.{is_private_ip}
use pulse_data.Webhook.Dialer.{IsSafe, safe_dialer, safe_dialer-IsSafe}

run-closed_iff_example :
    ((Breaker.run (fail_at 1 ∷ succeed ∷ fail_at 2 ∷ []) (new_circuit_breaker 2 9)).state ≡ closed)
    ↔ (Laws.failures_since_success 0 (fail_at 1 ∷ succeed ∷ fail_at 2 ∷ [])
        < (if ltb 2 1 then 3 else 2))
run-closed_iff_example = Laws.run-closed_iff 2 9 (fail_at 1 ∷ succeed ∷ fail_at 2 ∷ [])

-- Three failures have opened it.
abbrev opened : CircuitBreaker
opened = record {
  state = open_circuit;
  failures = 3;
  threshold = 3;
  opened_at = today;
  cooldown = 60 * second;
  probe_in_flight = false;
}

opened-IsValid : Laws.IsValid opened
opened-IsValid = ground arith

allow_one_probe_example :
    ((allow (today + 60 * second) opened).0 ≡ true)
    × All
        (λ r. r ≡ false)
        (Laws.answers (today ∷ (today + 900 * second) ∷ []) (allow (today + 60 * second) opened).1)
allow_one_probe_example =
    Laws.allow_one_probe (today + 60 * second) (today ∷ (today + 900 * second) ∷ []) opened
      opened-IsValid refl (omega arith)

-- A stand-in for HMAC-SHA256 that yields bytes.
abbrev toy_hmac : List ℕ → List ℕ → List ℕ
toy_hmac key text = 0xab ∷ 0x07 ∷ []

toy_hmac_bytes : (key text : List ℕ) → All (λ b. b < 256) (toy_hmac key text)
toy_hmac_bytes key text = omega arith

verify_signature-signature_example :
    verify_signature toy_hmac
      (codes "key")
      (signature toy_hmac (codes "key") order today (codes "{}"))
      today
      (codes "{}")
      second
      (today + second)
    ≡ true
verify_signature-signature_example =
    verify_signature-signature toy_hmac (codes "key") order today (codes "{}") second
      (today + second) toy_hmac_bytes (omega arith) (omega arith)

verify_signature_sound_example :
    ((second ≡ 0) ⊎ ((today ≤ today + second) × (today ≤ today + second)))
    × (hex_decode (codes "ab07") ≡ some (toy_hmac (codes "key") (signed_text today (codes "{}"))))
unfolding verify_signature signature hex_encode hex_decode bytes_equal Text-discrete ℕ_discrete
    unix_text utf8 decimal digits_from
verify_signature_sound_example =
    verify_signature_sound toy_hmac (codes "key") (codes "ab07") today (codes "{}") second today
      toy_hmac_bytes refl

abbrev key : DeliveryClaim
key = record { tenant_id = codes "ten_a"; event_id = codes "e1"; subscription_id = codes "wh_1" }

abbrev other_key : DeliveryClaim
other_key = record key { subscription_id = codes "wh_22" }

key_not_other : key ≢ other_key
key_not_other e = omega (arith, ap (λ (c : DeliveryClaim). length c.subscription_id) e)

abbrev later_calls : List Op
later_calls =
    claims (today + second) key
    ∷ releases (today + second) other_key
    ∷ completes (today + 2 * second) key
    ∷ claims (today + 3 * second) key
    ∷ []

first_granted : (claim_delivery today key []).0 ≡ true
unfolding claim_delivery lookup
first_granted = refl

claim_excludes_example : grants key later_calls (claim_delivery today key []).1 ≡ 0
claim_excludes_example =
    claim_excludes today key later_calls [] first_granted
      (omega arith, ((omega arith, key_not_other), (omega arith, (omega arith, tt))))

completion_is_final_example :
    grants key later_calls (complete_delivery (today + second) key (claim_delivery today key []).1)
    ≡ 0
completion_is_final_example =
    completion_is_final today (today + second) key later_calls [] first_granted (omega arith)

-- Both subscriptions are in their table, and the tenant is.
abbrev knows_all : DeliveryClaim → Bool
knows_all _ = true

memory_answers-eq-row_answers_example :
    memory_answers later_calls [] ≡ row_answers knows_all later_calls []
memory_answers-eq-row_answers_example =
    memory_answers-eq-row_answers knows_all later_calls
      (omega arith, (omega arith, (omega arith, (omega arith, tt)))) (refl, (tt, (tt, (refl, tt))))

-- The endpoint answers 503 to every request, and slots of the bulkhead are not awaited.
abbrev unavailable : Env
unavailable = record {
  hmac = toy_hmac;
  marshal = λ e. ok e.payload;
  make_request = λ _. none;
  check_endpoint = λ _ _. none;
  now = λ _. today + 60 * second;
  acquire = λ _. none;
  post = λ _ _. ok 503;
  jitter = λ _ _. 12_345;
  sleep = λ _ _. true;
  meanwhile = λ _. [];
  context_error = plain (codes "context canceled");
}

abbrev delivery : Delivery
delivery = record { endpoint = codes "https://a"; secret = codes "key"; event = order }

abbrev dispatcher : Dispatcher
dispatcher = record { max_retries = 5; bulkhead_limit = 20; breakers = []; bulkheads = [] }

deliver_within_lease_example :
    let ((r, d'), h) = deliver unavailable delivery dispatcher [] in
    (r ≢ panicked) × (posts h ≤ 6) × (total_slept h + posts h * (15 * second) < delivery_lease)
deliver_within_lease_example = deliver_within_lease unavailable delivery dispatcher (omega arith)

deliver-bulkhead_of_example :
    bulkhead_of (codes "https://a") (deliver unavailable delivery dispatcher []).0.1
    ≡ bulkhead_of (codes "https://a") dispatcher
unfolding lookup new_bulkhead
deliver-bulkhead_of_example =
    deliver-bulkhead_of unavailable delivery (codes "https://a") dispatcher (omega arith) []

-- The same, where the context has ended before Acquire: its select may answer so, slot or not.
abbrev crowded : Env
crowded = record unavailable { acquire = λ _. some failure_error }

abbrev tripped : Dispatcher
tripped = record dispatcher { breakers = (codes "https://a", opened) ∷ [] }

cancelled_probe_blocks_example :
    All
      (λ r. r ≡ returned (some err_circuit_open))
      (outcomes delivery
        ((unavailable, []) ∷ (unavailable, []) ∷ [])
        (deliver crowded delivery tripped []).0.1)
unfolding lookup Text-discrete ℕ_discrete Dispatcher.endpoint_circuit_breaker Breaker.run
cancelled_probe_blocks_example =
    cancelled_probe_blocks crowded delivery tripped failure_error
      ((unavailable, []) ∷ (unavailable, []) ∷ []) opened-IsValid refl refl (omega arith) refl
      ((refl, tt), ((refl, tt), tt))

-- A host with a private address and a public one.
abbrev dialer : Dialer.Env
dialer = record {
  net = record {
    parse = λ raw. ok (record { scheme = raw; hostname = raw; has_user = false });
    to_lower = λ t. t;
    is_reserved = λ ip. length ip == 1;
    to4 = λ ip. none;
  };
  allow_private = false;
  split_host_port = λ address. some (address, codes "443");
  resolve = λ host past. ok ((127 ∷ []) ∷ (93 ∷ 184 ∷ 216 ∷ 34 ∷ []) ∷ []);
  dial = λ ip port past. none;
}

dials_public :
    (safe_dialer dialer (codes "hooks") []).0 ≡ ok (93 ∷ 184 ∷ 216 ∷ 34 ∷ [], codes "443")
unfolding safe_dialer is_private_ip
dials_public = refl

safe_dialer-IsSafe_example : IsSafe dialer (safe_dialer dialer (codes "hooks") [])
safe_dialer-IsSafe_example = safe_dialer-IsSafe dialer (codes "hooks")
