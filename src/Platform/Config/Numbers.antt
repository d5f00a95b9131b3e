-- ===== src/Platform/Config/Numbers.antt =====
-- internal/platform/config.go reads a number as it is written.
use pulse_data.Prelude.{
  ℕ, zero, suc, ◌+◌, ◌/◌, ◌%◌, ◌^◌, ◌<◌, ◌≤◌, ◌≡◌, ◌≢◌, refl, ap, ◌∙◌, arith, ◌==◌, leb, true,
  Option, some, [], ◌∷◌, Bool-cases, inl, inr, String,
}
use pulse_data.Prelude.Text.{Text, codes, digits_from, decimal}
use pulse_data.Platform.Config.{ℤ, pos, digits, atoi, or_fallback, int_env}

digits_step : (n : ℕ) (acc : Text) → digits (n / 10) ((b'0' + n % 10) ∷ acc) ≡ digits n acc
unfolding digits
digits_step n acc =
    let low : leb b'0' (b'0' + n % 10) ≡ true = ground arith in
    let high : leb (b'0' + n % 10) b'9' ≡ true = ground arith in
    rw (low, high) (ap (λ (k : ℕ). digits k acc) (omega arith))

-- Reading what was written in front of `acc` is reading `acc` after the number.
digits-digits_from :
    (fuel n : ℕ) (acc : Text) → n ≤ fuel → digits 0 (digits_from fuel n acc) ≡ digits n acc
unfolding digits_from
digits-digits_from zero n acc l = ap (λ (k : ℕ). digits k acc) (omega arith)
digits-digits_from (suc fuel) n acc l = elim (Bool-cases (n == 0)) [
  | inl nought ↦ rw nought (ap (λ (k : ℕ). digits k acc) (ground (arith, nought)))
  | inr more ↦ rw more (
      digits-digits_from fuel (n / 10) ((b'0' + n % 10) ∷ acc) (ground (arith, more))
      ∙ digits_step n acc)
]

digits-decimal : (n : ℕ) → digits 0 (decimal n) ≡ some n
unfolding decimal digits
digits-decimal n = elim (Bool-cases (n == 0)) [
  | inl nought ↦ rw nought (ground (arith, nought))
  | inr more ↦ rw more (digits-digits_from n n [] (omega arith))
]

decimal-ne-nil : (n : ℕ) → decimal n ≢ []
unfolding decimal digits
decimal-ne-nil n e = elim (Bool-cases (n == 0)) [
  | inl nought ↦ ground (arith, nought, e)
  | inr more ↦
      let read = digits-decimal n in
      let empty = ap (λ (s : Text). digits 0 s) e in ground (arith, more, read, empty)
]

first_digit : (c : ℕ) (s : Text) (n : ℕ) → digits 0 (c ∷ s) ≡ some n → b'0' ≤ c
unfolding digits
first_digit c s n e = ground (arith, e)

atoi-digits : (s : Text) (n : ℕ) → s ≢ [] → digits 0 s ≡ some n → n < 2 ^ 63 → atoi s ≡ some (pos n)
unfolding atoi
atoi-digits [] n ne e l = absurd (ne refl)
atoi-digits (c ∷ s) n ne e l = ground (arith, e, first_digit c s n e)

-- A number below 2^63 that stands in the environment in decimal digits is the value that intEnv
-- reads, whatever the fallback.
pub int_env-decimal :
    (getenv : Text → Text) (parse_duration : Text → Option ℤ) (k : String) (fallback n : ℕ)
    → getenv (codes k) ≡ decimal n
    → n < 2 ^ 63
    → int_env getenv parse_duration k fallback ≡ n
unfolding int_env
int_env-decimal getenv parse_duration k fallback n e l =
    ap (λ (s : Text). or_fallback fallback (atoi s)) e
    ∙ ap (or_fallback fallback) (atoi-digits (decimal n) n (decimal-ne-nil n) (digits-decimal n) l)
