-- ===== src/Webhook/Ssrf/Policy.antt =====
-- What an endpoint is that internal/webhook/ssrf.go lets pass.
use mathlib.Core.Path.{subst}
use pulse_data.Prelude.{
  ◌≡◌, ◌≢◌, ◌⊎◌, ◌↔◌, refl, arith, true, false, none, some, List, [], ◌∷◌, All, is_empty,
}
use pulse_data.Prelude.Text.{Text, codes}
use pulse_data.Errors.{Result, ok, err}
use pulse_data.Webhook.Ssrf.{
  Url, Ip, Net, is_same, is_private_ip, check_ips, after_resolve, after_parse, validate_endpoint,
}

is_same_iff : (a b : Text) → (is_same a b ≡ true) ↔ (a ≡ b)
is_same_iff a b = ground arith

module _ (net : Net) where
  check_ips-none :
      (ips : List Ip)
      → check_ips net false ips ≡ none
      → All (λ ip. is_private_ip net ip ≡ false) ips
  unfolding check_ips
  check_ips-none [] e = tt
  check_ips-none (ip ∷ ips) e = ground (arith, check_ips-none ips)

  check_ips-All :
      (ips : List Ip)
      → All (λ ip. is_private_ip net ip ≡ false) ips
      → check_ips net false ips ≡ none
  unfolding check_ips
  check_ips-All [] a = refl
  check_ips-All (ip ∷ ips) (p, a) = ground (arith, p, check_ips-All ips a)

  -- The resolver's answer is addresses, none of them private.
  abbrev pub ArePublic : Result (List Ip) → Type 0
  ArePublic r =
      (ips : List Ip) × (r ≡ ok ips) × (ips ≢ []) × All (λ ip. is_private_ip net ip ≡ false) ips

  resolve_allows : (r : Result (List Ip)) → after_resolve net false r ≡ none → ArePublic r
  resolve_allows (err e) p = ground arith
  resolve_allows (ok []) p = ground arith
  resolve_allows (ok (ip ∷ ips)) p =
      (ip ∷ ips, refl, λ e. ground (arith, e), check_ips-none (ip ∷ ips) p)

  resolve_allowed : (r : Result (List Ip)) → ArePublic r → after_resolve net false r ≡ none
  resolve_allowed (err e) (ips, p, n, a) = ground (arith, p)
  resolve_allowed (ok []) (ips, p, n, a) = absurd (n (ground (arith, p)))
  resolve_allowed (ok (ip ∷ ips)) (ips', p, n, a) =
      check_ips-All (ip ∷ ips)
        (subst (All (λ x. is_private_ip net x ≡ false)) {y = ip ∷ ips} (ground (arith, p)) a)

  -- The URL is one of HTTP or HTTPS with a host and no user, the host is none of the two that are
  -- refused by name, and it resolves to public addresses.
  abbrev pub IsPublicUrl : (Text → Result (List Ip)) → Url → Type 0
  IsPublicUrl resolve u =
      ((u.scheme ≡ codes "http") ⊎ (u.scheme ≡ codes "https"))
      × (is_empty u.hostname ≡ false)
      × (u.has_user ≡ false)
      × (net.to_lower u.hostname ≢ codes "localhost")
      × (net.to_lower u.hostname ≢ codes "metadata.google.internal")
      × ArePublic (resolve (net.to_lower u.hostname))

  url_allows :
      (resolve : Text → Result (List Ip)) (u : Url)
      → after_parse net false (some resolve) (ok u) ≡ none
      → IsPublicUrl resolve u
  url_allows resolve u p = ground (arith, resolve_allows (resolve (net.to_lower u.hostname)))

  url_allowed :
      (resolve : Text → Result (List Ip)) (u : Url)
      → IsPublicUrl resolve u
      → after_parse net false (some resolve) (ok u) ≡ none
  url_allowed resolve u (s, n, user, l, m, a) =
      let r = resolve_allowed (resolve (net.to_lower u.hostname)) a in ground (arith, r)

  -- Without the opt-in for private endpoints, and with a resolver, ValidateEndpoint lets a URL
  -- pass exactly if it parses, its scheme is http or https, it has a host and no user, the host
  -- in lower case is neither localhost nor metadata.google.internal, and the host resolves to at
  -- least one address and to no private one.
  pub validate_endpoint-none_iff :
      (raw : Text) (resolve : Text → Result (List Ip))
      → (validate_endpoint net false raw (some resolve) ≡ none)
        ↔ ((u : Url) × (net.parse raw ≡ ok u) × IsPublicUrl resolve u)
  unfolding validate_endpoint
  validate_endpoint-none_iff raw resolve = by_url (net.parse raw)
    where
      by_url :
          (r : Result Url)
          → (after_parse net false (some resolve) r ≡ none)
            ↔ ((u : Url) × (r ≡ ok u) × IsPublicUrl resolve u)
      by_url (err e) = ground arith
      by_url (ok u) = (
        λ p. (u, refl, url_allows resolve u p),
        λ x.
            let (v, p, a) = x in
            url_allowed resolve u (subst (IsPublicUrl resolve) {y = u} (ground (arith, p)) a),
      )
