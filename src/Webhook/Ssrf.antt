-- ===== src/Webhook/Ssrf.antt =====
-- The endpoint check of internal/webhook/ssrf.go. url.Parse with Hostname, the resolver and the
-- environment variable are parameters; the predicates of net.IP are too, but To4 yields bytes.
pub mod Policy
use pulse_data.Prelude.{
  ℕ, ◌≡◌, ◌==◌, leb, if◌then◌else◌, ◌&&◌, ◌||◌, not, Bool, true, false, Option, none, some, List,
  [], ◌∷◌, is_empty,
}
use pulse_data.Prelude.Text.{Text, Text-discrete, codes}
use pulse_data.Errors.{Error, plain, Result, ok, err}

-- What the check reads of a parsed URL.
pub record Url : Type 0 where
  pub scheme : Text
  pub hostname : Text
  pub has_user : Bool

-- A net.IP is a list of bytes, and nil is the empty one.
abbrev pub Ip : Type 0
Ip = List ℕ

-- `is_reserved` is the disjunction of IsLoopback, IsPrivate, IsLinkLocalUnicast,
-- IsLinkLocalMulticast and IsUnspecified; `to4` is the four bytes of an IPv4 address.
pub record Net : Type 0 where
  pub parse : Text → Result Url
  pub to_lower : Text → Text
  pub is_reserved : Ip → Bool
  pub to4 : Ip → Option (ℕ × ℕ × ℕ × ℕ)

abbrev pub is_same : Text → Text → Bool
is_same a b = elim (Text-discrete a b) [ yes p ↦ true | no p ↦ false ]

abbrev pub err_blocked_url : Error
err_blocked_url = plain (codes "webhook endpoint blocked by SSRF policy")

-- The ranges 169.254.0.0/16 and 100.64.0.0/10.
abbrev pub is_denied_v4 : Option (ℕ × ℕ × ℕ × ℕ) → Bool
is_denied_v4 none = false
is_denied_v4 (some (a, b, c, d)) = (a == 169 && b == 254) || (a == 100 && (leb 64 b && leb b 127))

module _ (net : Net) where
  unfoldable pub is_private_ip : Ip → Bool
  is_private_ip ip = is_empty ip || (net.is_reserved ip || is_denied_v4 (net.to4 ip))

  -- The loop over the addresses: none is refused.
  unfoldable pub check_ips : Bool → List Ip → Option Error
  unfolding is_private_ip
  check_ips allow_private [] = none
  check_ips allow_private (ip ∷ ips) =
      let rest = check_ips allow_private ips in
      if is_private_ip ip && not allow_private then some err_blocked_url else rest

  abbrev pub after_resolve : Bool → Result (List Ip) → Option Error
  after_resolve allow_private (err e) = some err_blocked_url
  after_resolve allow_private (ok ips) =
      if is_empty ips then some err_blocked_url else check_ips allow_private ips

  abbrev pub after_resolver : Bool → Text → Option (Text → Result (List Ip)) → Option Error
  after_resolver allow_private host none = some err_blocked_url
  after_resolver allow_private host (some resolve) =
      if is_same host (codes "localhost") || is_same host (codes "metadata.google.internal")
      then some err_blocked_url
      else after_resolve allow_private (resolve host)

  abbrev pub after_parse : Bool → Option (Text → Result (List Ip)) → Result Url → Option Error
  after_parse allow_private resolver (err e) = some err_blocked_url
  after_parse allow_private resolver (ok u) =
      if (not (is_same u.scheme (codes "http")) && not (is_same u.scheme (codes "https")))
        || (is_empty u.hostname || u.has_user)
      then some err_blocked_url
      else after_resolver allow_private (net.to_lower u.hostname) resolver

  unfoldable pub validate_endpoint : Bool → Text → Option (Text → Result (List Ip)) → Option Error
  unfolding check_ips
  validate_endpoint allow_private raw resolver = after_parse allow_private resolver (net.parse raw)
