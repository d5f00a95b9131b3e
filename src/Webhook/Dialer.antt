-- ===== src/Webhook/Dialer.antt =====
-- safeDialer of internal/webhook/resilience.go, which connects to the addresses that it has looked
-- up itself. The resolver, the dialer and net.SplitHostPort are answers of an environment.
use pulse_data.Prelude.{
  ◌≡◌, refl, arith, if◌then◌else◌, ◌&&◌, not, Bool, false, Option, none, some, List, [], ◌∷◌, Any,
  inl,
}
use pulse_data.Prelude.Text.{Text}
use pulse_data.Prelude.History.{Run, pure, call, ◌>>=◌}
use pulse_data.Errors.{Error, Result, ok, err}
use pulse_data.Webhook.Ssrf.{Ip, Net, err_blocked_url, is_private_ip}

pub data Call : Type 0 where
  resolved : Text → Result (List Ip) → Call
  dialed : Ip → Text → Option Error → Call

pub record Env : Type 0 where
  pub net : Net
  pub allow_private : Bool
  pub split_host_port : Text → Option (Text × Text)
  pub resolve : Text → List Call → Result (List Ip)
  pub dial : Ip → Text → List Call → Option Error

module _ (env : Env) where
  -- isPrivateIP(ip) && !allowPrivateEndpoints()
  abbrev pub is_refused : Ip → Bool
  is_refused ip = is_private_ip env.net ip && not env.allow_private

  -- The loop over the addresses: the first that is not refused.
  unfoldable pub pick_ip : List Ip → Option Ip
  pick_ip [] = none
  pick_ip (ip ∷ ips) = let rest = pick_ip ips in if is_refused ip then rest else some ip

  -- A connection is the address and the port of its other end.
  abbrev pub after_dial : Ip → Text → Option Error → Run Call (Result (Ip × Text))
  after_dial ip port (some e) = pure (err e)
  after_dial ip port none = pure (ok (ip, port))

  abbrev pub dial_ip : Text → Option Ip → Run Call (Result (Ip × Text))
  dial_ip port none = pure (err err_blocked_url)
  dial_ip port (some ip) = call (env.dial ip port) (dialed ip port) >>= after_dial ip port

  abbrev pub after_lookup : Text → Result (List Ip) → Run Call (Result (Ip × Text))
  after_lookup port (err e) = pure (err e)
  after_lookup port (ok ips) = dial_ip port (pick_ip ips)

  abbrev pub after_split : Option (Text × Text) → Run Call (Result (Ip × Text))
  after_split none = pure (err err_blocked_url)
  after_split (some (host, port)) = call (env.resolve host) (resolved host) >>= after_lookup port

  unfoldable pub safe_dialer : Text → Run Call (Result (Ip × Text))
  unfolding pick_ip
  safe_dialer address = after_split (env.split_host_port address)

  -- The resolver has given the address.
  abbrev pub Names : Ip → Call → Type 0
  Names ip (resolved host (ok ips)) = Any (λ x. x ≡ ip) ips
  Names ip _ = ⊥

  abbrev pub AreDialsVetted : List Call → Type 0
  AreDialsVetted [] = Unit
  AreDialsVetted (dialed ip port e ∷ past) =
      (is_refused ip ≡ false) × Any (Names ip) past × AreDialsVetted past
  AreDialsVetted (_ ∷ past) = AreDialsVetted past

  abbrev pub IsConnected : Result (Ip × Text) × List Call → Type 0
  IsConnected (ok (ip, port), h) = Any (λ c. c ≡ dialed ip port none) h
  IsConnected (err e, h) = Unit

  abbrev pub IsSafe : Result (Ip × Text) × List Call → Type 0
  IsSafe (r, h) = IsConnected (r, h) × AreDialsVetted h

  pick_ip-Any :
      (ips : List Ip) (ip : Ip)
      → pick_ip ips ≡ some ip
      → (is_refused ip ≡ false) × Any (λ x. x ≡ ip) ips
  unfolding pick_ip
  pick_ip-Any [] ip e = ground arith
  pick_ip-Any (x ∷ ips) ip e = ground (arith, e, pick_ip-Any ips ip)

  dial_ip-IsSafe :
      (port host : Text) (ips : List Ip) (o : Option Ip)
      → pick_ip ips ≡ o
      → IsSafe (dial_ip port o (resolved host (ok ips) ∷ []))
  dial_ip-IsSafe port host ips none e = (tt, tt)
  dial_ip-IsSafe port host ips (some ip) e =
      by_answer (pick_ip-Any ips ip e) (env.dial ip port (resolved host (ok ips) ∷ []))
    where
      by_answer :
          (is_refused ip ≡ false) × Any (λ x. x ≡ ip) ips
          → (a : Option Error)
          → IsSafe (after_dial ip port a (dialed ip port a ∷ resolved host (ok ips) ∷ []))
      by_answer (vetted, named) none = (inl refl, (vetted, inl named, tt))
      by_answer (vetted, named) (some x) = (tt, (vetted, inl named, tt))

  -- Whatever address is asked for and whatever the resolver says, safeDialer dials only addresses
  -- that the resolver has just given and that isPrivateIP does not refuse, unless private endpoints
  -- are allowed, and a connection that it returns is one that it has dialed.
  pub safe_dialer-IsSafe : (address : Text) → IsSafe (safe_dialer address [])
  unfolding safe_dialer
  safe_dialer-IsSafe address = by_split (env.split_host_port address)
    where
      by_lookup :
          (host port : Text) (r : Result (List Ip))
          → IsSafe (after_lookup port r (resolved host r ∷ []))
      by_lookup host port (err e) = (tt, tt)
      by_lookup host port (ok ips) = dial_ip-IsSafe port host ips (pick_ip ips) refl

      by_split : (s : Option (Text × Text)) → IsSafe (after_split s [])
      by_split none = (tt, tt)
      by_split (some (host, port)) = by_lookup host port (env.resolve host [])
