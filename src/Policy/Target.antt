-- ===== src/Policy/Target.antt =====
-- internal/policy/policy.go: where a run may be pointed. The parts of net/netip and net that it uses
-- are parameters.
use tracepoint.Base.{
  ℕ, Bool, true, false, ◌||◌, Option, none, some, List, [], ◌∷◌, any, if◌then◌else◌, ltb,
}
use tracepoint.Base.Text.{Text, equal_fold}
use tracepoint.Errs.{Error, Result, ok, err, error, policy_target_not_allowed, preflight_dns}

-- netip.ParseAddr, Addr.String, netip.ParsePrefix, Prefix.Contains and the tests on an address.
pub record Net : Type 1 where
  pub Addr : Type 0
  pub Prefix : Type 0
  pub parse_addr : Text → Option Addr
  pub addr_string : Addr → Text
  pub parse_prefix : Text → Option Prefix
  pub prefix_contains : Prefix → Addr → Bool
  pub is_loopback : Addr → Bool
  pub is_link_local_unicast : Addr → Bool
  pub is_link_local_multicast : Addr → Bool
  pub is_private : Addr → Bool
  pub is_unspecified : Addr → Bool

pub data Scope : Type 0 where
  loopback private link_local public : Scope

-- The table `rank` of ClassifyAddrs.
abbrev pub rank : Scope → ℕ
rank loopback = 0
rank link_local = 1
rank private = 2
rank public = 3

abbrev pub not_public : Scope → Bool
not_public public = false
not_public _ = true

pub record Target : Type 0 where
  pub host : Text
  pub addrs : List Text
  pub scope : Scope

-- One step of the search for the widest scope.
abbrev pub wider : Scope → Scope → Scope
wider widest s = if ltb (rank widest) (rank s) then s else widest

module _ (net : Net) where
  abbrev pub scope_of : Option (net.Addr) → Scope
  scope_of none = public
  scope_of (some ip) =
      if net.is_loopback ip
      then loopback
      else if net.is_link_local_unicast ip || net.is_link_local_multicast ip
      then link_local
      else if net.is_private ip || net.is_unspecified ip
      then private
      else public

  unfoldable pub classify_one : Text → Scope
  classify_one addr = scope_of (net.parse_addr addr)

  unfoldable pub widen : Scope → List Text → Scope
  widen widest [] = widest
  widen widest (a ∷ as') = widen (wider widest (classify_one a)) as'

  unfoldable pub classify_addrs : List Text → Scope
  classify_addrs addrs = widen loopback addrs

  abbrev pub prefix_has : net.Prefix → Option (net.Addr) → Bool
  prefix_has p none = false
  prefix_has p (some ip) = net.prefix_contains p ip

  abbrev matches_literal : Option (net.Addr) → Text → Target → Bool
  matches_literal none entry t = false
  matches_literal (some ip) entry t = any (λ a. equal_fold entry a) t.addrs

  abbrev matches_addrs : Option (net.Prefix) → Text → Target → Bool
  matches_addrs (some p) entry t = any (λ a. prefix_has p (net.parse_addr a)) t.addrs
  matches_addrs none entry t = matches_literal (net.parse_addr entry) entry t

  unfoldable pub matches : Text → Target → Bool
  matches entry t =
      if equal_fold entry t.host then true else matches_addrs (net.parse_prefix entry) entry t

  -- One entry of the policy's allowlist, against an entry of the configuration's.
  abbrev covers_prefix : Option (net.Prefix) → Text → Bool
  covers_prefix none entry = false
  covers_prefix (some p) entry = prefix_has p (net.parse_addr entry)

  unfoldable pub covers : Text → Text → Bool
  covers permitted entry =
      equal_fold permitted entry || covers_prefix (net.parse_prefix permitted) entry

  abbrev local_addr : Option (net.Addr) → Bool
  local_addr none = false
  local_addr (some ip) = not_public (classify_one (net.addr_string ip))

  unfoldable pub allowlist_permits : Bool → List Text → Text → Bool
  allowlist_permits allow_public allow entry =
      if allow_public
      then true
      else if any (λ permitted. covers permitted entry) allow
      then true
      else local_addr (net.parse_addr entry)

  abbrev pub refused : Option Error
  refused = some (error policy_target_not_allowed "")

  -- `none` is Go's nil: the target may be driven.
  unfoldable pub check_target :
      (deny : List Text) (allow_public : Bool) (allow : List Text) → Target → Option Error
  check_target deny allow_public allow t =
      if any (λ entry. matches entry t) deny
      then refused
      else if not_public t.scope
      then none
      else if allow_public
      then none
      else if any (λ entry. matches entry t) allow
      then none
      else refused

  abbrev pub target_at : Text → List Text → Target
  target_at host addrs = record { host = host; addrs = addrs; scope = classify_addrs addrs }

  abbrev pub looked_up : Text → Option (List Text) → Result Target
  looked_up host none = err (error preflight_dns "")
  looked_up host (some addrs) = ok (target_at host addrs)

  abbrev pub resolve_as : Option (net.Addr) → (Text → Option (List Text)) → Text → Result Target
  resolve_as (some ip) lookup_host host = ok (target_at host (net.addr_string ip ∷ []))
  resolve_as none lookup_host host = looked_up host (lookup_host host)

  -- `lookup_host` is the resolver.
  unfoldable pub resolve : (Text → Option (List Text)) → Text → Result Target
  resolve lookup_host host = resolve_as (net.parse_addr host) lookup_host host
