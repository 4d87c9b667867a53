-- ===== src/Policy/Envelope/Examples.antt =====
-- Policies loaded, tightened and checked, on a network of numbered addresses.
use tracepoint.Base.{
  ℕ, true, false, not, ◌&&◌, ◌||◌, ◌≡◌, refl, Option, none, some, List, [], ◌∷◌, all, any, arith,
  leb, if◌then◌else◌,
}
use tracepoint.Base.{◌==◌ as nat_eq}
use tracepoint.Base.Int.{ℤ, pos, negsuc, eqb_ℤ}
use tracepoint.Base.Sample.{whole}
use tracepoint.Base.Text.{Text, codes, equal_fold, upper, upper_byte, keep, ◌==◌}
use tracepoint.Errs.{ok, is_ok, is_nil}
use tracepoint.Policy.Target.{
  Net, Target, classify_one, classify_addrs, widen, matches, check_target, resolve, not_public,
  rank, allowlist_permits, target_at,
}
use tracepoint.Policy.TargetLaws.{resolve-permits, check_target-permits, classify_addrs-widest}
use tracepoint.Policy.Envelope.{Durations, Policy, Tightening, default, max_run_duration}
use tracepoint.Policy.Envelope.Tighten.{
  tighten, tightened, narrow, problems_of, conclude, limit_duration,
}
use tracepoint.Policy.Envelope.Checks.{
  check_rate, check_in_flight, check_duration, check_writes, check_dangerous,
}
use tracepoint.Policy.Envelope.Accepts.{tighten-accepts, asks_within, fits_duration}
use tracepoint.Policy.Envelope.Laws.{tighten-checks, implies}
use tracepoint.Policy.Envelope.Load.{load, load-IsUsable}

-- A duration is written as its sign and its size.
abbrev read_size : Text → Option ℤ
read_size (s ∷ n ∷ []) = some (if nat_eq s 0 then pos n else negsuc n)
read_size _ = none

abbrev write_size : ℤ → Text
write_size (pos n) = 0 ∷ n ∷ []
write_size (negsuc n) = 1 ∷ n ∷ []

abbrev sizes : Durations
sizes = record { parse = read_size; print = write_size }

read_write : (d : ℤ) → read_size (write_size d) ≡ some d
read_write (pos n) = refl
read_write (negsuc n) = refl

whole_trans :
    (a b c : ℤ)
    → whole.le a b ≡ true
    → whole.lt c b ≡ false
    → whole.is_nan c ≡ false
    → whole.le a c ≡ true
whole_trans a b c h k l = ground arith

abbrev one : Text → Option ℕ
one (n ∷ []) = some n
one _ = none

abbrev range : Text → Option (ℕ × ℕ)
range (a ∷ b ∷ []) = some (a, b)
range _ = none

-- A text of one number is an address, of two a range; 127 is loopback, 10 to 19 are private.
abbrev numbered : Net
numbered = record {
  Addr = ℕ;
  Prefix = ℕ × ℕ;
  parse_addr = one;
  addr_string = λ n. n ∷ [];
  parse_prefix = range;
  prefix_contains = λ p n. leb p.0 n && leb n p.1;
  is_loopback = λ n. nat_eq n 127;
  is_link_local_unicast = λ n. nat_eq n 169;
  is_link_local_multicast = λ n. false;
  is_private = λ n. leb 10 n && leb n 19;
  is_unspecified = λ n. nat_eq n 0;
}

abbrev asked : Tightening whole
asked = record {
  allow_writes = false;
  allow_dangerous = false;
  allow_insecure_tls = false;
  allow_targets = (12 ∷ []) ∷ [];
  max_rate_per_runner = some (pos 100);
  max_in_flight = some (pos 64);
  max_duration = some (pos 3);
}

abbrev granted : Policy whole
granted = record {
  version = pos 1;
  allow_targets = [];
  deny_targets = [];
  allow_public_targets = false;
  allow_writes = true;
  allow_dangerous = false;
  allow_insecure_tls = false;
  allow_detach = true;
  max_rate_per_runner = some (pos 500);
  max_in_flight = some (pos 512);
  max_duration = some (write_size (pos 7));
  max_concurrent_runs = pos 1;
  run_root = [];
  redact_headers = [];
}

abbrev in_force : Policy whole
in_force = tightened whole numbered sizes granted asked (some (write_size (pos 3)))

asked_is_granted : tighten whole numbered sizes granted asked ≡ ok in_force
unfolding tighten problems_of conclude limit_duration narrow keep allowlist_permits any classify_one
    max_run_duration
asked_is_granted = refl

tighten-accepts_example : is_ok (tighten whole numbered sizes granted asked) ≡ (
    asks_within whole numbered sizes granted asked
    && fits_duration (max_run_duration sizes granted.max_duration) asked.max_duration)
tighten-accepts_example = tighten-accepts whole numbered sizes granted asked

tighten-checks_example :
    (implies
        (is_nil (check_rate whole in_force "db" (pos 90)))
        (is_nil (check_rate whole granted "db" (pos 90)))
      ≡ true)
    × (implies
          (is_nil (check_in_flight whole in_force "db" (pos 9)))
          (is_nil (check_in_flight whole granted "db" (pos 9)))
        ≡ true)
    × (implies
          (is_nil (check_duration whole sizes in_force (pos 2)))
          (is_nil (check_duration whole sizes granted (pos 2)))
        ≡ true)
    × (implies
          (is_nil (check_writes whole in_force "db" []))
          (is_nil (check_writes whole granted "db" []))
        ≡ true)
    × (implies
          (is_nil (check_dangerous whole in_force "db" []))
          (is_nil (check_dangerous whole granted "db" []))
        ≡ true)
    × (in_force.deny_targets ≡ granted.deny_targets)
    × (in_force.allow_public_targets ≡ granted.allow_public_targets)
tighten-checks_example =
    tighten-checks whole numbered sizes refl read_write whole_trans granted in_force asked "db"
      (pos 90) (pos 9) (pos 2) [] [] refl asked_is_granted

-- A file whose text is kept as the run root.
abbrev read_decode : Policy whole → Text → Option (Policy whole)
read_decode p raw = some (record granted { run_root = raw })

abbrev no_variables : Text → Option Text
no_variables _ = none

abbrev kept : Policy whole
kept = record granted { run_root = 5 ∷ [] }

file_loads : load whole sizes (λ t. some t) read_decode (5 ∷ []) no_variables ≡ ok kept
unfolding load max_run_duration default
file_loads = refl

load-IsUsable_example :
    (eqb_ℤ (kept.version) (pos 1) ≡ true)
    × (is_ok (max_run_duration sizes kept.max_duration) ≡ true)
load-IsUsable_example =
    load-IsUsable whole sizes (λ t. some t) read_decode (5 ∷ []) no_variables kept file_loads

-- A host that the resolver finds at a private and at a public address.
abbrev lookup : Text → Option (List Text)
lookup _ = some ((12 ∷ []) ∷ (8 ∷ []) ∷ [])

abbrev mixed : Target
mixed = target_at numbered (codes "db") ((12 ∷ []) ∷ (8 ∷ []) ∷ [])

mixed_found : resolve numbered lookup (codes "db") ≡ ok mixed
unfolding resolve
mixed_found = refl

check_target-permits_example : is_nil (check_target numbered [] false [] mixed) ≡ (
    not (any (λ e. matches numbered e mixed) [])
    && (not_public mixed.scope || (false || any (λ e. matches numbered e mixed) [])))
check_target-permits_example = check_target-permits numbered [] [] false mixed

resolve-permits_example : is_nil (check_target numbered [] false [] mixed) ≡ (
    not (any (λ e. matches numbered e mixed) [])
    && (all (λ a. not_public (classify_one numbered a)) mixed.addrs
        || (false || any (λ e. matches numbered e mixed) [])))
resolve-permits_example = resolve-permits numbered lookup (codes "db") mixed [] [] false mixed_found

classify_addrs-widest_example :
    leb (rank (classify_addrs numbered mixed.addrs)) 2
    ≡ all (λ a. leb (rank (classify_one numbered a)) 2) mixed.addrs
classify_addrs-widest_example = classify_addrs-widest numbered mixed.addrs 2

-- A configuration that lists a private address has it granted, and then a host at that address and at a
-- public one passes, which the policy alone refuses.
mixed_is_refused :
    is_nil (
      check_target numbered granted.deny_targets granted.allow_public_targets granted.allow_targets
        mixed)
    ≡ false
unfolding check_target matches any classify_addrs widen classify_one equal_fold upper upper_byte
    ◌==◌
mixed_is_refused = refl

mixed_passes_when_tightened :
    is_nil (
      check_target numbered in_force.deny_targets in_force.allow_public_targets
        in_force.allow_targets mixed)
    ≡ true
unfolding check_target matches any classify_addrs widen classify_one equal_fold upper upper_byte
    ◌==◌ narrow
mixed_passes_when_tightened = refl
