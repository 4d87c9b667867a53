-- ===== src/Policy/TargetLaws.antt =====
-- What decides whether a target may be driven.
use tracepoint.Base.{
  ℕ, Bool, not, ◌&&◌, ◌||◌, ◌≡◌, refl, subst, Option, none, some, List, [], ◌∷◌, any, all, arith,
  leb,
}
use tracepoint.Base.Text.{Text}
use tracepoint.Errs.{Result, ok, err, is_nil}
use tracepoint.Policy.Target.{
  Net, Scope, Target, loopback, rank, not_public, wider, classify_one, widen, classify_addrs,
  matches, check_target, resolve, target_at, resolve_as, looked_up, resolve_as, looked_up,
}

module _ (net : Net) where
  -- A target may be driven exactly when no entry of the deny list covers it and it is not public,
  -- or public targets are granted, or an entry of the allowlist covers it.
  pub check_target-permits :
      (deny allow : List Text) (granted : Bool) (t : Target)
      → is_nil (check_target net deny granted allow t) ≡ (
          not (any (λ e. matches net e t) deny)
          && (not_public t.scope || (granted || any (λ e. matches net e t) allow)))
  unfolding check_target
  check_target-permits deny allow granted t = ground arith

  leb-wider : (w s : Scope) (n : ℕ) → leb (rank (wider w s)) n ≡ (leb (rank w) n && leb (rank s) n)
  leb-wider w s n = ground arith

  leb-widen :
      (w : Scope) (as' : List Text) (n : ℕ)
      → leb (rank (widen net w as')) n
        ≡ (leb (rank w) n && all (λ a. leb (rank (classify_one net a)) n) as')
  unfolding widen all
  leb-widen w [] n = ground arith
  leb-widen w (a ∷ as') n =
      ground
        (arith, leb-widen (wider w (classify_one net a)) as' n, leb-wider w (classify_one net a) n)

  -- The scope of a host is the widest of its addresses: it is within a bound exactly when the scope
  -- of every address is.
  pub classify_addrs-widest :
      (addrs : List Text) (n : ℕ)
      → leb (rank (classify_addrs net addrs)) n ≡ all (λ a. leb (rank (classify_one net a)) n) addrs
  unfolding classify_addrs
  classify_addrs-widest addrs n = ground (arith, leb-widen loopback addrs n)

  rank-public : (s : Scope) → leb (rank s) 2 ≡ not_public s
  rank-public s = ground arith

  all_public :
      (as' : List Text)
      → all (λ a. leb (rank (classify_one net a)) 2) as'
        ≡ all (λ a. not_public (classify_one net a)) as'
  unfolding all
  all_public [] = refl
  all_public (a ∷ as') = ground (arith, all_public as', rank-public (classify_one net a))

  -- A resolved target carries the scope of its addresses.
  unfoldable IsResolved : Target → Type 0
  IsResolved t = not_public t.scope ≡ all (λ a. not_public (classify_one net a)) t.addrs

  target_at-IsResolved : (host : Text) (addrs : List Text) → IsResolved (target_at net host addrs)
  unfolding IsResolved
  target_at-IsResolved host addrs = ground (
    arith,
    classify_addrs-widest addrs 2,
    rank-public (classify_addrs net addrs),
    all_public addrs,
  )

  IsSoundResult : Result Target → Type 0
  IsSoundResult (ok t) = IsResolved t
  IsSoundResult (err e) = Unit

  looked_up-IsSoundResult :
      (host : Text) (o : Option (List Text)) → IsSoundResult (looked_up net host o)
  unfolding IsSoundResult
  looked_up-IsSoundResult host none = tt
  looked_up-IsSoundResult host (some addrs) = target_at-IsResolved host addrs

  resolve-IsSoundResult :
      (lookup_host : Text → Option (List Text)) (host : Text)
      → IsSoundResult (resolve net lookup_host host)
  unfolding resolve
  resolve-IsSoundResult lookup_host host = go (net.parse_addr host)
    where
      go : (o : Option (net.Addr)) → IsSoundResult (resolve_as net o lookup_host host)
      go (some ip) = unfold IsSoundResult in target_at-IsResolved host (net.addr_string ip ∷ [])
      go none = looked_up-IsSoundResult host (lookup_host host)

  resolve-IsResolved :
      (lookup_host : Text → Option (List Text)) (host : Text) (t : Target)
      → resolve net lookup_host host ≡ ok t
      → IsResolved t
  unfolding IsSoundResult
  resolve-IsResolved lookup_host host t h =
      subst IsSoundResult h (resolve-IsSoundResult lookup_host host)

  -- A host that was resolved may be driven exactly when no entry of the deny list covers it and
  -- none of its addresses is public, or public targets are granted, or an allowlist entry covers it.
  pub resolve-permits :
      (lookup_host : Text → Option (List Text)) (host : Text) (t : Target) (deny allow : List Text)
      (granted : Bool)
      → resolve net lookup_host host ≡ ok t
      → is_nil (check_target net deny granted allow t) ≡ (
          not (any (λ e. matches net e t) deny)
          && (all (λ a. not_public (classify_one net a)) t.addrs
              || (granted || any (λ e. matches net e t) allow)))
  unfolding IsResolved
  resolve-permits lookup_host host t deny allow granted h =
      ground
        (arith, check_target-permits deny allow granted t, resolve-IsResolved lookup_host host t h)
