-- ===== src/Dataplane/Kernel.antt =====
-- What the data plane asks of the kernel through the packages netlink and go-iptables, which are a
-- parameter: they may answer each request as they like, on what was asked before. The state of the
-- actions keeps the requests asked so far, and an action ends at its first error as the Go
-- functions
-- return it.
use iml.Common.{ℕ, Bool, List, [], ◌∷◌, ◌++◌, Option, none, some, if◌then◌else◌}
use iml.Common.Results.{Result, ok, err}
use iml.Common.Texts.{Text}
use iml.Dataplane.Descendants.{Link}

abbrev pub Ip : Type 0
Ip = List ℕ

-- `net.IPNet`, with the ones of its mask.
pub record IpNet : Type 0 where
  pub ip : Ip
  pub ones : ℕ

-- `netlink.Route`: a destination of nil is the default route; a link index of 0 is none.
pub record Route : Type 0 where
  pub dst : Option IpNet
  pub gw : Option Ip
  pub table : ℕ
  pub link_index : ℕ
  pub segments : List Ip
  pub unreachable : Bool

-- The requests that change the kernel's state. `ct_zone_append` and `ct_zone_delete` are
-- `AppendUnique` and `DeleteIfExists` of the rule `ctZoneRule(iface, zone)` in CTZoneChainName of
-- the
-- IPv6 or IPv4 tables.
pub data Request : Type 0 where
  add_vrf : Text → ℕ → Request
  add_veth : Text → Text → Request
  addr_add : Text → Ip → ℕ → Request
  link_del link_set_up link_set_no_master : Text → Request
  link_set_master : Text → Text → Request
  route_add route_replace route_del : Route → Request
  ct_zone_append ct_zone_delete : Bool → Text → ℕ → Request

pub data LookupError : Type 0 where
  not_found : LookupError
  failed : ℕ → LookupError

-- How netlink answers, after the requests asked so far, and crypto/rand for the names made of random
-- bytes, by the number of the call.
pub record Kernel : Type 0 where
  pub link_by_name : List Request → Text → Result LookupError Link
  pub link_list : List Request → Option (List Link)
  pub routes_of : List Request → Bool → ℕ → Option (List Route)
  pub random : List Request → ℕ → Option Text
  pub perform : List Request → Request → Option ℕ

-- The errors that the functions return.
pub data Failure : Type 0 where
  refused : Request → ℕ → Failure
  lookup_failed : Text → LookupError → Failure
  no_networks no_gateway_4 no_gateway_6 no_tunnel : Failure
  no_source_app no_source_subnets no_name no_address no_cidr invalid_cidr nil_subnet : Failure

-- A method on a state of type S.
abbrev pub Action : Type 0 → Type 0 → Type 0
Action S A = S → Result Failure A × S

module _ {S A : Type 0} where
  abbrev pub pure : A → Action S A
  pure a s = (ok a, s)

  abbrev pub raise : Failure → Action S A
  raise e s = (err e, s)

  abbrev pub gets : (S → A) → Action S A
  gets f s = (ok (f s), s)

-- What follows an outcome: the rest, or nothing after an error.
abbrev pub continued :
    {S A B : Type 0} → Result Failure A × S → (A → Action S B) → Result Failure B × S
continued o f = elim o.0 [ ok a ↦ f a o.1 | err e ↦ (err e, o.1) ]

infixl 5 ◌>>=◌ ◌>>◌
abbrev pub ◌>>=◌ : {S A B : Type 0} → Action S A → (A → Action S B) → Action S B
◌>>=◌ m f s = continued (m s) f

abbrev pub ◌>>◌ : {S A B : Type 0} → Action S A → Action S B → Action S B
m >> k = m >>= λ _. k

module _ {S : Type 0} where
  abbrev pub raise_if : Bool → Failure → Action S (Unit {0})
  raise_if c e s = (if c then err e else ok tt, s)

  abbrev pub modify : (S → S) → Action S (Unit {0})
  modify f s = (ok tt, f s)

  -- A deferred function that runs if an error is returned; its own errors are logged.
  abbrev pub deferred : {A : Type 0} → Action S A → Action S (Unit {0}) → Action S A
  deferred m c s = let o = m s in elim o.0 [ ok a ↦ (ok a, o.1) | err e ↦ (err e, (c o.1).1) ]

  -- An action whose error is logged and ignored.
  abbrev pub logged : Action S (Unit {0}) → Action S (Unit {0})
  logged m s = let (r, t) = m s in (ok tt, t)

  abbrev pub when_some : {V : Type 0} → Option V → (V → Action S (Unit {0})) → Action S (Unit {0})
  when_some none f = pure tt
  when_some (some v) f = f v

abbrev pub Asking : Type 0 → Type 0
Asking A = Action (List Request) A

module _ (kernel : Kernel) where
  -- One request.
  unfoldable pub ask : Request → Asking (Unit {0})
  ask q asked = (
    elim (kernel.perform asked q) [ none ↦ ok tt | some n ↦ err (refused q n) ],
    asked ++ (q ∷ []),
  )

  unfoldable pub look_up : Text → Asking Link
  look_up name asked = (
    elim (kernel.link_by_name asked name) [ ok l ↦ ok l | err e ↦ err (lookup_failed name e) ],
    asked,
  )
