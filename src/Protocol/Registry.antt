-- ===== src/Protocol/Registry.antt =====
-- protocol/engine.go, ProtocolRegistry: the engines by name.
use go_mpc_wallet.Base.{
  ◌≡◌, false, String, Option, none, some, List, [], ◌∷◌, Dict, lookup, insert, if◌then◌else◌,
  str_eq, arith, lookup-insert, str_eq_self, ◌+++◌,
}
use go_mpc_wallet.Storage.World.{Outcome, ok, err, message}
use go_mpc_wallet.Signing.Protocol.{lower_eq}

pub record ProtocolRegistry {ℓ} (E : Type ℓ) : Type ℓ where
  pub protocols : Dict E
  pub default_protocol : String

module _ {ℓ} {E : Type ℓ} where
  abbrev pub new_protocol_registry : ProtocolRegistry E
  new_protocol_registry = record { protocols = []; default_protocol = "" }

  unfoldable pub register : String → E → ProtocolRegistry E → ProtocolRegistry E
  register name engine r = record r { protocols = insert name engine r.protocols }

  abbrev pub found_engine : String → Option E → Outcome E
  found_engine name (some e) = ok e
  found_engine name none = err (message (◌+++◌ "protocol " (◌+++◌ name " not found")))

  unfoldable pub get_engine : String → ProtocolRegistry E → Outcome E
  get_engine name r = found_engine name (lookup name r.protocols)

  unfoldable pub set_default : String → ProtocolRegistry E → ProtocolRegistry E
  set_default name r = record r { default_protocol = name }

  unfoldable pub get_default : ProtocolRegistry E → Outcome E
  unfolding get_engine
  get_default r =
      if str_eq r.default_protocol ""
      then err (message "no default protocol set")
      else get_engine r.default_protocol r

  names : Dict E → List String
  names [] = []
  names ((name, _) ∷ rest) = name ∷ names rest

  -- In Go in any order; here in the order of registration.
  unfoldable pub list_protocols : ProtocolRegistry E → List String
  unfolding names
  list_protocols r = names r.protocols

  -- The entry whose name is `strings.ToLower(name)`.
  unfoldable pub lookup_lower : String → Dict E → Option E
  lookup_lower name [] = none
  lookup_lower name ((p, e) ∷ rest) = if lower_eq name p then some e else lookup_lower name rest

  -- The engine that was registered last under a name is the one that Get finds, and every other
  -- name keeps its engine; and it is the default engine once its name, if not empty, is the
  -- default.
  pub get-register :
      (name other : String) (e : E) (r : ProtocolRegistry E)
      → (get_engine name (register name e r) ≡ ok e)
        × (str_eq name other ≡ false → get_engine other (register name e r) ≡ get_engine other r)
        × (str_eq name "" ≡ false → get_default (set_default name (register name e r)) ≡ ok e)
  unfolding get_engine register get_default set_default
  get-register name other e r = (
    ground (arith, lookup-insert name name e r.protocols, str_eq_self name),
    λ differs. ground (arith, lookup-insert name other e r.protocols),
    λ named. ground (arith, lookup-insert name name e r.protocols, str_eq_self name),
  )
