-- ===== src/Node/Naming.antt =====
-- discovery/service.go: what RegisterNode writes into Consul, and ExtractNodeID reads.
use go_mpc_wallet.Base.{
  ℕ, ◌≡◌, ◌≢◌, refl, String, none, some, arith, eq_iff, ◌+++◌, ◌==◌, true, false, Bool,
  if◌then◌else◌, ap,
}
use text.Mathlib.TextLemmas.{nil-append, cons-append}
use Prim.Native.Char.{code}
use go_mpc_wallet.Node.Consul.{
  trim_prefix, extract_node_type, tagged_id, extract_node_id, registration,
}

trim_prefix-append : (p s : String) → trim_prefix p (◌+++◌ p s) ≡ some s
unfolding trim_prefix
trim_prefix-append String.[] s = ap some (nil-append s)
trim_prefix-append (String.◌∷◌ c p) s = ground (arith, cons-append c p s, trim_prefix-append p s)

-- Two texts of which neither starts with the other.
unfoldable clash : String → String → Bool
clash String.[] q = false
clash (String.◌∷◌ c p) String.[] = false
clash (String.◌∷◌ c p) (String.◌∷◌ d q) =
    let rest = clash p q in if code c == code d then rest else true

trim_prefix-clash : (p q t : String) → clash p q ≡ true → trim_prefix p (◌+++◌ q t) ≡ none
unfolding trim_prefix clash
trim_prefix-clash String.[] q t h = ground arith
trim_prefix-clash (String.◌∷◌ c p) String.[] t h = ground arith
trim_prefix-clash (String.◌∷◌ c p) (String.◌∷◌ d q) t h =
    ground (arith, cons-append d q t, trim_prefix-clash p q t)

node_id_tag : (t : String) → trim_prefix "node-id:" (◌+++◌ "node-type:" t) ≡ none
unfolding clash
node_id_tag t = trim_prefix-clash "node-id:" "node-type:" t refl

-- From the registration of a node in Consul, ExtractNodeID reads the node's identifier back, and
-- extractNodeType its type, if the type is not empty.
pub extract_node_id-registration :
    (id node_type address : String) (port : ℕ)
    → node_type ≢ ""
    → (extract_node_id (registration id node_type address port) ≡ id)
      × (extract_node_type (registration id node_type address port).tags ≡ node_type)
unfolding extract_node_id tagged_id extract_node_type
extract_node_id-registration id node_type address port typed = ground (
  arith,
  trim_prefix-append "node-id:" id,
  trim_prefix-append "node-type:" node_type,
  node_id_tag node_type,
  eq_iff node_type "",
)
