-- ===== src/Node/Consul.antt =====
-- internal/mpc/discovery/consul.go and service.go: what is registered in Consul, and what is made of
-- its answers. Consul itself is a parameter. The numbers in the text of an error are left out.
use go_mpc_wallet.Base.{
  ℕ, String, Option, none, some, List, [], ◌∷◌, map, length, take, ltb, ◌==◌, if◌then◌else◌, str_eq,
  ◌+++◌,
}
use Prim.Native.Char.{code}
use go_mpc_wallet.Storage.World.{Redis, M, pure, fail, message, wrapping, ◌>>=◌}
use go_mpc_wallet.Node.Types.{ServiceInfo, AgentService}

-- `Health().ServiceMultipleTags(name, tags, true, nil)`.
pub record Catalog (R : Redis) : Type 0 where
  pub healthy_services : String → List String → M R (List AgentService)

-- `strings.HasPrefix` and `strings.TrimPrefix` in one: the rest, if the text starts with the prefix.
unfoldable pub trim_prefix : String → String → Option String
trim_prefix String.[] s = some s
trim_prefix (String.◌∷◌ c p) String.[] = none
trim_prefix (String.◌∷◌ c p) (String.◌∷◌ d s) =
    let rest = trim_prefix p s in if code c == code d then rest else none

-- The rest of a tag with the prefix, if it is not empty; else what later tags give.
abbrev pub rest_or : Option String → String → String
rest_or none later = later
rest_or (some rest) later = if str_eq rest "" then later else rest

unfoldable pub extract_node_type : List String → String
extract_node_type [] = ""
extract_node_type (tag ∷ tags) = rest_or (trim_prefix "node-type:" tag) (extract_node_type tags)

abbrev pub described_service : AgentService → ServiceInfo
described_service s = record {
  id = s.id;
  name = s.service;
  address = s.address;
  port = s.port;
  tags = s.tags;
  meta = s.meta;
  node_type = extract_node_type s.tags;
}

-- What RegisterNode gives to Consul.
abbrev pub registration : String → String → String → ℕ → ServiceInfo
registration node_id node_type address port = record {
  id = ◌+++◌ "mpc-" (◌+++◌ node_type (◌+++◌ "-" node_id));
  name = ◌+++◌ "mpc-" node_type;
  address = address;
  port = port;
  tags = ◌+++◌ "node-type:" node_type ∷ ◌+++◌ "node-id:" node_id ∷ "protocol:v1" ∷ [];
  meta = [];
  node_type = node_type;
}

-- The loop over the tags of ExtractNodeID.
unfoldable pub tagged_id : List String → Option String
tagged_id [] = none
tagged_id (tag ∷ tags) = elim (trim_prefix "node-id:" tag) [
  | some id ↦ some id
  | none ↦ tagged_id tags
]

-- The part after the loop: the identifier of the service.
abbrev pub named_id : String → String
named_id id = elim (trim_prefix "mpc-participant-" id) [
  | some rest ↦ rest
  | none ↦ elim (trim_prefix "mpc-coordinator-" id) [ some rest ↦ rest | none ↦ "" ]
]

unfoldable pub extract_node_id : ServiceInfo → String
extract_node_id svc = elim (tagged_id svc.tags) [ some id ↦ id | none ↦ named_id svc.id ]

-- The result of DiscoverParticipants. The services that it returns beside the error are left out.
abbrev pub enough : {R : Redis} → ℕ → List ServiceInfo → M R (List ServiceInfo)
enough count services =
    if ltb (length services) count
    then fail (message "insufficient participants")
    else pure (if ltb count (length services) then take count services else services)

abbrev first_service : {R : Redis} → List ServiceInfo → M R ServiceInfo
first_service [] = fail (message "no coordinator found")
first_service (s ∷ _) = pure s

module _ {R : Redis} (c : Catalog R) where
  unfoldable pub discover : String → List String → M R (List ServiceInfo)
  discover name tags = do
    services ← wrapping (◌+++◌ "failed to discover services " name) (c.healthy_services name tags)
    pure (map described_service services)

  unfoldable pub discover_participants : ℕ → M R (List ServiceInfo)
  discover_participants count =
      discover "mpc-participant" ("node-type:participant" ∷ []) >>= enough count

  unfoldable pub discover_coordinator : M R ServiceInfo
  discover_coordinator = discover "mpc-coordinator" ("node-type:coordinator" ∷ []) >>= first_service
