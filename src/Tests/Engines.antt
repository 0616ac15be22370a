-- ===== src/Tests/Engines.antt =====
-- Examples for the protocol engines.
use go_mpc_wallet.Base.{
  ℕ, ◌*◌, ◌+◌, ◌≤◌, ◌<◌, ◌≡◌, ◌≢◌, ◌↔◌, refl, inl, String, true, some, none, List, [], ◌∷◌, length,
  arith, lookup, insert, Option, map, ◌+++◌,
}
use Prim.Native.Nat.{◌^◌}
use go_mpc_wallet.Base.Sorting.{sort, place}
use go_mpc_wallet.Base.Int.{pos}
use go_mpc_wallet.Storage.World.{World, ok, err, message, Outcome, Error}
use go_mpc_wallet.Signing.Types.{Signature, PublicKey, SignRequest, SignResponse}
use go_mpc_wallet.Signing.Signer.{Engine, EngineRequest, sign}
use go_mpc_wallet.Session.Manager.{Manager}
use go_mpc_wallet.Protocol.Types.{KeyGenRequest}
use go_mpc_wallet.Protocol.Bytes.{IsBytes, set_bytes, int_bytes}
use go_mpc_wallet.Protocol.Encoding.{
  KeyShare, SaveData, SignatureData, convert_tss_key_data, convert_tss_signature, compressed_key,
  build_der_signature, padded_share, key_share, public_key_of,
}
use go_mpc_wallet.Protocol.Der.{read_der, read_integer, integer_value, build_der-value}
use go_mpc_wallet.Protocol.Widths.{convert_tss_key_data-ok, convert_tss_signature-read}
use go_mpc_wallet.Protocol.Requests.{validate_gg18, normalize_node_ids, validate_gg18-ok}
use go_mpc_wallet.Protocol.Run.{returns, fails}
use go_mpc_wallet.Protocol.Gg18.{
  Tss, Memory, generate_key_share, threshold_sign_gg18, threshold_sign_gg20, finish_generation,
  persist, save_key_record,
}
use go_mpc_wallet.Protocol.Restart.{restarted, remembering, sign-restarted, gg20-restarted}
use go_mpc_wallet.Protocol.Verify.{Curves, verify_ecdsa_signature, sign_never}
use go_mpc_wallet.Protocol.Parties.{
  Parties, party_of, IsMatched, setup_party_ids, setup_one, collect, get_party_ids,
  setup-get_party_ids, empty-IsMatched,
}
use go_mpc_wallet.Protocol.Keygen.{
  PartyManager, begin_keygen, abandon_keygen, Reach, start, later, new_manager, check_keygen,
  prepare_keygen, register_keygen, open_queue, checks, prepares, registers, opens, cleared, ready,
  registered, looping,
}
use go_mpc_wallet.Protocol.Queues.{IsSound, Reach-IsSound}
use go_mpc_wallet.Protocol.Stuck.{abandon-again}
use go_mpc_wallet.Tests.Server.{server, key_of, session_of, wallet}

abbrev saved : SaveData
saved = record { public_point = some (5, 8); xi = 300; share_number = 7 }

convert_tss_key_data-ok_example :
    (s : KeyShare) × (k : PublicKey) × (convert_tss_key_data "k" saved "a" ≡ some (ok (s, k)))
    × (s.node_id ≡ "a")
    × (length s.share ≡ 32)
    × (set_bytes 0 s.share ≡ 300)
    × (s.index < 2 ^ 63)
    × (k.bytes ≡ compressed_key 5 8)
convert_tss_key_data-ok_example =
    convert_tss_key_data-ok "k" "a" saved 5 8 refl (omega arith) (omega arith)

abbrev raw : SignatureData
raw = record { r_bytes = 200 ∷ []; s_bytes = 1 ∷ 2 ∷ [] }

convert_tss_signature-read_example :
    (sig : Signature) × (convert_tss_signature (some raw) ≡ ok sig)
    × (length sig.r ≡ 32)
    × (length sig.s ≡ 32)
    × (length sig.bytes ≡ 70)
    × IsBytes sig.bytes
    × (read_der sig.bytes ≡ some (sig.r, sig.s))
    × ((q : ℕ) × (set_bytes 0 raw.r_bytes ≡ q * 256 ^ 32 + set_bytes 0 sig.r))
    × ((q : ℕ) × (set_bytes 0 raw.s_bytes ≡ q * 256 ^ 32 + set_bytes 0 sig.s))
unfolding IsBytes
convert_tss_signature-read_example =
    convert_tss_signature-read raw (omega arith, tt) (omega arith, (omega arith, tt))

build_der-value_example : (integer_value (200 ∷ []) ≡ pos (set_bytes 0 (200 ∷ []))) ↔ (200 < 128)
unfolding read_der read_integer build_der_signature
build_der-value_example = build_der-value (200 ∷ []) (1 ∷ []) (omega arith) (200 ∷ []) (1 ∷ []) refl

abbrev request : KeyGenRequest
request = record {
  key_id = "k";
  algorithm = "ECDSA";
  curve = "secp256k1";
  threshold = 2;
  total_nodes = 3;
  node_ids = [];
}

validates : validate_gg18 request ≡ ok tt
unfolding validate_gg18
validates = refl

validate_gg18-ok_example :
    (ids : List String) × (normalize_node_ids [] 3 ≡ ok ids)
    × (2 ≤ 2)
    × (2 ≤ length ids)
    × (length ids ≡ 3)
validate_gg18-ok_example = validate_gg18-ok request validates

abbrev encoded : SaveData → Option (ℕ × ℕ) → List ℕ
encoded d none = 0 ∷ d.xi ∷ d.share_number ∷ []
encoded d (some (x, y)) = 1 ∷ d.xi ∷ d.share_number ∷ x ∷ y ∷ []

abbrev data_with : Option (ℕ × ℕ) → ℕ → ℕ → Outcome SaveData
data_with point xi n = ok (record { public_point = point; xi = xi; share_number = n })

abbrev decoded : List ℕ → Outcome SaveData
decoded (_ ∷ xi ∷ n ∷ x ∷ y ∷ _) = data_with (some (x, y)) xi n
decoded (_ ∷ xi ∷ n ∷ []) = data_with none xi n
decoded _ = err (message "unexpected EOF")

-- A store that keeps the last file, and a tss-lib whose data and signature are always the same.
abbrev tss : Tss
tss = record {
  T = List ℕ;
  execute_keygen = λ key ids threshold this t. (ok saved, t);
  execute_signing = λ session key msg ids this d options t. (ok (some raw), t);
  encode = λ d. ok (encoded d d.public_point);
  decode = decoded;
  keep_key_data = λ id this bytes t. (ok tt, bytes);
  read_key_data = λ id this t. (ok t, t);
  restart = λ t. t;
}

abbrev memory : Memory tss
memory = record { key_records = []; below = [] }

coded_point :
    (d : SaveData) (point : Option (ℕ × ℕ))
    → decoded (encoded d point) ≡ data_with point d.xi d.share_number
coded_point d none = refl
coded_point d (some (x, y)) = refl

coded : (d : SaveData) (bytes : List ℕ) → tss.encode d ≡ ok bytes → tss.decode bytes ≡ ok d
coded d bytes written = ground (arith, coded_point d d.public_point)

abbrev share_of : Option (List ℕ) → List ℕ
share_of none = []
share_of (some bytes) = bytes

generates :
    (generate_key_share {E = tss} true "a" 9 request memory).0
    ≡ returns (record {
      key_shares = ("a", key_share "k" "a" saved (share_of (padded_share 300))) ∷ [];
      public_key = public_key_of (compressed_key 5 8);
    })
unfolding generate_key_share finish_generation persist save_key_record validate_gg18
    normalize_node_ids convert_tss_key_data padded_share int_bytes
generates = refl

abbrev asked : EngineRequest
asked = record { key_id = "k"; message = 7 ∷ []; message_hex = ""; node_ids = "a" ∷ "b" ∷ [] }

abbrev after : Memory tss
after = (generate_key_share {E = tss} true "a" 9 request memory).1

sign-restarted_example :
    ((threshold_sign_gg18 true "a" "s" asked (restarted after)).0
      ≡ (threshold_sign_gg18 true "a" "s" asked (remembering after)).0)
    × ((threshold_sign_gg18 true "a" "s" asked (restarted after)).1.below
        ≡ (threshold_sign_gg18 true "a" "s" asked (remembering after)).1.below)
sign-restarted_example =
    sign-restarted {E = tss} coded (λ id this bytes t fine. refl) "a" 9 request memory generates "s"
      asked refl

gg20-restarted_example :
    ((e : Error) × ((threshold_sign_gg20 "a" "s" asked (restarted after)).0 ≡ fails e))
    × ((threshold_sign_gg20 "a" "s" asked (restarted after)).1 ≡ restarted after)
gg20-restarted_example = gg20-restarted {E = tss} "a" "s" asked after

-- Curves on which every text parses and every signature is right.
abbrev curves : Curves
curves = record {
  Parsed = List ℕ;
  Point = List ℕ;
  sum256 = λ msg. msg;
  parse_der_signature = λ b. some b;
  parse_pub_key = λ b. some b;
  check = λ sig msg key. true;
  ed25519_verify = λ key msg sig. true;
}

abbrev engine : Engine server
engine = record {
  run_protocol = λ session req w. (ok (record { bytes = 1 ∷ []; hex = "01"; r = []; s = [] }), w);
  verify_signature = verify_ecdsa_signature curves;
}

abbrev claim : SignRequest
claim = record { key_id = "k"; message = 7 ∷ []; message_hex = ""; chain_type = "ethereum" }

abbrev world : World server
world = wallet (key_of "k" "Active") (session_of "s" "pending") 30

abbrev response : SignResponse
response = record {
  signature = "01";
  key_id = "k";
  public_key = "0a0b";
  message = "07";
  chain_type = "ethereum";
  session_id = "session-u";
  signed_at = 30;
  participating_nodes = [];
}

abbrev manager : Manager
manager = record { timeout = 100 }

sign_never_example : (sign engine manager "u" claim world).0 ≢ ok response
sign_never_example =
    sign_never curves engine manager "u" claim world (inl (λ sig msg key. refl)) response

abbrev hash : String → ℕ
hash node = 1

abbrev empty : Parties
empty = record { node_to_party = []; party_to_node = [] }

setup-get_party_ids_example :
    IsMatched hash (setup_party_ids hash ("b" ∷ "a" ∷ "b" ∷ []) empty)
    × (get_party_ids hash
          (λ ps. ps)
          ("b" ∷ "a" ∷ "b" ∷ [])
          (setup_party_ids hash ("b" ∷ "a" ∷ "b" ∷ []) empty)
        ≡ ok (map (party_of hash) ("b" ∷ "a" ∷ "b" ∷ [])))
setup-get_party_ids_example =
    setup-get_party_ids hash (λ ps. ps) ("b" ∷ "a" ∷ "b" ∷ []) empty (empty-IsMatched hash)

abbrev looked : PartyManager
looked = (check_keygen "k" ("a" ∷ "b" ∷ []) "a" new_manager).1

abbrev named : PartyManager
named = (prepare_keygen hash (λ ps. ps) "k" ("a" ∷ "b" ∷ []) "a" looked).1

abbrev begun : PartyManager
begun = open_queue "k" (party_of hash "a") (register_keygen "k" (party_of hash "a") named)

idles : lookup "k" new_manager.running ≡ none
unfolding lookup
idles = refl

looks : lookup "k" looked.running ≡ some (cleared ("a" ∷ "b" ∷ []) "a")
unfolding check_keygen lookup insert
looks = refl

names : lookup "k" named.running ≡ some (ready (party_of hash "a"))
unfolding check_keygen prepare_keygen setup_party_ids setup_one get_party_ids collect lookup insert
    sort place
names = refl

enters :
    lookup "k" (register_keygen "k" (party_of hash "a") named).running
    ≡ some (registered (party_of hash "a"))
unfolding check_keygen prepare_keygen register_keygen setup_party_ids setup_one get_party_ids
    collect lookup insert sort place
enters = refl

begins_now : Reach hash (λ ps. ps) new_manager begun
begins_now =
    later
      (later
        (later (later start (checks "k" ("a" ∷ "b" ∷ []) "a" idles))
          (prepares "k" ("a" ∷ "b" ∷ []) "a" looks))
        (registers "k" (party_of hash "a") names))
      (opens "k" (party_of hash "a") enters)

-- Without a step in between, executeKeygen comes to the same state.
begins_at_once : begin_keygen hash (λ ps. ps) "k" ("a" ∷ "b" ∷ []) "a" new_manager ≡ (ok tt, begun)
unfolding begin_keygen check_keygen prepare_keygen register_keygen open_queue setup_party_ids
    setup_one get_party_ids collect lookup insert sort place
begins_at_once = refl

Reach-IsSound_example : IsSound begun
Reach-IsSound_example = Reach-IsSound hash (λ ps. ps) begins_now

runs : lookup "k" begun.running ≡ some (looping (party_of hash "a"))
unfolding check_keygen prepare_keygen register_keygen open_queue setup_party_ids setup_one
    get_party_ids collect lookup insert sort place
runs = refl

abandon-again_example :
    begin_keygen hash (λ ps. ps) "k" ("a" ∷ []) "a" (abandon_keygen "k" begun)
    ≡ (err (message (◌+++◌ "DKG instance already exists for keyID " "k")), abandon_keygen "k" begun)
abandon-again_example =
    abandon-again hash (λ ps. ps) "k" (party_of hash "a") begins_now runs start ("a" ∷ []) "a"
