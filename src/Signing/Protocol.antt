-- ===== src/Signing/Protocol.antt =====
-- signing/service.go, inferProtocol. `strings.ToLower` is read where the code uses it, in a
-- comparison with a constant of small letters and digits.
use go_mpc_wallet.Base.{
  ℕ, ◌+◌, ◌≡◌, ◌⊎◌, String, Bool, true, false, ◌||◌, ◌&&◌, leb, ◌==◌, if◌then◌else◌, str_eq, eq_iff,
  arith,
}
use Prim.Native.Char.{code}

-- The small letter of an ASCII capital, and `k` of the Kelvin sign, whose small letter is `k` too.
abbrev pub lower_code : ℕ → ℕ
lower_code c = if leb 65 c && leb c 90 then c + 32 else (if c == 8490 then 107 else c)

-- `strings.ToLower(s) == t`
unfoldable pub lower_eq : String → String → Bool
lower_eq String.[] String.[] = true
lower_eq String.[] (String.◌∷◌ d t) = false
lower_eq (String.◌∷◌ c s) String.[] = false
lower_eq (String.◌∷◌ c s) (String.◌∷◌ d t) = lower_code (code c) == code d && lower_eq s t

abbrev is_frost : String → String → Bool
is_frost algorithm curve =
    (lower_eq algorithm "eddsa" || lower_eq algorithm "schnorr")
    && (lower_eq curve "ed25519" || lower_eq curve "secp256k1")

abbrev is_ecdsa : String → String → Bool
is_ecdsa algorithm curve = lower_eq algorithm "ecdsa" && lower_eq curve "secp256k1"

unfoldable pub infer_protocol : String → String → String → String
infer_protocol algorithm curve default =
    if is_frost algorithm curve
    then "frost"
    else (if is_ecdsa algorithm curve
        then (if str_eq default "gg18" || str_eq default "gg20" then default else "gg20")
        else (if str_eq default "" then "gg20" else default))

-- One of the protocols that there is an engine for.
abbrev pub IsSupported : String → Type 0
IsSupported p = (p ≡ "gg18") ⊎ (p ≡ "gg20") ⊎ (p ≡ "frost")

-- For a key of the EdDSA or Schnorr kind on Ed25519 or secp256k1, or where the default protocol is
-- empty or one of gg18, gg20 and frost, the protocol that is inferred is one of these three.
pub infer_protocol-IsSupported :
    (algorithm curve default : String)
    → (is_frost algorithm curve ≡ true) ⊎ (default ≡ "") ⊎ IsSupported default
    → IsSupported (infer_protocol algorithm curve default)
unfolding infer_protocol
infer_protocol-IsSupported algorithm curve default known =
    ground (arith, eq_iff default "gg18", eq_iff default "gg20", eq_iff default "")
