-- ===== src/Netsec/Tests.antt =====
-- Addresses and dials, and the theorems at them.
use azoth.Base.{◌≡◌, ◌↔◌, refl, ◌⊎◌, inr, true, false, none, List, [], ◌∷◌, ◌++◌, arith, All}
use azoth.Base.Int.{ℤ, pos}
use azoth.Base.Text.{Text, codes}
use azoth.Netsec.{
  Ip, ip_bytes, mapped_prefix, is_denied_ip, Dialer, deny_of, denied_error, dial_context,
}
use azoth.Netsec.Blocks.{value, InDeniedBlock, is_denied_ip-blocks, is_denied_ip-mapped}
use azoth.Netsec.Dial.{IsAllowed, dial_context_guarded, dial_context_refuses_mixed}

abbrev metadata : Ip
metadata = ip_bytes (169 ∷ 254 ∷ 169 ∷ 254 ∷ [])

abbrev public : Ip
public = ip_bytes (93 ∷ 184 ∷ 216 ∷ 34 ∷ [])

metadata_denied : is_denied_ip metadata ≡ true
unfolding is_denied_ip
metadata_denied = refl

public_allowed : is_denied_ip public ≡ false
unfolding is_denied_ip
public_allowed = refl

is_denied_ip-blocks_example :
    (is_denied_ip (ip_bytes (169 ∷ 254 ∷ 169 ∷ 254 ∷ [])) ≡ true)
    ↔ InDeniedBlock (value 169 254 169 254)
is_denied_ip-blocks_example =
    is_denied_ip-blocks 169 254 169 254 (omega arith) (omega arith) (omega arith) (omega arith)

is_denied_ip-mapped_example :
    is_denied_ip (ip_bytes (mapped_prefix ++ (127 ∷ 0 ∷ 0 ∷ 1 ∷ [])))
    ≡ is_denied_ip (ip_bytes (127 ∷ 0 ∷ 0 ∷ 1 ∷ []))
is_denied_ip-mapped_example = is_denied_ip-mapped 127 0 0 1

abbrev split : Text → Text ⊎ (Text × Text)
split addr = inr (addr, codes "443")

-- A name with a public address and one of the metadata service.
abbrev lookup : Text → Text ⊎ List Ip
lookup host = inr (public ∷ metadata ∷ [])

abbrev dial : ℤ → Ip → Text → Text ⊎ Ip
dial t ip port = inr ip

abbrev dialer : Dialer
dialer = record { timeout = pos 0; exempt = none; deny = none }

dial_context_guarded_example :
    All (IsAllowed (deny_of dialer)) (dial_context split lookup dial dialer (codes "evil")).attempts
dial_context_guarded_example = dial_context_guarded split lookup dial dialer (codes "evil") refl

dial_context_refuses_mixed_example :
    (ip : Ip) × (deny_of dialer ip ≡ true)
    × ((dial_context split lookup dial dialer (codes "evil")).outcome
        ≡ denied_error (codes "evil") ip)
    × ((dial_context split lookup dial dialer (codes "evil")).attempts ≡ [])
dial_context_refuses_mixed_example =
    dial_context_refuses_mixed split lookup dial dialer (codes "evil") (codes "evil") (codes "443")
      (public ∷ []) metadata [] refl refl refl metadata_denied
