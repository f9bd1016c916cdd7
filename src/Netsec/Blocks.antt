-- ===== src/Netsec/Blocks.antt =====
-- The denylist as blocks of addresses.
use azoth.Base.{
  ℕ, zero, suc, ◌+◌, ◌-◌, ◌*◌, ◌/◌, ◌^◌, ◌≤◌, ◌<◌, ◌≡◌, ◌↔◌, refl, ◌⊎◌, inl, inr, Bool, true, false,
  ◌&&◌, ◌||◌, Option, none, some, List, [], ◌∷◌, ◌++◌, arith, ◌==◌, leb, if◌then◌else◌,
}
use azoth.Netsec.{ip_bytes, mapped_prefix, is_class_v4, is_special_v4, is_denied_ip}

-- a.b.c.d as a number.
abbrev pub value : ℕ → ℕ → ℕ → ℕ → ℕ
value a b c d = a * 16_777_216 + b * 65_536 + c * 256 + d

-- The block `base/32-bits`: the addresses that share all but the low bits with the base.
abbrev pub InBlock : ℕ → ℕ → ℕ → Type 0
InBlock base size v = (base ≤ v) × (v < base + size)

-- The blocks that are refused: 0/8, 10/8, 100.64/10, 127/8, 169.254/16, 172.16/12, 192.168/16, 224/4
-- and the broadcast address.
abbrev pub InDeniedBlock : ℕ → Type 0
InDeniedBlock v =
    InBlock (value 0 0 0 0) 16_777_216 v
    ⊎ InBlock (value 10 0 0 0) 16_777_216 v
    ⊎ InBlock (value 100 64 0 0) 4_194_304 v
    ⊎ InBlock (value 127 0 0 0) 16_777_216 v
    ⊎ InBlock (value 169 254 0 0) 65_536 v
    ⊎ InBlock (value 172 16 0 0) 1_048_576 v
    ⊎ InBlock (value 192 168 0 0) 65_536 v
    ⊎ InBlock (value 224 0 0 0) 268_435_456 v
    ⊎ (v ≡ value 255 255 255 255)

-- An IPv4 address, of four bytes, is refused exactly when it lies in one of the nine blocks.
pub is_denied_ip-blocks :
    (a b c d : ℕ)
    → a < 256
    → b < 256
    → c < 256
    → d < 256
    → (is_denied_ip (ip_bytes (a ∷ b ∷ c ∷ d ∷ [])) ≡ true) ↔ InDeniedBlock (value a b c d)
unfolding is_denied_ip is_class_v4 is_special_v4
is_denied_ip-blocks a b c d ha hb hc hd = ground arith

-- The IPv6 form of an IPv4 address is refused exactly when the address itself is.
pub is_denied_ip-mapped :
    (a b c d : ℕ)
    → is_denied_ip (ip_bytes (mapped_prefix ++ (a ∷ b ∷ c ∷ d ∷ [])))
      ≡ is_denied_ip (ip_bytes (a ∷ b ∷ c ∷ d ∷ []))
unfolding is_denied_ip azoth.Base.Text.text_eq
is_denied_ip-mapped a b c d = refl
