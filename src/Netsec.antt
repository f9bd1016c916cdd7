-- ===== src/Netsec.antt =====
-- netsec/netsec.go and netsec/dialer.go: the address denylist and the dialer that enforces it. The
-- methods of Go's `net.IP` that the source calls are written out.
pub mod Blocks
pub mod Dial
mod Tests
use azoth.Base.{
  ℕ, zero, suc, ◌+◌, ◌/◌, ◌≡◌, refl, ◌⊎◌, inl, inr, Bool, true, false, not, ◌&&◌, ◌||◌, Option,
  none, some, List, [], ◌∷◌, arith, ◌==◌, ltb, leb, if◌then◌else◌, length, take, drop, replicate,
}
use azoth.Base.Int.{ℤ, pos, ltb_ℤ}
use azoth.Base.Text.{Text, text_eq}

-- A `net.IP`: nil, or its bytes.
pub data Ip : Type 0 where
  nil_ip : Ip
  ip_bytes : List ℕ → Ip

abbrev pub bytes_of : Ip → List ℕ
bytes_of nil_ip = []
bytes_of (ip_bytes b) = b

abbrev pub byte : List ℕ → ℕ → ℕ
byte [] i = 0
byte (x ∷ xs) zero = x
byte (x ∷ xs) (suc i) = byte xs i

-- The twelve bytes in front of an IPv4 address in its IPv6 form.
abbrev pub mapped_prefix : List ℕ
mapped_prefix = 0 ∷ 0 ∷ 0 ∷ 0 ∷ 0 ∷ 0 ∷ 0 ∷ 0 ∷ 0 ∷ 0 ∷ 255 ∷ 255 ∷ []

-- `To4`.
abbrev pub to4 : List ℕ → Option (List ℕ)
unfolding text_eq
to4 b =
    if length b == 4
    then some b
    else if length b == 16 && text_eq (take 12 b) mapped_prefix
    then some (drop 12 b)
    else none

abbrev pub ipv6_loopback : List ℕ
ipv6_loopback = 0 ∷ 0 ∷ 0 ∷ 0 ∷ 0 ∷ 0 ∷ 0 ∷ 0 ∷ 0 ∷ 0 ∷ 0 ∷ 0 ∷ 0 ∷ 0 ∷ 0 ∷ 1 ∷ []

abbrev pub ipv6_unspecified : List ℕ
ipv6_unspecified = 0 ∷ 0 ∷ 0 ∷ 0 ∷ 0 ∷ 0 ∷ 0 ∷ 0 ∷ 0 ∷ 0 ∷ 0 ∷ 0 ∷ 0 ∷ 0 ∷ 0 ∷ 0 ∷ []

-- The five classes of `net.IP` for an address with an IPv4 form.
unfoldable pub is_class_v4 : List ℕ → Bool
is_class_v4 v =
    byte v 0 == 127
    || byte v 0 == 10
    || (byte v 0 == 172 && byte v 1 / 16 == 1)
    || (byte v 0 == 192 && byte v 1 == 168)
    || (byte v 0 == 169 && byte v 1 == 254)
    || byte v 0 / 16 == 14
    || (byte v 0 == 0 && byte v 1 == 0 && byte v 2 == 0 && byte v 3 == 0)

-- They for an address without one.
unfoldable pub is_class_v6 : List ℕ → Bool
unfolding text_eq
is_class_v6 b =
    text_eq b ipv6_loopback
    || (length b == 16 && byte b 0 / 2 == 126)
    || (length b == 16 && byte b 0 == 254 && byte b 1 / 64 == 2)
    || (length b == 16 && byte b 0 == 255)
    || text_eq b ipv6_unspecified

-- CGNAT, "this network" and broadcast.
unfoldable pub is_special_v4 : List ℕ → Bool
is_special_v4 v =
    (byte v 0 == 100 && leb 64 (byte v 1) && leb (byte v 1) 127)
    || byte v 0 == 0
    || (byte v 0 == 255 && byte v 1 == 255 && byte v 2 == 255 && byte v 3 == 255)

abbrev pub is_denied_form : Option (List ℕ) → List ℕ → Bool
is_denied_form (some v) b = is_class_v4 v || is_special_v4 v
is_denied_form none b = is_class_v6 b

unfoldable pub is_denied_ip : Ip → Bool
unfolding is_class_v4 is_class_v6 is_special_v4
is_denied_ip nil_ip = true
is_denied_ip (ip_bytes b) = is_denied_form (to4 b) b

pub record Dialer : Type 0 where
  pub timeout : ℤ
  -- a nil function is `none`
  pub exempt : Option (Text → Bool)
  pub deny : Option (Ip → Bool)

abbrev pub deny_of : Dialer → Ip → Bool
deny_of d ip = elim d.deny [ some f ↦ f ip | none ↦ is_denied_ip ip ]

abbrev pub timeout_of : Dialer → ℤ
timeout_of d = if ltb_ℤ (pos 0) d.timeout then d.timeout else pos 10_000_000_000

abbrev pub is_exempt : Dialer → Text → Bool
is_exempt d addr = elim d.exempt [ some f ↦ f addr | none ↦ false ]

-- The first address that the predicate holds of.
unfoldable pub find_denied : (Ip → Bool) → List Ip → Option Ip
find_denied deny [] = none
find_denied deny (ip ∷ ips) = let rest = find_denied deny ips in if deny ip then some ip else rest

-- How `DialContext` ends.
pub data Outcome (E Conn : Type 0) : Type 0 where
  bad_target : E → Outcome E Conn
  resolve_failed : Text → E → Outcome E Conn
  no_addresses : Text → Outcome E Conn
  denied_error : Text → Ip → Outcome E Conn
  dial_failed : E → Outcome E Conn
  no_addresses_to_dial : Text → Outcome E Conn
  dialed : Conn → Outcome E Conn

-- The end of a dial, and the addresses that a connection was attempted to, in order.
pub record Dialing (E Conn : Type 0) : Type 0 where
  pub attempts : List Ip
  pub outcome : Outcome E Conn

-- The library's parts: the split of a target in host and port, the resolver, and the dial of one
-- address under a timeout.
module _ {E Conn : Type 0} (split_host_port : Text → E ⊎ (Text × Text))
    (lookup_ip : Text → E ⊎ List Ip) (dial : ℤ → Ip → Text → E ⊎ Conn) where
  abbrev pub gave_up : Text → Option E → Outcome E Conn
  gave_up host none = no_addresses_to_dial host
  gave_up host (some e) = dial_failed e

  abbrev pub tried : Ip → Dialing E Conn → Dialing E Conn
  tried ip r = record r { attempts = ip ∷ r.attempts }

  -- The loop over the surviving addresses; the option is `lastErr`.
  -- The dial of one address; `rest` goes on with the error as `lastErr`.
  abbrev pub dial_one : Ip → E ⊎ Conn → (E → Dialing E Conn) → Dialing E Conn
  dial_one ip (inr conn) rest = record { attempts = ip ∷ []; outcome = dialed conn }
  dial_one ip (inl e) rest = tried ip (rest e)

  -- The loop over the surviving addresses; the option is `lastErr`.
  unfoldable pub dial_each : ℤ → Text → Text → List Ip → Option E → Dialing E Conn
  dial_each t host port [] last = record { attempts = []; outcome = gave_up host last }
  dial_each t host port (ip ∷ ips) last =
      dial_one ip (dial t ip port) (λ e. dial_each t host port ips (some e))

  abbrev pub refuse : Outcome E Conn → Dialing E Conn
  refuse o = record { attempts = []; outcome = o }

  abbrev pub guarded : Option Ip → Text → Dialing E Conn → Dialing E Conn
  guarded (some ip) host rest = refuse (denied_error host ip)
  guarded none host rest = rest

  abbrev pub dial_addresses : Dialer → Text → Text → Text → List Ip → Dialing E Conn
  dial_addresses d addr host port [] = refuse (no_addresses host)
  dial_addresses d addr host port (ip ∷ ips) =
      let rest = dial_each (timeout_of d) host port (ip ∷ ips) none in
      if is_exempt d addr then rest else guarded (find_denied (deny_of d) (ip ∷ ips)) host rest

  abbrev pub resolved : Dialer → Text → Text → Text → E ⊎ List Ip → Dialing E Conn
  resolved d addr host port (inl e) = refuse (resolve_failed host e)
  resolved d addr host port (inr ips) = dial_addresses d addr host port ips

  abbrev pub targeted : Dialer → Text → E ⊎ (Text × Text) → Dialing E Conn
  targeted d addr (inl e) = refuse (bad_target e)
  targeted d addr (inr (host, port)) = resolved d addr host port (lookup_ip host)

  unfoldable pub dial_context : Dialer → Text → Dialing E Conn
  unfolding find_denied dial_each
  dial_context d addr = targeted d addr (split_host_port addr)
