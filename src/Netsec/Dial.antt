-- ===== src/Netsec/Dial.antt =====
-- What a guarded dial connects to.
use azoth.Base.{
  ◌≡◌, refl, sym, ap, ◌∙◌, ◌⊎◌, inl, inr, Bool, true, false, Option, none, some, List, [], ◌∷◌,
  ◌++◌, arith, Bool-cases, if_true, if_false, All, subst,
}
use azoth.Base.Int.{ℤ}
use azoth.Base.Text.{Text}
use azoth.Netsec.{
  Ip, Dialer, deny_of, timeout_of, is_exempt, find_denied, denied_error, Dialing, dial_one,
  dial_each, refuse, guarded, dial_addresses, resolved, targeted, dial_context,
}

abbrev pub IsAllowed : (Ip → Bool) → Ip → Type 0
IsAllowed deny ip = deny ip ≡ false

find_denied-none :
    (deny : Ip → Bool) (ips : List Ip) → find_denied deny ips ≡ none → All (IsAllowed deny) ips
unfolding find_denied
find_denied-none deny [] h = tt
find_denied-none deny (ip ∷ ips) h = elim (Bool-cases (deny ip)) [
  | inl x ↦ absurd (ground arith)
  | inr x ↦ (x, find_denied-none deny ips (ground arith))
]

find_denied-append :
    (deny : Ip → Bool) (before : List Ip) (bad : Ip) (after : List Ip)
    → deny bad ≡ true
    → (ip : Ip) × (find_denied deny (before ++ bad ∷ after) ≡ some ip) × (deny ip ≡ true)
unfolding find_denied
find_denied-append deny [] bad after h = (bad, if_true _ _ h, h)
find_denied-append deny (x ∷ before) bad after h = elim (Bool-cases (deny x)) [
  | inl e ↦ (x, if_true _ _ e, e)
  | inr e ↦
      let (ip, found, d) = find_denied-append deny before bad after h in
      (ip, if_false _ _ e ∙ found, d)
]

module _ {E Conn : Type 0} (split_host_port : Text → E ⊎ (Text × Text))
    (lookup_ip : Text → E ⊎ List Ip) (dial : ℤ → Ip → Text → E ⊎ Conn) where
  dial_one-All :
      (P : Ip → Type 0) (ip : Ip) (o : E ⊎ Conn) (rest : E → Dialing E Conn)
      → P ip
      → ((e : E) → All P (rest e).attempts)
      → All P (dial_one split_host_port lookup_ip dial ip o rest).attempts
  dial_one-All P ip (inr conn) rest h t = (h, tt)
  dial_one-All P ip (inl e) rest h t = (h, t e)

  -- Nothing is dialed but the addresses of the list.
  dial_each-All :
      (P : Ip → Type 0) (t : ℤ) (host port : Text) (ips : List Ip) (last : Option E)
      → All P ips
      → All P (dial_each split_host_port lookup_ip dial t host port ips last).attempts
  unfolding dial_each
  dial_each-All P t host port [] last h = tt
  dial_each-All P t host port (ip ∷ ips) last h =
      dial_one-All P ip (dial t ip port) _ h.0 (λ e. dial_each-All P t host port ips (some e) h.1)

  guarded-All :
      (deny : Ip → Bool) (ips : List Ip) (o : Option Ip) (host : Text) (rest : Dialing E Conn)
      → find_denied deny ips ≡ o
      → (All (IsAllowed deny) ips → All (IsAllowed deny) rest.attempts)
      → All (IsAllowed deny) (guarded split_host_port lookup_ip dial o host rest).attempts
  guarded-All deny ips (some ip) host rest e h = tt
  guarded-All deny ips none host rest e h = h (find_denied-none deny ips e)

  resolved-guarded :
      (d : Dialer) (addr host port : Text) (o : E ⊎ List Ip)
      → is_exempt d addr ≡ false
      → All
          (IsAllowed (deny_of d))
          (resolved split_host_port lookup_ip dial d addr host port o).attempts
  resolved-guarded d addr host port (inl e) h = tt
  resolved-guarded d addr host port (inr []) h = tt
  resolved-guarded d addr host port (inr (ip ∷ ips)) h =
      subst (λ (r : Dialing E Conn). All (IsAllowed (deny_of d)) r.attempts) (sym (if_false _ _ h))
        (guarded-All (deny_of d) (ip ∷ ips) (find_denied (deny_of d) (ip ∷ ips)) host _ refl
          (dial_each-All (IsAllowed (deny_of d)) (timeout_of d) host port (ip ∷ ips) none))

  targeted-guarded :
      (d : Dialer) (addr : Text) (o : E ⊎ (Text × Text))
      → is_exempt d addr ≡ false
      → All (IsAllowed (deny_of d)) (targeted split_host_port lookup_ip dial d addr o).attempts
  targeted-guarded d addr (inl e) h = tt
  targeted-guarded d addr (inr (host, port)) h =
      resolved-guarded d addr host port (lookup_ip host) h

  -- For a target that is not exempt, no connection is attempted to a denied address, whatever the
  -- name resolves to.
  pub dial_context_guarded :
      (d : Dialer) (addr : Text)
      → is_exempt d addr ≡ false
      → All (IsAllowed (deny_of d)) (dial_context split_host_port lookup_ip dial d addr).attempts
  unfolding dial_context
  dial_context_guarded d addr h = targeted-guarded d addr (split_host_port addr) h

  dial_addresses-refuses :
      (d : Dialer) (addr host port : Text) (ips : List Ip) (ip : Ip)
      → is_exempt d addr ≡ false
      → find_denied (deny_of d) ips ≡ some ip
      → dial_addresses split_host_port lookup_ip dial d addr host port ips
        ≡ refuse split_host_port lookup_ip dial (denied_error host ip)
  unfolding find_denied
  dial_addresses-refuses d addr host port [] ip h e = absurd cc
  dial_addresses-refuses d addr host port (x ∷ ips) ip h e =
      if_false _ _ h
      ∙ ap
          (λ o.
            guarded split_host_port lookup_ip dial o host
              (dial_each split_host_port lookup_ip dial (timeout_of d) host port (x ∷ ips) none))
          e

  -- A target that is not exempt, and whose name resolves to a list with one denied address in it,
  -- is refused as a whole, by an error that names a denied address, before any connection is
  -- attempted.
  pub dial_context_refuses_mixed :
      (d : Dialer) (addr host port : Text) (before : List Ip) (bad : Ip) (after : List Ip)
      → is_exempt d addr ≡ false
      → split_host_port addr ≡ inr (host, port)
      → lookup_ip host ≡ inr (before ++ bad ∷ after)
      → deny_of d bad ≡ true
      → (ip : Ip) × (deny_of d ip ≡ true)
        × ((dial_context split_host_port lookup_ip dial d addr).outcome ≡ denied_error host ip)
        × ((dial_context split_host_port lookup_ip dial d addr).attempts ≡ [])
  unfolding dial_context
  dial_context_refuses_mixed d addr host port before bad after h s l denied =
      let (ip, found, dip) = find_denied-append (deny_of d) before bad after denied in
      let all : dial_context split_host_port lookup_ip dial d addr
          ≡ refuse split_host_port lookup_ip dial (denied_error host ip) =
        ap (targeted split_host_port lookup_ip dial d addr) s
        ∙ ap (resolved split_host_port lookup_ip dial d addr host port) l
        ∙ dial_addresses-refuses d addr host port (before ++ bad ∷ after) ip h found in
      (
        ip,
        dip,
        ap (λ (r : Dialing E Conn). r.outcome) all,
        ap (λ (r : Dialing E Conn). r.attempts) all,
      )
