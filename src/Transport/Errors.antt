-- ===== src/Transport/Errors.antt =====
-- llm/neterr.go: transport errors and their categories. A Go error is what `errors.Is` and
-- `errors.As` find in its chain, and its own text.
use azoth.Base.{
  ◌≡◌, ◌≢◌, ◌↔◌, ◌⊎◌, inl, inr, refl, Bool, true, false, ◌||◌, Option, none, some, [], ◌++◌, arith,
  if◌then◌else◌, is_empty, Bool-cases,
}
use azoth.Base.Text.{Text, codes}

-- The `syscall.Errno` values that the code names; any other is `other_errno`.
pub data Errno : Type 0 where
  conn_refused host_unreach net_unreach conn_reset other_errno : Errno

pub record GoError : Type 0 where
  pub message : Text
  pub canceled : Bool
  pub deadline_exceeded : Bool
  -- the name in a `*net.DNSError`
  pub dns : Option Text
  -- a `*tls.CertificateVerificationError`
  pub tls : Bool
  pub errno : Option Errno
  pub eof : Bool
  pub unexpected_eof : Bool
  -- a `net.Error`, and a `*url.Error`: what its `Timeout()` answers
  pub net_timeout : Option Bool
  pub url_timeout : Option Bool

abbrev pub is_true : Option Bool → Bool
is_true none = false
is_true (some b) = b

-- The part of `ClassifyTransportError` from the bare EOF on.
unfoldable pub classify_late : GoError → Text
classify_late e =
    if e.eof || e.unexpected_eof
    then codes "connection closed"
    else if is_true e.net_timeout
    then codes "timed out"
    else if is_true e.url_timeout
    then codes "timed out"
    else []

unfoldable pub classify_errno : Option Errno → GoError → Text
unfolding classify_late
classify_errno (some conn_refused) e = codes "connection refused"
classify_errno (some host_unreach) e = codes "host unreachable"
classify_errno (some net_unreach) e = codes "network unreachable"
classify_errno (some conn_reset) e = codes "connection reset"
classify_errno (some other_errno) e = classify_late e
classify_errno none e = classify_late e

unfoldable pub classify_dns : Option Text → GoError → Text
unfolding classify_errno
classify_dns (some name) e = codes "no such host (" ++ (name ++ codes ")")
classify_dns none e =
    if e.tls then codes "TLS certificate verification failed" else classify_errno e.errno e

unfoldable pub classify_transport_error : GoError → Text
unfolding classify_dns
classify_transport_error e = classify_dns e.dns e

-- What `FriendlyHTTPError` returns for an error.
pub data Friendly : Type 0 where
  -- the error itself
  plain : GoError → Friendly
  -- `fmt.Errorf("send request: %w", err)`
  wrapped : GoError → Friendly
  -- a `*ConnectError`
  connect : Text → Text → Text → GoError → Friendly

unfoldable pub friendly_http_error : Text → Text → GoError → Friendly
friendly_http_error endpoint hint err =
    if err.canceled || err.deadline_exceeded
    then plain err
    else (let cat = classify_transport_error err in
        if is_empty cat then wrapped err else connect endpoint cat hint err)

-- `errors.Unwrap` down to the cause.
abbrev pub cause : Friendly → GoError
cause (plain e) = e
cause (wrapped e) = e
cause (connect endpoint cat hint e) = e

-- The text of a `*ConnectError`.
unfoldable pub connect_error_text : Text → Text → Text → Text
connect_error_text endpoint category hint =
    let msg =
      codes "couldn't reach the chat endpoint at "
      ++ (endpoint
          ++ (codes ": "
              ++ (category ++ codes "\n  is the server running and listening at that address?"))) in
    if is_empty hint then msg else msg ++ (codes "\n" ++ hint)

-- The kinds of failure that count as transport errors.
abbrev pub IsTransport : GoError → Type 0
IsTransport e =
    (e.dns ≢ none)
    ⊎ (e.tls ≡ true)
    ⊎ ((e.errno ≢ none) × (e.errno ≢ some other_errno))
    ⊎ (e.eof ≡ true)
    ⊎ (e.unexpected_eof ≡ true)
    ⊎ (e.net_timeout ≡ some true)
    ⊎ (e.url_timeout ≡ some true)

classify_late_sound : (e : GoError) → is_empty (classify_late e) ≡ false → IsTransport e
unfolding classify_late
classify_late_sound e h = ground arith

classify_errno_sound :
    (o : Option Errno) (e : GoError)
    → e.errno ≡ o
    → is_empty (classify_errno o e) ≡ false
    → IsTransport e
unfolding classify_errno
classify_errno_sound (some other_errno) e p h = classify_late_sound e h
classify_errno_sound none e p h = classify_late_sound e h
classify_errno_sound (some x) e p h = inr (inr (inl (ground arith)))

classify_dns_sound :
    (o : Option Text) (e : GoError)
    → e.dns ≡ o
    → is_empty (classify_dns o e) ≡ false
    → IsTransport e
unfolding classify_dns
classify_dns_sound (some name) e p h = inl (λ q. cc)
classify_dns_sound none e p h = elim (Bool-cases e.tls) [
  | inl t ↦ inr (inl t)
  | inr t ↦ classify_errno_sound e.errno e refl (ground arith)
]

classify_transport_error_complete :
    (e : GoError) → IsTransport e → is_empty (classify_transport_error e) ≡ false
unfolding classify_transport_error
classify_transport_error_complete e h = ground arith

-- An error is given a category exactly when it is one of the known transport failures: name lookup,
-- certificate, one of the four socket errors, a closed connection, or a timeout.
pub classify_transport_error_iff :
    (e : GoError) → (is_empty (classify_transport_error e) ≡ false) ↔ IsTransport e
unfolding classify_transport_error
classify_transport_error_iff e =
    (classify_dns_sound e.dns e refl, classify_transport_error_complete e)

-- `FriendlyHTTPError` never loses the error: the cause is kept on every branch, and a cancelled or
-- expired context is returned as it is.
pub friendly_http_error-cause :
    (endpoint hint : Text) (err : GoError)
    → (cause (friendly_http_error endpoint hint err) ≡ err)
      × ((err.canceled || err.deadline_exceeded) ≡ true
          → friendly_http_error endpoint hint err ≡ plain err)
unfolding friendly_http_error
friendly_http_error-cause endpoint hint err = (ground arith, λ h. rw h refl)
