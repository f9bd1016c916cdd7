-- ===== src/Ipc.antt =====
-- ipc/ipc.go: length-prefixed frames. JSON is a parameter; a reader is the list of the bytes that arrive
-- before the end of the stream, and a writer is a state with the writer's own `Write`.
pub mod Frames
mod Tests
use azoth.Base.{
  ℕ, ◌+◌, ◌*◌, ◌/◌, ◌%◌, ◌^◌, Bool, Option, none, some, List, [], ◌∷◌, ◌⊎◌, inl, inr, leb, ltb,
  ◌==◌, ◌||◌, length, take, drop, if◌then◌else◌, is_empty,
}
use azoth.Base.Text.{Text}

abbrev pub max_message : ℕ
max_message = 8388608

pub record Envelope : Type 0 where
  pub kind : Text
  -- empty where there is none
  pub body : Text

pub data IpcError (X : Type 0) : Type 0 where
  marshal_body : Text → X → IpcError X
  marshal_envelope : X → IpcError X
  too_large : ℕ → IpcError X
  write_failed : X → IpcError X
  end_of_file : IpcError X
  unexpected_eof : IpcError X
  bad_length : ℕ → IpcError X
  short_frame : IpcError X → IpcError X
  bad_envelope : X → IpcError X

module _ {X B : Type 0} (encode : B → X ⊎ Text) where
  abbrev pub packed : Text → X ⊎ Text → IpcError X ⊎ Envelope
  packed kind (inl e) = inl (marshal_body kind e)
  packed kind (inr raw) = inr (record { kind = kind; body = raw })

  unfoldable pub pack : Text → Option B → IpcError X ⊎ Envelope
  pack kind none = inr (record { kind = kind; body = [] })
  pack kind (some b) = packed kind (encode b)

-- `binary.BigEndian.PutUint32` of `uint32(n)`
unfoldable pub put_uint32 : ℕ → Text
put_uint32 n = (n / 16777216 % 256) ∷ (n / 65536 % 256) ∷ (n / 256 % 256) ∷ (n % 256) ∷ []

-- `binary.BigEndian.Uint32`; a prefix has four bytes.
unfoldable pub uint32 : Text → ℕ
uint32 (a ∷ b ∷ c ∷ d ∷ _) = a * 16777216 + b * 65536 + c * 256 + d
uint32 _ = 0

module _ {X S : Type 0} (write_bytes : S → Text → S × Option X) where
  abbrev pub failure_of : S × Option X → S × Option (IpcError X)
  failure_of (s, none) = (s, none)
  failure_of (s, some e) = (s, some (write_failed e))

  abbrev pub send_payload : Text → S × Option X → S × Option (IpcError X)
  send_payload payload (s, some e) = (s, some (write_failed e))
  send_payload payload (s, none) = failure_of (write_bytes s payload)

  abbrev pub write_payload : S → X ⊎ Text → S × Option (IpcError X)
  write_payload s (inl e) = (s, some (marshal_envelope e))
  write_payload s (inr payload) =
      if ltb max_message (length payload)
      then (s, some (too_large (length payload)))
      else send_payload payload (write_bytes s (put_uint32 (length payload)))

  unfoldable pub write : (Envelope → X ⊎ Text) → S → Envelope → S × Option (IpcError X)
  unfolding put_uint32
  write marshal s e = write_payload s (marshal e)

module _ {X : Type 0} where
  -- `io.ReadFull` of `n` bytes, with the bytes behind them.
  unfoldable pub read_full : ℕ → Text → (IpcError X ⊎ Text) × Text
  read_full n s =
      if leb n (length s)
      then (inr (take n s), drop n s)
      else (inl (if is_empty s then end_of_file else unexpected_eof), [])

module _ {X : Type 0} (unmarshal : Text → X ⊎ Envelope) where
  abbrev pub decoded : X ⊎ Envelope → IpcError X ⊎ Envelope
  decoded (inl e) = inl (bad_envelope e)
  decoded (inr e) = inr e

  abbrev pub open_payload : (IpcError X ⊎ Text) × Text → (IpcError X ⊎ Envelope) × Text
  open_payload (inl e, rest) = (inl (short_frame e), rest)
  open_payload (inr payload, rest) = (decoded (unmarshal payload), rest)

  abbrev pub after_prefix : (IpcError X ⊎ Text) × Text → (IpcError X ⊎ Envelope) × Text
  after_prefix (inl e, rest) = (inl e, rest)
  after_prefix (inr prefix, rest) =
      let n = uint32 prefix in
      if n == 0 || ltb max_message n
      then (inl (bad_length n), rest)
      else open_payload (read_full n rest)

  unfoldable pub read : Text → (IpcError X ⊎ Envelope) × Text
  unfolding read_full uint32
  read s = after_prefix (read_full 4 s)
