-- ===== src/Ipc/Frames.antt =====
-- Frames that are written one behind the other are read as the envelopes that were sent.
use mathlib.Core.List.{append_assoc, append-nil}
use azoth.Base.{
  ℕ, zero, suc, All, ◌≡◌, ◌≤◌, ◌<◌, refl, sym, ap, ◌∙◌, true, false, Option, none, some, List, [],
  ◌∷◌, ◌++◌, ◌⊎◌, inl, inr, arith, leb, ltb, ◌==◌, ◌||◌, length, length-append, take-length,
  drop-length, if_true, if_false,
}
use azoth.Base.Text.{Text}
use azoth.Ipc.{
  max_message, Envelope, IpcError, put_uint32, uint32, write_payload, write, read_full, decoded,
  open_payload, after_prefix, read,
}

-- A writer that takes all bytes.
abbrev pub append_bytes : {X : Type 0} → Text → Text → Text × Option X
append_bytes s t = (s ++ t, none)

abbrev pub frame : Text → Text
frame payload = put_uint32 (length payload) ++ payload

uint32-put_uint32 : (n : ℕ) → n < 4294967296 → uint32 (put_uint32 n) ≡ n
unfolding uint32 put_uint32
uint32-put_uint32 n h = omega (arith, h)

read_full-append :
    {X : Type 0} (s rest : Text) → read_full {X = X} (length s) (s ++ rest) ≡ (inr s, rest)
unfolding read_full
read_full-append s rest =
    let enough : leb (length s) (length (s ++ rest)) ≡ true =
      rw (length-append s rest) (ground arith) in
    if_true _ _ enough ∙ rw (take-length s rest, drop-length s rest) refl

read_full-put_uint32 :
    {X : Type 0} (n : ℕ) (s : Text)
    → read_full {X = X} 4 (put_uint32 n ++ s) ≡ (inr (put_uint32 n), s)
unfolding put_uint32
read_full-put_uint32 n s = read_full-append (put_uint32 n) s

-- An envelope whose JSON fits a frame and is decoded to the same envelope, which holds of a body that
-- the encoder leaves as it is: it compacts and escapes any other.
pub record IsSendable {X : Type 0} (marshal : Envelope → X ⊎ Text) (unmarshal : Text → X ⊎ Envelope)
    (e : Envelope) : Type 0 where
  pub payload : Text
  pub marshalled : marshal e ≡ inr payload
  pub unmarshalled : unmarshal payload ≡ inr e
  pub not_empty : 0 < length payload
  pub fits : length payload ≤ max_message

module _ {X : Type 0} (marshal : Envelope → X ⊎ Text) (unmarshal : Text → X ⊎ Envelope) where
  open_payload-append :
      (payload rest : Text)
      → open_payload unmarshal (read_full (length payload) (payload ++ rest))
        ≡ (decoded unmarshal (unmarshal payload), rest)
  open_payload-append payload rest = ap (open_payload unmarshal) (read_full-append payload rest)

  read-frame :
      (payload rest : Text)
      → 0 < length payload
      → length payload ≤ max_message
      → read unmarshal (frame payload ++ rest) ≡ (decoded unmarshal (unmarshal payload), rest)
  unfolding read
  read-frame payload rest h g =
      let n = length payload in
      let good : (n == 0 || ltb max_message n) ≡ false = ground (arith, h, g) in
      ap (λ s. after_prefix unmarshal (read_full 4 s)) (append_assoc (put_uint32 n) payload rest)
      ∙ ap (after_prefix unmarshal) (read_full-put_uint32 n (payload ++ rest))
      ∙ rw (uint32-put_uint32 n (omega (arith, g))) (if_false _ _ good)
      ∙ open_payload-append payload rest

  write-frame :
      (s : Text) (e : Envelope) (d : IsSendable marshal unmarshal e)
      → write append_bytes marshal s e ≡ (s ++ frame d.payload, none)
  unfolding write
  write-frame s e d =
      let n = length d.payload in
      let small : ltb max_message n ≡ false = let g = d.fits in ground (arith, g) in
      ap (write_payload append_bytes s) d.marshalled
      ∙ if_false _ _ small
      ∙ ap (λ t. (t, none)) (append_assoc s (put_uint32 n) d.payload)

  abbrev pub carry_on :
      Text → Option (IpcError X) → Text × Option (IpcError X) → Text × Option (IpcError X)
  carry_on s (some err) r = (s, some err)
  carry_on s none r = r

  -- Envelopes that are written one behind the other, up to the first error.
  abbrev pub write_all : Text → List Envelope → Text × Option (IpcError X)
  write_all s [] = (s, none)
  write_all s (e ∷ es) =
      let (s', err) = write append_bytes marshal s e in
      let rest = write_all s' es in carry_on s' err rest

  abbrev pub and_rest :
      (IpcError X ⊎ Envelope) × Text
      → (IpcError X ⊎ List Envelope) × Text
      → (IpcError X ⊎ List Envelope) × Text
  and_rest (inl err, s) r = (inl err, s)
  and_rest (inr e, s) (inl err, t) = (inl err, t)
  and_rest (inr e, s) (inr es, t) = (inr (e ∷ es), t)

  -- A number of envelopes that are read one behind the other, up to the first error.
  abbrev pub read_all : ℕ → Text → (IpcError X ⊎ List Envelope) × Text
  read_all zero s = (inr [], s)
  read_all (suc n) s = let r = read unmarshal s in let rest = read_all n r.1 in and_rest r rest

  -- For envelopes whose JSON is not empty, is at most 8 MiB long, and is decoded to the very envelope
  -- again, and a writer that takes all bytes: they are written one behind the other without an error,
  -- and reading as many envelopes from what was written gives them back in order and leaves the bytes
  -- that follow.
  pub read_all-write_all :
      (es : List Envelope) (s rest : Text)
      → All (IsSendable marshal unmarshal) es
      → (bytes : Text) × (write_all s es ≡ (s ++ bytes, none))
        × (read_all (length es) (bytes ++ rest) ≡ (inr es, rest))
  read_all-write_all [] s rest d = ([], ap (λ t. (t, none)) (sym (append-nil s)), refl)
  read_all-write_all (e ∷ es) s rest (d, ds) =
      let head = frame d.payload in
      let (bytes, sent, taken) = read_all-write_all es (s ++ head) rest ds in
      let got : read unmarshal (head ++ (bytes ++ rest)) ≡ (inr e, bytes ++ rest) =
        read-frame d.payload (bytes ++ rest) d.not_empty d.fits
        ∙ ap (λ r. (decoded unmarshal r, bytes ++ rest)) d.unmarshalled in
      (
        head ++ bytes,
        rw (write-frame s e d) (sent ∙ ap (λ t. (t, none)) (append_assoc s head bytes)),
        rw (append_assoc head bytes rest, got, taken) refl,
      )
