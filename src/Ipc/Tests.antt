-- ===== src/Ipc/Tests.antt =====
-- Two envelopes on one stream.
use azoth.Base.{◌≡◌, refl, none, List, [], ◌∷◌, ◌++◌, ◌⊎◌, inl, inr, length, All, arith}
use azoth.Base.Text.{Text, codes}
use azoth.Ipc.{Envelope}
use azoth.Ipc.Frames.{IsSendable, write_all, read_all, read_all-write_all}

-- Stand-ins for JSON, which takes an envelope without a body alone.
abbrev to_json : Envelope → Text ⊎ Text
to_json e = inr (123 ∷ e.kind)

abbrev from_json : Text → Text ⊎ Envelope
from_json [] = inl (codes "no object")
from_json (c ∷ t) = inr (record { kind = t; body = [] })

abbrev envelope : Text → Envelope
envelope kind = record { kind = kind; body = [] }

abbrev envelopes : List Envelope
envelopes = envelope (codes "ping") ∷ envelope (codes "quit") ∷ []

envelopes-IsSendable : All (IsSendable to_json from_json) envelopes
envelopes-IsSendable = (
  record {
    payload = 123 ∷ codes "ping";
    marshalled = refl;
    unmarshalled = refl;
    not_empty = omega arith;
    fits = omega arith;
  },
  (
    record {
      payload = 123 ∷ codes "quit";
      marshalled = refl;
      unmarshalled = refl;
      not_empty = omega arith;
      fits = omega arith;
    },
    tt,
  ),
)

read_all-write_all_example :
    (bytes : Text) × (write_all to_json from_json [] envelopes ≡ ([] ++ bytes, none))
    × (read_all to_json from_json (length envelopes) (bytes ++ (7 ∷ [])) ≡ (inr envelopes, 7 ∷ []))
read_all-write_all_example =
    read_all-write_all to_json from_json envelopes [] (7 ∷ []) envelopes-IsSendable
