-- ===== src/ToolCall/Tests.antt =====
-- A stream with two interleaved calls, the second without an id.
use azoth.Base.{◌≡◌, refl, Bool, true, false, Option, none, some, List, [], ◌∷◌}
use azoth.Base.Int.{pos}
use azoth.Base.Text.{Text, codes, decimal}
use azoth.ToolCall.{ToolCall, nil, text, value, DtCall, merge, finalize}
use azoth.ToolCall.IntMap.{Table, lookup, keys, put}
use azoth.ToolCall.Merge.{assembled_at, of_index, merge-assembled}

-- A stand-in for the encoder: every other value is written as `{}`.
abbrev encode : Bool → Option Text
encode b = if_ok b
  where
    if_ok : Bool → Option Text
    if_ok true = some (codes "{}")
    if_ok false = none

abbrev deltas : List (DtCall Bool)
deltas =
    record { index = pos 1; id = []; name = codes "read"; arguments = nil }
    ∷ record { index = pos 0; id = codes "a"; name = codes "ls"; arguments = text (codes "{") }
    ∷ record { index = pos 1; id = []; name = []; arguments = value true }
    ∷ record { index = pos 0; id = []; name = []; arguments = text (codes "}") }
    ∷ []

abbrev merged : Table ToolCall
merged = (merge Bool encode [] deltas).0

finalize-merged :
    (finalize merged).1
    ≡ record {
      id = codes "a";
      kind = codes "function";
      function = record { name = codes "ls"; arguments = codes "{}" };
    }
      ∷ record {
        id = codes "call_1";
        kind = codes "function";
        function = record { name = codes "read"; arguments = codes "{}" };
      }
      ∷ []
unfolding finalize merge keys put lookup decimal
finalize-merged = refl

merge-assembled_example :
    lookup (pos 1) merged ≡ assembled_at Bool encode none (of_index Bool encode (pos 1) deltas)
unfolding merge lookup put
merge-assembled_example = merge-assembled Bool encode deltas [] (pos 1) refl
