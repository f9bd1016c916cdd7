-- ===== src/Sse/Tests.antt =====
-- A stream with comments in it, and the theorem at two events.
use azoth.Base.{◌≡◌, refl, false, Option, none, some, List, [], ◌∷◌, ◌++◌, All}
use azoth.Base.Text.{Text, codes, text_eq, has_prefix}
use azoth.Sse.{event_prefix, done_marker, parse_sse}
use azoth.Sse.Events.{events, parse_sse_stream}

abbrev no_error : Option Text
no_error = none

comments_skipped :
    (parse_sse (codes ": ping" ∷ codes "event: x" ∷ codes "data: {}" ∷ []) no_error).payloads
    ≡ codes "{}" ∷ []
unfolding parse_sse has_prefix text_eq
comments_skipped = refl

abbrev two : List Text
two = codes "{1}" ∷ codes "{2}" ∷ []

not_done : All (λ p. text_eq p done_marker ≡ false) two
unfolding text_eq
not_done = (refl, (refl, tt))

parse_sse_stream_example :
    ((parse_sse (events two ++ ((event_prefix ++ done_marker) ∷ two)) (some (codes "eof"))).payloads
      ≡ two)
    × ((parse_sse (events two ++ ((event_prefix ++ done_marker) ∷ two)) (some (codes "eof"))).error
        ≡ none)
    × ((parse_sse (events two ++ []) (some (codes "eof"))).payloads ≡ two)
    × ((parse_sse (events two ++ []) (some (codes "eof"))).error ≡ some (codes "eof"))
parse_sse_stream_example = parse_sse_stream two two (some (codes "eof")) not_done
