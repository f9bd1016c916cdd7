-- ===== src/Anthropic/Stream/Calls.antt =====
-- The tool calls of a stream of the Messages API.
use mathlib.Core.List.{map-append}
use azoth.Base.{◌≡◌, sym, ap, ◌∙◌, true, List, [], ◌∷◌, ◌++◌, map, if◌then◌else◌, is_empty}
use azoth.Base.Int.{ℤ}
use azoth.Base.Text.{Text, codes}
use azoth.Blocks.{closed, call_of, meaning}
use azoth.Blocks.Calls.{all_leave, input_for, meaning-block}
use azoth.Chat.{tool_call_complete}
use azoth.Anthropic.Stream.{SdkEvent, tool_use, content_block_start, content_block_stop, sdk_loop}
use azoth.Anthropic.Stream.Meaning.{heard, sdk_loop-meaning}

-- A tool block, whatever goes before it and whatever is between its start and its stop but a start of
-- a tool block or a stop at its index: the stop sends one call, with the id and name of the start and
-- all input written to the index in between, or an empty object if there was none. The events sent
-- until then are not affected.
sdk_loop-tool_call :
    {E : Type 0} (i : ℤ) (id name : Text) (before between : List SdkEvent)
    → all_leave i (map heard between) ≡ true
    → sdk_loop {E = E}
        ((before ++ (content_block_start i (tool_use id name) ∷ between))
          ++ (content_block_stop i ∷ []))
        []
      ≡ sdk_loop (before ++ (content_block_start i (tool_use id name) ∷ between)) []
        ++ (tool_call_complete (
              record {
                id = id;
                kind = codes "function";
                function = record {
                  name = name;
                  arguments =
                      if is_empty (input_for i (map heard between))
                      then codes "{}"
                      else input_for i (map heard between);
                };
              }
              ∷ [])
            ∷ [])
sdk_loop-tool_call {E = E} i id name before between l =
    let start = content_block_start i (tool_use id name) in
    let front = map-append heard before (start ∷ between) in
    sdk_loop-meaning {E = E} ((before ++ (start ∷ between)) ++ (content_block_stop i ∷ []))
    ∙ ap (meaning []) (
        map-append heard (before ++ (start ∷ between)) (content_block_stop i ∷ [])
        ∙ ap (λ hs. hs ++ (closed i ∷ [])) front)
    ∙ meaning-block i id name (map heard before) (map heard between) l
    ∙ ap
        (λ es.
          es
          ++ (tool_call_complete (
                call_of (record { id = id; name = name; input = input_for i (map heard between) })
                ∷ [])
              ∷ []))
        (ap (meaning []) (sym front) ∙ sym (sdk_loop-meaning {E = E} (before ++ (start ∷ between))))
