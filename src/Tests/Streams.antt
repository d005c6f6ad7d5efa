-- ===== src/Tests/Streams.antt =====
-- The memory storage's theorems at a channel of three messages.
use Prim.Native.String.{String}
use sse_gateway.Prelude.{◌≡◌, refl, codes, text_dec, some, [], ◌∷◌, List, arith, Distinct}
use sse_gateway.Extern.Samples.{text_json, assoc_map}
use sse_gateway.Event.{SseEvent, message}
use sse_gateway.Std.Decimal.{pos, negsuc}
use sse_gateway.Storage.Trait.{StoreCall}
use sse_gateway.Storage.Memory.{new, get_messages_after, default}
use sse_gateway.Storage.Memory.Window.{store_all}
use sse_gateway.Storage.Memory.Replay.{replay_exact, replay_lost}
use sse_gateway.Storage.Memory.Ids.{generate_all, generate_all-Distinct}

abbrev note : String → String → StoreCall
note id body = record {
  channel_id = codes "room";
  stream_id = codes id;
  event = message (codes "u") (codes body);
}

abbrev pub notes : List StoreCall
notes = note "1-0" "x" ∷ note "1-1" "y" ∷ note "1-2" "z" ∷ []

-- the event as the storage keeps it
abbrev kept : String → String → SseEvent
kept id body = record (message (codes "u") (codes body)) { stream_id = some (codes id) }

replay_exact_example :
    get_messages_after (codes "room") (some (codes "1-1")) (store_all notes (new 2))
    ≡ kept "1-2" "z" ∷ []
unfolding text_dec
replay_exact_example =
    replay_exact 2 notes (codes "room") (codes "1-1") (kept "1-1" "y")
      ((codes "1-0", kept "1-0" "x") ∷ []) ((codes "1-2", kept "1-2" "z") ∷ []) refl refl
      (omega arith)

replay_lost_example :
    get_messages_after (codes "room") (some (codes "1-0")) (store_all notes (new 2)) ≡ []
unfolding text_dec
replay_lost_example =
    replay_lost 2 notes (codes "room") (codes "1-0") (kept "1-0" "x") []
      ((codes "1-1", kept "1-1" "y") ∷ (codes "1-2", kept "1-2" "z") ∷ []) refl refl (omega arith)

generate_all-Distinct_example : Distinct (generate_all (pos 7 ∷ negsuc 0 ∷ pos 7 ∷ []) default)
unfolding default new
generate_all-Distinct_example =
    generate_all-Distinct (pos 7 ∷ negsuc 0 ∷ pos 7 ∷ []) default (omega arith)
