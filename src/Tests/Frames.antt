-- ===== src/Tests/Frames.antt =====
-- Two events in frames, one of them without a name.
use kiro_gateway_go.Common.{◌≡◌, refl, List, [], ◌∷◌, ◌++◌}
use kiro_gateway_go.Sse.{format_done}
use kiro_gateway_go.Sse.Events.{Event, frames, done, read_events, read_events-frames}

abbrev events : List Event
events = (b'p' ∷ b'i' ∷ b'n' ∷ b'g' ∷ [], b'{' ∷ b'}' ∷ []) ∷ ([], b'4' ∷ []) ∷ []

read_events-frames_example :
    (read_events (frames events) ≡ events)
    × (read_events (frames events ++ format_done) ≡ events ++ ([], done) ∷ [])
read_events-frames_example = read_events-frames events refl
