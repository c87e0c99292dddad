-- ===== src/Demux/Examples.antt =====
-- The demultiplexer of src/actor.rs with two streams.
use higgs.Base.Assoc.{get, insert, remove}
use higgs.DeltaQueue.{ChatDelta, delta_channel, content, reasoning}
use higgs.Demux.Stream.{
  Op, run, keeps, deltas_for, sends, Fresh, queue_of_stream, register, unregister, route,
}
use higgs.Base.{string_eq, nat_eq, ◌∷◌, [], List, some, refl, ◌≡◌, ℕ}
use higgs.Demux.{
  written, register_sink, correlate, register_pending, fulfil, cancel, new, through, update,
  answered, cancelled,
}

abbrev hello : ChatDelta
hello = record { kind = content; text = 104 ∷ [] }

abbrev other : ChatDelta
other = record { kind = reasoning; text = 111 ∷ [] }

abbrev ops : List Op
ops = route 1 hello ∷ register 2 ∷ route 2 other ∷ route 1 hello ∷ unregister 2 ∷ []

new-Fresh : Fresh (new {R = ℕ})
unfolding get
new-Fresh = record { sinks_below = λ j k h. cc h }

queue_of_stream_example :
    get 0 (run ops (register_sink 1 (new {R = ℕ})).1).queues
    ≡ some (sends (hello ∷ hello ∷ []) delta_channel)
unfolding keeps deltas_for register_sink
queue_of_stream_example =
    queue_of_stream 1 (new {R = ℕ}) ops new-Fresh (refl, (refl, (refl, (refl, (refl, tt)))))

-- A response for an id that was registered again answers the later waiter, and the earlier one is
-- cancelled.
reregistered :
    (correlate 5 77 (register_pending 5 (register_pending 5 (new {R = ℕ})).1).1).oneshots
    ≡ (1, answered 77) ∷ (0, cancelled) ∷ []
unfolding correlate register_pending through update written insert remove get cancel fulfil
reregistered = refl
