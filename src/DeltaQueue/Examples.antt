-- ===== src/DeltaQueue/Examples.antt =====
-- Runs of the chat-delta queue of src/delta_queue.rs on small inputs.
use higgs.Base.{length, arith, ◌++◌, ◌∷◌, [], List, some, false, true, refl, ◌≡◌, suc}
use higgs.DeltaQueue.{
  delta_channel, run, step, drops_sender, recvs, sends, recv, ended, drop_sender, send, push_delta,
  State, ChatDelta, tool_call, reasoning, content,
}
use higgs.DeltaQueue.Invariant.{run_aborted, run-delta_channel-Inv, step-Inv, Inv}
use higgs.DeltaQueue.Lossless.{
  drained_stream_complete, drain, serve_lossless, produced, serve, consume, produce, Turn, atoms,
}

abbrev hello : ChatDelta
hello = record { kind = content; text = 104 ∷ 105 ∷ [] }

abbrev bang : ChatDelta
bang = record { kind = content; text = 33 ∷ [] }

abbrev thought : ChatDelta
thought = record { kind = reasoning; text = 63 ∷ [] }

abbrev call : ChatDelta
call = record { kind = tool_call; text = 123 ∷ 125 ∷ [] }

send_merges :
    (send (send (send delta_channel hello) bang) thought).entries
    ≡ record { kind = content; text = 104 ∷ 105 ∷ 33 ∷ [] } ∷ thought ∷ []
unfolding send push_delta
send_merges = refl

send_keeps_calls : (send (send delta_channel call) call).entries ≡ call ∷ call ∷ []
unfolding send push_delta
send_keeps_calls = refl

abbrev aborted : State
aborted = record { entries = []; buffered_bytes = 5; overflowed = true; closed = false }

step-Inv_example : Inv (step (step delta_channel (sends hello)) (sends bang))
step-Inv_example =
    step-Inv (step delta_channel (sends hello)) (sends bang)
      (step-Inv delta_channel (sends hello) (ground arith))

run-delta_channel-Inv_example :
    Inv (run delta_channel (sends hello ∷ sends call ∷ recvs ∷ drops_sender ∷ []))
run-delta_channel-Inv_example =
    run-delta_channel-Inv (sends hello ∷ sends call ∷ recvs ∷ drops_sender ∷ [])

run_aborted_example :
    ((run aborted (sends hello ∷ recvs ∷ [])).overflowed ≡ true)
    × ((recv (run aborted (sends hello ∷ recvs ∷ []))).0 ≡ ended)
run_aborted_example = run_aborted aborted (sends hello ∷ recvs ∷ []) (ground arith) refl

abbrev turns : List Turn
turns = produce hello ∷ produce bang ∷ consume ∷ produce thought ∷ produce call ∷ []

serve_lossless_example :
    atoms (serve delta_channel turns).0 ++ atoms (serve delta_channel turns).1.entries
    ≡ atoms (produced turns)
unfolding serve send recv push_delta
serve_lossless_example = serve_lossless turns refl

drained_stream_complete_example :
    (rest : List ChatDelta) × (drain
        (suc (length (serve delta_channel turns).1.entries))
        (drop_sender (serve delta_channel turns).1)
      ≡ some rest)
    × (atoms ((serve delta_channel turns).0 ++ rest) ≡ atoms (produced turns))
drained_stream_complete_example = drained_stream_complete turns (omega arith)
