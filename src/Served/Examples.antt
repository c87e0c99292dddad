-- ===== src/Served/Examples.antt =====
-- Two instances of `m`, one of them on another node, and a model that is called `m-1`.
use higgs.Base.Assoc.{remove}
use higgs.Base.Text.{Text, codes, text_eq}
use higgs.Base.{All, length, ltb, ◌∷◌, [], List, some, ◌≡◌, refl, ℕ, nat_eq, string_eq}
use higgs.Served.{Instance, served_ids, decimal}
use higgs.Served.Reached.{served_ids_total, Reached}

abbrev at : ℕ → ℕ → Text → Instance ℕ
at node worker model = record { location = node; worker = worker; model = model }

abbrev running : List (Instance ℕ)
running = at 2 1 (codes "m") ∷ at 1 7 (codes "m-1") ∷ at 1 4 (codes "m") ∷ []

served_ids_total_example :
    (out : List (Text × (ℕ × ℕ))) × (served_ids ltb running ≡ some out)
    × (length out ≡ length running)
    × All (Reached out) running
served_ids_total_example = served_ids_total ltb running

-- The second `m` takes `m-1`, so the model of that name is called `m-1-1`.
clash :
    served_ids ltb running
    ≡ some ((codes "m-1-1", (1, 7)) ∷ (codes "m-1", (2, 1)) ∷ (codes "m", (1, 4)) ∷ [])
unfolding served_ids remove
clash = refl

decimals : decimal 1234567890 ≡ codes "1234567890"
unfolding decimal
decimals = refl
