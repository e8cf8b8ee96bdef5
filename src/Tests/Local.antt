-- ===== src/Tests/Local.antt =====
-- Tests and witnesses of the local containers.
use wirekrak.Common.{ℕ, ◌≡◌, refl, true, false, List, [], ◌∷◌, none, some}
use wirekrak.Local.Ring.{Ring, push, pop}
use wirekrak.Local.Ring.Positions.{window}
use wirekrak.Local.Ring.Refine.{Op, put, take, answers, is_valid, contents, run, run-answers}

-- A ring of four places whose elements go round its end.
abbrev wrapped : Ring ℕ
wrapped = record { buffer = 5 ∷ 0 ∷ 3 ∷ 4 ∷ []; head = 1; tail = 2 }

wrapped-contents : contents 0 4 wrapped ≡ 3 ∷ 4 ∷ 5 ∷ []
unfolding contents window
wrapped-contents = refl

abbrev calls : List (Op ℕ)
calls = put 6 ∷ take ∷ put 7 ∷ take ∷ take ∷ take ∷ take ∷ []

run-answers_example : run 0 4 calls wrapped ≡ answers 4 calls (contents 0 4 wrapped)
unfolding is_valid
run-answers_example = run-answers 0 4 calls wrapped refl

run-calls :
    run 0 4 calls wrapped
    ≡ (false, none)
      ∷ (true, some 3)
      ∷ (true, none)
      ∷ (true, some 4)
      ∷ (true, some 5)
      ∷ (true, some 7)
      ∷ (true, none)
      ∷ []
unfolding run push pop
run-calls = refl
