-- ===== src/Tests/Console.antt =====
-- The console from its start.
use liberal_os.Prelude.{ℕ, ◌≡◌, refl, true, false, List, [], ◌∷◌, ◌++◌, arith, replicate}
use liberal_os.Verifier.{codes}
use liberal_os.Console.Edit.{view, type_char}
use liberal_os.Console.Ring.{edit, ready, IsCons}
use liberal_os.Console.Lines.{consoleread-consoleintr, intr_all}
use liberal_os.Console.Line.{consoleintr-Shows, Shows}
use liberal_os.Console.{
  to_line_feed, end_line, typed, rub_out, returns, consoleintr, gap, cons_init, read_loop,
}

-- "ax", backspace, "b" and a carriage return.
abbrev keys : List ℕ
keys = b'a' ∷ b'x' ∷ 8 ∷ b'b' ∷ 13 ∷ []

cons_init-IsCons : IsCons cons_init
unfolding cons_init gap
cons_init-IsCons = record {
  size = refl;
  read_word = omega arith;
  write_word = omega arith;
  edit_word = omega arith;
  whole = refl;
  bounded = omega arith;
  no_feed = λ k l. absurd (omega arith);
}

no_input : (ready cons_init ≡ []) × (edit cons_init ≡ [])
unfolding cons_init gap ready edit
no_input = (refl, refl)

edited : ready (intr_all keys cons_init) ≡ b'a' ∷ b'b' ∷ 10 ∷ []
unfolding cons_init gap ready consoleintr rub_out typed end_line to_line_feed
edited = refl

consoleintr-Shows_example : Shows (consoleintr 13 cons_init).0 (type_char 13 (view cons_init))
consoleintr-Shows_example = consoleintr-Shows 13 cons_init cons_init-IsCons

consoleread-consoleintr_example :
    let r = read_loop (intr_all (codes "ab" ++ (10 ∷ [])) cons_init) false (replicate 3 true) 0 in
    (r.out ≡ codes "ab" ++ (10 ∷ [])) × (r.end ≡ returns 3)
consoleread-consoleintr_example =
    consoleread-consoleintr (codes "ab") cons_init false 3 cons_init-IsCons no_input.0 no_input.1
      (((omega arith, λ q. omega arith), ((omega arith, λ q. omega arith), refl))) (omega arith)
      (omega arith)
