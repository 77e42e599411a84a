-- ===== src/Tests/Pipe.antt =====
-- Runs of a pipe.
use liberal_os.Prelude.{
  ℕ, ◌≡◌, refl, true, false, Option, none, some, List, [], ◌∷◌, arith, set, replicate,
}
use liberal_os.Pipe.Calls.{write_run-WriteEffect, piperead-ReadEffect, ReadEffect, WriteEffect}
use liberal_os.Pipe.{pipe_init, piperead, write_run, Pipe, pipeclose}
use liberal_os.Pipe.Queue.{count, IsPipe, contents}

abbrev page : List ℕ
page = replicate 4096 9

-- Two bytes in the ring, the write counter about to wrap.
abbrev wrapping : Pipe
wrapping = record (pipe_init page) {
  bytes = set (set (replicate 512 9) 510 104) 511 105;
  nread = 4294967294;
  nwrite = 0;
}

wrapping-IsPipe : IsPipe wrapping
unfolding count
wrapping-IsPipe = record {
  size = refl;
  read_word = omega arith;
  write_word = omega arith;
  bounded = omega arith;
}

wrapping_queue : contents wrapping ≡ 104 ∷ 105 ∷ []
unfolding contents count
wrapping_queue = refl

closed_last : (pipeclose (pipeclose wrapping true).0 false).1 ≡ true
unfolding pipeclose
closed_last = refl

piperead-ReadEffect_example :
    ReadEffect wrapping (piperead wrapping false (true ∷ false ∷ true ∷ []))
piperead-ReadEffect_example =
    piperead-ReadEffect wrapping false (true ∷ false ∷ true ∷ []) wrapping-IsPipe

-- Three bytes and a fault.
abbrev faulty : List (Option ℕ)
faulty = some 1 ∷ some 2 ∷ some 3 ∷ none ∷ some 4 ∷ []

write_run-WriteEffect_example : WriteEffect wrapping faulty 0 (write_run wrapping false faulty 0)
unfolding pipe_init
write_run-WriteEffect_example = write_run-WriteEffect wrapping faulty 0 wrapping-IsPipe refl
