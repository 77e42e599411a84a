-- ===== src/Tests/File.antt =====
-- Runs of the file table.
use liberal_os.Prelude.{◌≡◌, refl, true, false, some, List, [], ◌∷◌, arith}
use mathlib.Core.Option
use liberal_os.File.{release_at, release_of}
use liberal_os.File.{close_pipe, fd_pipe, fd_inode, fd_none, nothing, File, fileclose, filedup}
use liberal_os.File.Counts.{fileclose-filedup, after}

abbrev idle : File
idle = record {
  type = fd_none;
  ref = 0;
  readable = false;
  writable = false;
  pipe = 0;
  ip = 0;
  off = 0;
  major = 0;
}

-- A file held twice, the write end of a pipe, and an idle one.
abbrev two_open : List File
two_open =
    record idle { type = fd_inode; ref = 2; ip = 4 }
    ∷ record idle { type = fd_pipe; ref = 1; pipe = 9; writable = true }
    ∷ idle
    ∷ []

last_closes_pipe : Option.map (λ r. r.0) (fileclose two_open 1) ≡ some (close_pipe 9 true)
unfolding fileclose release_at release_of
last_closes_pipe = refl

fileclose-filedup_example : after (filedup two_open 1) 1 ≡ some (nothing, two_open)
fileclose-filedup_example = fileclose-filedup two_open 1 (omega arith)
