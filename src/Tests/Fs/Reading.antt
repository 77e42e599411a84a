-- ===== src/Tests/Fs/Reading.antt =====
-- Reading a small file.
use liberal_os.Prelude.{ℕ, List, ◌∷◌, ◌==◌, if◌then◌else◌, set, replicate}
use liberal_os.Fs.Bitmap.{bsize}
use liberal_os.Fs.Dinode.{empty_dinode}
use liberal_os.Fs.Content.{LockedInode}

-- Blocks 0, 1 and 2 are in use, and the file is the first five bytes of block 2.
abbrev file_disk : ℕ → List ℕ
file_disk n =
    if n == 1
    then set (replicate bsize 0) 0 7
    else if n == 2
    then set (set (replicate bsize 0) 0 104) 1 105
    else replicate bsize 0

abbrev small_file : LockedInode
small_file = record {
  ip = record (empty_dinode 2) { size = 5; addrs = 2 ∷ replicate 12 0 };
  disk = file_disk;
}
