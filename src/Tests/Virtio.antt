-- ===== src/Tests/Virtio.antt =====
-- The descriptors of the disk, eight of them.
use liberal_os.Virtio.Descs.{alloc3_desc-AllOrNone, AllOrNone}
use liberal_os.Prelude.{◌≡◌, refl, Bool, true, false, some, List, [], ◌∷◌, replicate}
use liberal_os.Virtio.{
  first_free, undone, mark, third, second, first, free_desc, alloc_desc, chain_rest, clear_desc,
  Queue, alloc3_desc, free_chain, Three.failed,
}

abbrev queue : List Bool → Queue
queue fs = record { free = fs; desc = replicate 8 clear_desc }

abbrev two_free : List Bool
two_free = false ∷ true ∷ false ∷ false ∷ true ∷ false ∷ false ∷ false ∷ []

gives_back : alloc3_desc (queue two_free) ≡ failed (queue two_free)
unfolding alloc3_desc alloc_desc first second third mark undone first_free free_desc
gives_back = refl

-- A request's chain of three is freed as a whole.
abbrev chained : Queue
chained = record {
  free = false ∷ false ∷ false ∷ replicate 5 true;
  desc =
      record clear_desc { flags = 1; link = 1 }
      ∷ record clear_desc { flags = 1; link = 2 }
      ∷ clear_desc
      ∷ replicate 5 clear_desc;
}

frees_chain : free_chain 8 0 chained ≡ some (queue (replicate 8 true))
unfolding free_chain chain_rest free_desc
frees_chain = refl

alloc3_desc-AllOrNone_example : AllOrNone (queue two_free) (alloc3_desc (queue two_free))
alloc3_desc-AllOrNone_example = alloc3_desc-AllOrNone (queue two_free) refl
