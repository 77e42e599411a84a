-- ===== src/Cache/Hash.antt =====
-- cache_fnv1a() of kernel/cache.c on uint64 words.
use liberal_os.Prelude.{ℕ, ◌*◌, ◌%◌, ◌^◌, ◌<◌, ◌≢◌, List, [], ◌∷◌, arith, ◌==◌, if◌then◌else◌}
use Prim.Native.Nat.{bit_xor}

abbrev pub u64 : ℕ
u64 = 2 ^ 64

-- The FNV-1a offset basis and prime that the code writes.
abbrev pub fnv_basis : ℕ
fnv_basis = 1469598103934665603

abbrev pub fnv_prime : ℕ
fnv_prime = 1099511628211

-- h ^= c; h *= prime;
unfoldable pub mix : ℕ → ℕ → ℕ
mix h c = bit_xor h c * fnv_prime % u64

-- for (s = ...; *s; s++)
unfoldable pub mix_string : ℕ → List ℕ → ℕ
mix_string h [] = h
mix_string h (c ∷ s) = let rest = mix_string (mix h c) s in if c == 0 then h else rest

unfoldable pub cache_fnv1a : List ℕ → List ℕ → ℕ
cache_fnv1a role prompt =
    let h = mix_string (mix (mix_string fnv_basis role) b'|') prompt in if h == 0 then 1 else h

mix-lt : (h c : ℕ) → mix h c < u64
unfolding mix
mix-lt h c = omega arith

mix_string-lt : (h : ℕ) (s : List ℕ) → h < u64 → mix_string h s < u64
unfolding mix_string
mix_string-lt h [] b = b
mix_string-lt h (c ∷ s) b = ground (arith, mix_string-lt (mix h c) s (mix-lt h c))

-- A key is a uint64 that is not 0, the mark of an empty slot.
pub cache_fnv1a_range :
    (role prompt : List ℕ) → (cache_fnv1a role prompt ≢ 0) × (cache_fnv1a role prompt < u64)
unfolding cache_fnv1a
cache_fnv1a_range role prompt =
    let start = mix (mix_string fnv_basis role) b'|' in
    let small : mix_string start prompt < u64 = mix_string-lt start prompt (mix-lt _ _) in
    ground arith
