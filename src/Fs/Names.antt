-- ===== src/Fs/Names.antt =====
-- skipelem() of kernel/fs.c and the loop of namex() over the elements of a path. A path is the bytes
-- of a C string; the end of the list is its terminator too. name[] is DIRSIZ bytes.
pub mod Walk
pub mod Joined
use liberal_os.Prelude.{
  ℕ, zero, suc, ◌+◌, ◌-◌, ◌*◌, ◌/◌, ◌%◌, ◌^◌, ◌≤◌, ◌<◌, min, ◌≡◌, refl, sym, ap, ap₂, ◌∙◌, subst,
  ◌≢◌, ◌↔◌, ◌⊎◌, inl, inr, Bool, true, false, not, ◌&&◌, ◌||◌, Option, none, some, List, [], ◌∷◌,
  ◌++◌, arith, ltb, leb, ◌==◌, if◌then◌else◌, ==_iff, ==-refl, ==-false, Bool-cases, Option-cases,
  ℤ, pos, negsuc, sub_ℕ, ◌≤ℤ◌, ◌<ℤ◌, ltb_ℤ, leb_ℤ, eqb_ℤ, eqb_ℤ_iff, length, get_elem?, get_or, set,
  take, drop, replicate, length-append, length-set, length-take, length-replicate,
  get_elem?-set_self, get_elem?-set_ne, get_or-set_self, get_or-set_ne, take-length, lt_of_le_ne,
}

-- DIRSIZ
abbrev pub dirsiz : ℕ
dirsiz = 14

abbrev pub slash : ℕ
slash = 47

-- while(*path == '/') path++;
unfoldable pub skip_slashes : List ℕ → List ℕ
skip_slashes [] = []
skip_slashes (c ∷ path) = let rest = skip_slashes path in if c == slash then rest else c ∷ path

-- *path != '/' && *path != 0
abbrev pub in_element : ℕ → Bool
in_element c = not (c == slash) && not (c == 0)

-- The bytes from s to path, after the loop over the element.
unfoldable pub element : List ℕ → List ℕ
element [] = []
element (c ∷ path) = let rest = c ∷ element path in if in_element c then rest else []

unfoldable pub after_element : List ℕ → List ℕ
after_element [] = []
after_element (c ∷ path) = let rest = after_element path in if in_element c then rest else c ∷ path

-- memmove(name, s, DIRSIZ), or memmove(name, s, len); name[len] = 0;
unfoldable pub fill_name : List ℕ → List ℕ → List ℕ
fill_name name s =
    if leb dirsiz (length s) then take dirsiz s else s ++ (0 ∷ drop (length s + 1) name)

-- if(*path == 0) return 0; and what follows, for a path without slashes in front.
unfoldable pub take_element : List ℕ → List ℕ → Option (List ℕ × List ℕ)
take_element [] name = none
take_element (c ∷ path) name =
    if c == 0
    then none
    else some (skip_slashes (after_element (c ∷ path)), fill_name name (element (c ∷ path)))

-- The rest of the path and the name.
unfoldable pub skipelem : List ℕ → List ℕ → Option (List ℕ × List ℕ)
skipelem path name = take_element (skip_slashes path) name

-- The name that strncmp() reads in name[]: up to a NUL, or all of it.
unfoldable pub name_text : List ℕ → List ℕ
name_text [] = []
name_text (c ∷ name) = let rest = c ∷ name_text name in if c == 0 then [] else rest

-- The names that the loop of namex() looks up one after the other, in at most n rounds.
unfoldable pub walk_rest :
    (List ℕ → List ℕ → Option (List (List ℕ))) → Option (List ℕ × List ℕ) → Option (List (List ℕ))
walk_rest next none = some []
walk_rest next (some (path, name)) = elim (next path name) [
  | none ↦ none
  | some names ↦ some (name_text name ∷ names)
]

unfoldable pub walk : ℕ → List ℕ → List ℕ → Option (List (List ℕ))
walk zero path name = none
walk (suc n) path name = walk_rest (walk n) (skipelem path name)
