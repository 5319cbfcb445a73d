-- ===== src/Cstring/Tests.antt =====
-- Runs of string.c, and the theorems at concrete strings.
use g14_os_project.Prelude.{◌≡◌, refl, [], ◌∷◌}
use g14_os_project.Prelude.Int.{negsuc}
use g14_os_project.Cstring.{Bytes, memmove, copy_up, copy_down, strncpy, pad_loop, memcmp}

-- The byte at each address is the address.
abbrev ruler : Bytes
ruler a = a

memmove_overlap : memmove ruler 12 10 5 14 ≡ 12
unfolding memmove copy_up copy_down
memmove_overlap = refl

strncpy_pads : strncpy (9 ∷ 9 ∷ 9 ∷ 9 ∷ []) (1 ∷ 0 ∷ 5 ∷ []) 3 ≡ 1 ∷ 0 ∷ 0 ∷ 9 ∷ []
unfolding strncpy pad_loop
strncpy_pads = refl

memcmp_differs : memcmp (1 ∷ 2 ∷ []) (1 ∷ 5 ∷ []) 2 ≡ negsuc 2
unfolding memcmp
memcmp_differs = refl
