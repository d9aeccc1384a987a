-- ===== src/Tests/Strings.antt =====
-- kernel/string.c on a memory of a few bytes.
use os_study.Prelude.{◌≡◌, refl, negsuc, update}
use os_study.StringOps.{Memory, memmove, strncmp}
use os_study.StringOps.Move.{memmove_lem}

-- "ab" at 100, all else zero.
abbrev ab : Memory
ab = update (update (λ q. 0) 100 97) 101 98

memmove_lem_example : memmove ab 101 100 2 102 ≡ 98
memmove_lem_example = memmove_lem ab 101 100 2 102

-- "ab" is below "b".
strncmp_runs : strncmp ab 100 101 14 ≡ negsuc 0
unfolding strncmp
strncmp_runs = refl

-- An overlapping move, upwards.
memmove_overlaps : memmove ab 101 100 2 101 ≡ 97
unfolding memmove
memmove_overlaps = refl
