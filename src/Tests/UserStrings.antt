-- ===== src/Tests/UserStrings.antt =====
-- user/ulib.c on a small memory.
use os_study.Prelude.{◌≡◌, ◌<◌, refl, some, [], ◌∷◌, pos, arith, length, if◌then◌else◌, ◌==◌}
use os_study.StringOps as Kernel
use os_study.StringOps.{Memory, strncmp}
use os_study.StringOps.Compare.{c_string}
use os_study.Console.{digits_from}
use os_study.Ulib.{memmove, strcmp, strchr}
use os_study.Ulib.Agree.{memmove_agrees, strcmp_agrees}
use os_study.Ulib.Strings.{index_of, address, strchr_lem, Spells, IsString}

-- The characters `407` at 100 and `41` at 200, each with its NUL.
abbrev memory : Memory
memory a =
    if a == 100
    then 52
    else if a == 101
    then 48
    else if a == 102
    then 55
    else if a == 200
    then 52
    else if a == 201
    then 49
    else 0

memmove_agrees_example : memmove memory 101 100 (pos 3) ≡ Kernel.memmove memory 101 100 3
memmove_agrees_example = memmove_agrees memory 101 100 (pos 3)

string_is_short : length (c_string memory 100 5) < 5
unfolding c_string
string_is_short = omega arith

strcmp_agrees_example : strcmp 5 memory 100 200 ≡ some (strncmp memory 100 200 5)
strcmp_agrees_example = strcmp_agrees 5 memory 100 200 string_is_short

strchr_lem_example :
    strchr 5 memory 100 55 ≡ some (address 100 (index_of 55 (c_string memory 100 5)))
strchr_lem_example = strchr_lem 5 memory 100 55 string_is_short

memory-Spells : Spells memory 100 (digits_from 10 407 [])
unfolding Spells digits_from
memory-Spells = (refl, (refl, (refl, refl)))

memory-IsString : IsString memory 200 (52 ∷ 49 ∷ [])
unfolding IsString
memory-IsString = (refl, omega arith, (refl, omega arith, refl))
