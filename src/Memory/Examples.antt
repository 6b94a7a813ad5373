-- ===== src/Memory/Examples.antt =====
-- The memory laws at concrete regions.
use text_os.Common.{◌≡◌, inr, arith, ◌%◌}
use text_os.Memory.{Memory, memcpy, memmove}
use text_os.Memory.Loops.{moved}
use text_os.Memory.Laws.{memcpy_lem, memmove_lem}

-- Every byte is the low byte of its address.
abbrev counting : Memory
counting a = a % 256

memcpy_lem_example : memcpy counting 1000 20 9 ≡ moved counting 1000 20 9
memcpy_lem_example = memcpy_lem counting 1000 20 9 (λ x. omega arith) (inr (omega arith))

memmove_lem_example : memmove counting 23 20 9 ≡ moved counting 23 20 9
memmove_lem_example = memmove_lem counting 23 20 9
