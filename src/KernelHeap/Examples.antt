-- ===== src/KernelHeap/Examples.antt =====
-- The heap operations at a heap with a live block in front.
use text_os.Common.{◌≡◌, refl, inl, arith, List, [], ◌∷◌, some, true, false}
use text_os.KernelHeap.{Block, State, header, align, allocate, deallocate, reallocate, calloc}
use text_os.KernelHeap.Valid.{IsValid, InUse}
use text_os.KernelHeap.Allocate.{Answer, allocate_lem}
use text_os.KernelHeap.Free.{IsCoalesced, Released, deallocate_lem}
use text_os.KernelHeap.RoundTrip.{FreesTo, deallocate-allocate}
use text_os.KernelHeap.Realloc.{Reallocated, reallocate_lem, Cleared, calloc_lem}

-- One block of 100 bytes in use, and the rest of the heap.
abbrev heap : List Block
heap =
    record { addr = 0; size = 100; used = true }
    ∷ record { addr = 112; size = 65412; used = false }
    ∷ []

abbrev state : State
state = record { blocks = heap; memory = λ a. 7 }

heap-IsValid : IsValid heap
heap-IsValid = (refl, omega arith, (refl, omega arith, refl))

front : InUse 0 100 heap
front = inl (refl, refl, refl)

allocate_lem_example : Answer heap (align 30) (allocate (some heap) 30)
allocate_lem_example = allocate_lem (some heap) 30 (omega arith) heap-IsValid

deallocate_lem_example :
    (bs' : List Block) × (deallocate heap (some header) ≡ some bs')
    × IsValid bs'
    × IsCoalesced true bs'
    × Released 0 heap bs'
deallocate_lem_example = deallocate_lem 0 100 heap heap-IsValid front

deallocate-allocate_example : FreesTo heap (allocate (some heap) 30)
deallocate-allocate_example =
    deallocate-allocate (some heap) 30 heap-IsValid (inl refl, (inl refl, tt))

reallocate_lem_example :
    Reallocated 0x1000 state 0 100 200 (reallocate 0x1000 state (some header) 200)
reallocate_lem_example =
    reallocate_lem 0x1000 state 0 100 200 (omega arith) (omega arith) heap-IsValid
      (λ x. omega arith) front

calloc_lem_example : Cleared 0x1000 state 24 (calloc 0x1000 state 6 4)
calloc_lem_example = calloc_lem 0x1000 state 6 4 (omega arith) heap-IsValid
