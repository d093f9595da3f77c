-- ===== src/Heap/Tests.antt =====
-- Runs of the heap, and its theorems at concrete states.
use micro_os.Base.{◌≡◌, refl, some, List, [], ◌∷◌, arith}
use micro_os.Pmm.Defs.{Pmm}
use micro_os.Heap.Defs.{
  Block, Heap, canary, needed_for, split, first_fit, kmalloc, free_block, kfree, insert,
  insert_after, merge_next,
}
use micro_os.Heap.FreeList.{covers, Sorted, Apart, Joined, Fitted, first_fit-Fitted}
use micro_os.Heap.Insert.{insert-Joined}

-- Two free blocks, of 64 and of 4096 bytes.
abbrev blocks : List Block
blocks = record { addr = 4096; size = 64 } ∷ record { addr = 8192; size = 4096 } ∷ []

abbrev sample : Heap
sample = record { free_list = blocks; heap_start = 4096; heap_end = 12288 }

abbrev no_pages : Pmm
no_pages = record { bitmap = []; total_pages = 0; free_count = 0 }

blocks-Sorted : Sorted 4096 blocks
unfolding Sorted
blocks-Sorted = (omega arith, omega arith, (omega arith, omega arith, tt))

-- 100 bytes come from the second block; freed, they join it again.
first_block : (kmalloc sample no_pages 100).0 ≡ some (record { addr = 8192; size = 128 })
unfolding kmalloc first_fit needed_for split
first_block = refl

joined_again : (kfree (kmalloc sample no_pages 100).1 8208 128 (canary 128)).free_list ≡ blocks
unfolding kmalloc first_fit needed_for split kfree free_block insert insert_after merge_next
joined_again = refl

first_fit-Fitted_example : Fitted 4096 100 blocks (first_fit 100 blocks)
first_fit-Fitted_example = first_fit-Fitted 100 4096 blocks blocks-Sorted

abbrev freed : Block
freed = record { addr = 4160; size = 4032 }

freed-Apart : Apart freed blocks
unfolding covers
freed-Apart a h = ground (arith, h)

insert-Joined_example : Joined 4096 freed blocks (insert freed blocks)
insert-Joined_example =
    insert-Joined 4096 freed blocks (omega arith) (omega arith) blocks-Sorted freed-Apart
