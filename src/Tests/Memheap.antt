-- ===== src/Tests/Memheap.antt =====
-- The allocator at concrete heaps: the control buffer of 1 GiB, and small ones.
use ep_demo.Prelude.{◌+◌, ◌^◌, ◌<◌, ◌≡◌, refl, true, some, List, [], ◌∷◌, get_elem?, arith}
use ep_demo.Memheap.{Memheap, create}
use ep_demo.Memheap.Packed.{create-IsPacked, Request, run, Apart, run-Apart}
use ep_demo.Memheap.Overlap.{second, third, aligned_alloc-free-overlap}

abbrev gigabyte : Memheap
gigabyte = create (2 ^ 30)

abbrev requests : List Request
requests = record { size = 100; log_align = 12 } ∷ record { size = 8; log_align = 3 } ∷ []

run-Apart_example : Apart 0 requests (run gigabyte requests) (2 ^ 30)
unfolding create
run-Apart_example =
    run-Apart gigabyte requests (create-IsPacked (2 ^ 30) (omega arith)) (omega arith)

aligned_alloc-free-overlap_example :
    let h = (third 12 4096 4096 8192 (2 ^ 30)).1 in
    let q = (second 12 4096 4096 8192 (2 ^ 30)).0 in
    let r = (third 12 4096 4096 8192 (2 ^ 30)).0 in
    (get_elem? h.allocs 1 ≡ some (record { offset = q; size = 4096; used = true }))
    × (q < r + 8192)
    × (r < q + 4096)
aligned_alloc-free-overlap_example =
    aligned_alloc-free-overlap 12 4096 4096 8192 (2 ^ 30) refl refl (omega arith) (omega arith)
      (omega arith) (omega arith) (omega arith) (omega arith)
