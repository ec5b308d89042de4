-- ===== src/EpBuffer/Pairs.antt =====
-- src/ep_buffer.cpp and src/ep_kernel.cu: the queue pairs of the host's tables against those that the
-- kernels take.
use native.Mathlib.Nat.{
  mul-div-mul_right, div-lt_iff_lt-mul, div-add-mod', mod-lt, mod-add-div, mul-add-div_right,
  div-eq_of_lt, mul-add-mod_self_right, mod-eq_of_lt,
}
use ep_demo.Prelude.{ℕ, ◌+◌, ◌*◌, ◌/◌, ◌%◌, ◌<◌, ◌≤◌, ◌≡◌, ap, ◌∙◌, arith}
use ep_demo.Kernel.{Config, qp_index}
use ep_demo.EpBuffer.{use_qp_count, peer_rank}

-- Queue pairs for each rank, at most 256 ranks.
pub record IsRanks (n : ℕ) : Type 0 where
  pub some_rank : 0 < n
  pub few : n ≤ 256

per_rank : (n : ℕ) → IsRanks n → 0 < 256 / n
per_rank n r = grind (arith, mod-lt 256 r.some_rank, mod-add-div 256 n, r.few)

peer_rank-div : (n i : ℕ) → IsRanks n → peer_rank n i ≡ i / (256 / n)
peer_rank-div n i r = mul-div-mul_right i (256 / n) r.some_rank

chunk : (q a x : ℕ) → x < q → ((a * q + x) / q ≡ a) × ((a * q + x) % q ≡ x)
chunk q a x h = (
  mul-add-div_right (omega (arith, h)) a x ∙ ap (λ t. a + t) (div-eq_of_lt h) ∙ plus_zero a,
  mul-add-mod_self_right a q x ∙ mod-eq_of_lt h,
)
  where
    plus_zero : (a : ℕ) → a + 0 ≡ a
    plus_zero a = omega arith

swap : (q n i : ℕ) → i < q * n → i < n * q
swap q n i h = grind arith

below : (q n a x : ℕ) → a < n → x < q → a * q + x < q * n
below q n a x h g = grind arith

-- The queue pair that the kernels take for an expert of `dst_rank` is one that the host connected to
-- this rank, and stands in the table.
pub peer_rank-qp_index :
    (c : Config) (dst_rank local_idx : ℕ)
    → IsRanks c.num_ranks
    → dst_rank < c.num_ranks
    → (peer_rank c.num_ranks (qp_index c dst_rank local_idx) ≡ dst_rank)
      × (qp_index c dst_rank local_idx < use_qp_count c.num_ranks)
unfolding qp_index
peer_rank-qp_index c dst_rank local_idx r h =
    let per = per_rank c.num_ranks r in
    let x = mod-lt local_idx per in
    (
      peer_rank-div c.num_ranks (qp_index c dst_rank local_idx) r
          ∙ (chunk (256 / c.num_ranks) dst_rank (local_idx % (256 / c.num_ranks)) x).0,
      below (256 / c.num_ranks) c.num_ranks dst_rank (local_idx % (256 / c.num_ranks)) h x,
    )

-- The index, on the peer, of the other end of this rank's queue pair `i`.
abbrev pub other_end : ℕ → ℕ → ℕ → ℕ
other_end n rank i = rank * (256 / n) + i % (256 / n)

pub other_end-lt : (n rank i : ℕ) → IsRanks n → rank < n → other_end n rank i < use_qp_count n
other_end-lt n rank i r lt = below (256 / n) n rank (i % (256 / n)) lt (mod-lt i (per_rank n r))

-- Every rank gets, for its queue pair `i`, the number of the queue pair at the other end. Then the queue
-- pair at the other end has got the number of this one: both ends of each connection name each other.
pub other_end-mutual :
    (n : ℕ) (qpns remote_qpns : ℕ → ℕ → ℕ) (rank i : ℕ)
    → IsRanks n
    → rank < n
    → i < use_qp_count n
    → ((r j : ℕ)
        → r < n
        → j < use_qp_count n
        → remote_qpns r j ≡ qpns (peer_rank n j) (other_end n r j))
    → (peer_rank n i < n)
      × (peer_rank n (other_end n rank i) ≡ rank)
      × (remote_qpns (peer_rank n i) (other_end n rank i) ≡ qpns rank i)
other_end-mutual n qpns remote_qpns rank i r hr hi exchange =
    let per = per_rank n r in
    let x = mod-lt i per in
    let two = chunk (256 / n) rank (i % (256 / n)) x in
    let back : peer_rank n (other_end n rank i) ≡ rank =
      peer_rank-div n (other_end n rank i) r ∙ two.0 in
    let peer : peer_rank n i < n =
      rw (peer_rank-div n i r) ((div-lt_iff_lt-mul per).1 (swap (256 / n) n i hi)) in
    let home : other_end n (peer_rank n i) (other_end n rank i) ≡ i =
      ap (λ t. peer_rank n i * (256 / n) + t) two.1
      ∙ ap (λ t. t * (256 / n) + i % (256 / n)) (peer_rank-div n i r)
      ∙ div-add-mod' i (256 / n) in
    (
      peer,
      back,
      exchange (peer_rank n i) (other_end n rank i) peer
            (below (256 / n) n rank (i % (256 / n)) hr x)
          ∙ ap (λ t. qpns t (other_end n (peer_rank n i) (other_end n rank i))) back
          ∙ ap (λ t. qpns rank t) home,
    )
