-- ===== src/Kernel/Receive/Ranges.antt =====
-- That the reserved rows are apart.
use ep_demo.Prelude.{◌%◌, ◌/◌, List, [], add32, arith, sym, ℕ, ◌+◌, ◌<◌, ◌^◌, ◌∷◌, ◌≡◌}
use ep_demo.Kernel.Receive.{reserve_rows, unpack2, pack2}

pub unpack2-pack2 : (x y : ℕ) → x < 2 ^ 32 → unpack2 (pack2 x y) ≡ (x, y)
unpack2-pack2 x y h =
    let low : pack2 x y % 2 ^ 32 ≡ x = omega (arith, h) in
    let high : pack2 x y / 2 ^ 32 ≡ y = omega (arith, h) in λ i. (low i, high i)

abbrev pub sum : List ℕ → ℕ
sum [] = 0
sum (n ∷ ns) = n + sum ns

-- The words' ranges, one after the other, from row `b` to row `e`.
abbrev pub Consecutive : ℕ → List ℕ → List ℕ → ℕ → Type 0
Consecutive b [] [] e = b ≡ e
Consecutive b (n ∷ ns) (w ∷ ws) e = (unpack2 w ≡ (n, b)) × Consecutive (b + n) ns ws e
Consecutive b _ _ e = ⊥

-- Whatever the order of the sources, the ranges that `combine` unpacks hold the numbers received, and
-- follow each other without a gap or an overlap, from the counter's value before to its value after, which is
-- larger by the sum of the numbers.
pub reserve_rows-Consecutive :
    (b : ℕ) (ns : List ℕ)
    → b + sum ns < 2 ^ 32
    → Consecutive b ns (reserve_rows b ns).0 (b + sum ns) × ((reserve_rows b ns).1 ≡ b + sum ns)
reserve_rows-Consecutive b [] h = (omega arith, omega arith)
reserve_rows-Consecutive b (n ∷ ns) h =
    let next : add32 b n ≡ b + n = omega (arith, h) in
    let later = reserve_rows-Consecutive (b + n) ns (omega (arith, h)) in
    let total : b + n + sum ns ≡ b + (n + sum ns) = omega arith in
    (
      (unpack2-pack2 n b (omega (arith, h)), rw (next, sym total) later.0),
      rw (next, sym total) later.1,
    )
