-- ===== src/Launch/Checks.antt =====
-- What the checks of the host functions are enough for.
use ep_demo.Prelude.{
  Bool, Bool-cases, [], arith, false, inl, inr, leb, some, true, ℕ, ◌%◌, ◌*◌, ◌+◌, ◌/◌, ◌<◌, ◌↔◌,
  ◌∷◌, ◌≡◌, ◌≤◌,
}
use ep_demo.Kernel.{Config, num_bytes_per_msg}
use ep_demo.Launch.{
  combine_launch, combine_asserts, Launch, cell_div, dispatch_asserts, dispatch_launch,
  hidden_cases, in_cases, num_max_topk, num_warp_groups, num_workspace_bytes,
  responsible_expert_idx,
}

-- What every row length of the switch has.
pub record IsRow (h : ℕ) : Type 0 where
  pub low : 2048 ≤ h
  pub high : h ≤ 8192
  pub whole : h % 512 ≡ 0

in_cases-IsRow : (h : ℕ) → in_cases h hidden_cases ≡ true → IsRow h
in_cases-IsRow h e = ground (arith, e)

msg_whole : (c : Config) → IsRow c.hidden → num_bytes_per_msg c % 16 ≡ 0
unfolding num_bytes_per_msg
msg_whole c r = elim (Bool-cases c.use_fp8) [
  | inl e ↦ rw e (omega (arith, r.low, r.high, r.whole))
  | inr e ↦ rw e (omega (arith, r.low, r.high, r.whole))
]

-- What is launched, and what was checked before.
launched :
    (num_topk num_experts hidden : ℕ) (use_fp8 : Bool) (workspace : ℕ) (l : Launch)
    → dispatch_launch num_topk num_experts hidden use_fp8 workspace ≡ some l
    → (num_experts * 4 * 2 ≤ num_workspace_bytes)
      × IsRow hidden
      × (l.hidden ≡ hidden)
      × (l.num_sms ≡ cell_div num_experts num_warp_groups)
      × (l.counters ≡ workspace ∷ (workspace + num_experts * 4) ∷ [])
launched num_topk num_experts hidden use_fp8 workspace l h =
    elim (Bool-cases (leb num_topk num_max_topk)) [
      | inr e ↦ absurd (cc (rw (e, dispatch_launch) at h))
      | inl e ↦ elim (Bool-cases (leb (num_experts * 4 * 2) num_workspace_bytes)) [
        | inr f ↦ absurd (cc (rw (e, f, dispatch_launch) at h))
        | inl f ↦ elim (Bool-cases (in_cases hidden hidden_cases)) [
          | inr g ↦ absurd (cc (rw (e, f, g, dispatch_launch) at h))
          | inl g ↦ (
            ground (arith, f),
            in_cases-IsRow hidden g,
            cc (rw (e, f, g, dispatch_launch) at h),
            cc (rw (e, f, g, dispatch_launch) at h),
            cc (rw (e, f, g, dispatch_launch) at h),
          )
        ]
      ]
    ]

-- If `dispatch` launches its kernel, the counters of all experts are in the workspace and apart, each
-- expert has a warp group that is responsible for it, and the kernel's assertions hold exactly if
-- there are more than 8 experts.
pub dispatch_launch-asserts :
    (c : Config) (num_topk workspace : ℕ) (l : Launch)
    → dispatch_launch num_topk c.num_experts c.hidden c.use_fp8 workspace ≡ some l
    → (l.counters ≡ workspace ∷ (workspace + c.num_experts * 4) ∷ [])
      × (workspace + c.num_experts * 4 + c.num_experts * 4 ≤ workspace + num_workspace_bytes)
      × ((e : ℕ)
          → e < c.num_experts
          → (sm : ℕ) × (g : ℕ) × (sm < l.num_sms)
            × (g < num_warp_groups)
            × (responsible_expert_idx sm g ≡ e))
      × ((dispatch_asserts l c ≡ true) ↔ (8 < c.num_experts))
dispatch_launch-asserts c num_topk workspace l h =
    let (fits, row, hidden, sms, counters) =
      launched num_topk c.num_experts c.hidden c.use_fp8 workspace l h in
    (
      counters,
      omega (arith, fits),
      λ e lt. (e / 8, e % 8, omega (arith, sms, lt), omega arith, omega arith),
      ground (arith, msg_whole c row, row.low, row.high, row.whole, hidden, sms),
    )

-- If `combine` launches its kernel, the kernel's assertions hold, and each expert has a warp group that is
-- responsible for it; but the launch is not cooperative.
pub combine_launch-asserts :
    (num_topk num_experts hidden workspace : ℕ) (l : Launch)
    → combine_launch num_topk num_experts hidden workspace ≡ some l
    → (combine_asserts l num_topk ≡ true)
      × ((e : ℕ)
          → e < num_experts
          → (sm : ℕ) × (g : ℕ) × (sm < l.num_sms)
            × (g < num_warp_groups)
            × (responsible_expert_idx sm g ≡ e))
      × (l.cooperative ≡ false)
combine_launch-asserts num_topk num_experts hidden workspace l h =
    elim (Bool-cases (leb num_topk num_max_topk)) [
      | inr e ↦ absurd (cc (rw (e, combine_launch) at h))
      | inl e ↦ elim (Bool-cases (in_cases hidden hidden_cases)) [
        | inr g ↦ absurd (cc (rw (e, g, combine_launch) at h))
        | inl g ↦
            let row = in_cases-IsRow hidden g in
            let threads : l.num_threads ≡ 1024 = cc (rw (e, g, combine_launch) at h) in
            let wide : l.hidden ≡ hidden = cc (rw (e, g, combine_launch) at h) in
            let sms : l.num_sms ≡ cell_div num_experts num_warp_groups =
              cc (rw (e, g, combine_launch) at h) in
            (
              ground (arith, e, threads, wide, row.high),
              λ i lt. (i / 8, i % 8, omega (arith, sms, lt), omega arith, omega arith),
              cc (rw (e, g, combine_launch) at h),
            )
      ]
    ]
