-- ===== src/EpBuffer/Object/Held.antt =====
-- What an object holds after its constructor and after its destructor.
use mathlib.Core.Path.{subst}
use ep_demo.Prelude.{
  ℕ, ◌<◌, ◌≡◌, inl, inr, refl, sym, ap, ◌∙◌, Bool, true, false, not, if◌then◌else◌, List, [], ◌∷◌,
  length, Bool-cases, Option-cases, All,
}
use ep_demo.EpBuffer.{support_fabric_mem}
use ep_demo.EpBuffer.InitIbgda.{Ibgda, IbgdaResult, ready, refused, threw, endless, init_ibgda}
use ep_demo.EpBuffer.InitIbgda.Held.{IsLeft, IsFresh, init_ibgda-IsLeft}
use ep_demo.EpBuffer.Object.{
  Buffers, no_buffers, FabricAnswers, alloc_fabric, cuda_checks, table_checks, Host, Constructed,
  object, thrown, never, HostAnswers, construct_workspace, after_init, construct_tables, construct,
  destroy,
}

-- What a whole object holds, with and without fabric memory.
abbrev pub all_buffers : Bool → Buffers
all_buffers fabric = record {
  fabric_handle = fabric;
  fabric_range = fabric;
  fabric_mapping = fabric;
  gdr_buffer = not fabric;
  raddrs = true;
  rkeys = true;
  qp_devctxs = true;
  nvlink_available = true;
  ipc_peer_ptrs_host = true;
  ipc_peer_ptrs = true;
  comm_stream = true;
  workspace = true;
}

-- The buffers of a fabric allocation are all there or all gone.
abbrev pub IsWhole : Buffers → Type 0
IsWhole b = (b.fabric_range ≡ b.fabric_handle) × (b.fabric_mapping ≡ b.fabric_handle)

-- An object is whole, and IBGDA is enabled only with a queue pair for each round; where the constructor
-- throws, no part of a fabric allocation is left without the others.
abbrev pub IsConstructed : ℕ → Constructed → Type 0
IsConstructed n (object h) =
    (h.buffers ≡ all_buffers h.use_fabric_mem)
    × (h.ibgda_disabled ≡ false → (length h.ibgda.qps ≡ n) × (h.ibgda.ctrl_buf_umem ≡ true))
    × (h.ibgda_disabled ≡ true → length h.ibgda.qps < n)
IsConstructed n (thrown h) = IsWhole h.buffers
IsConstructed n never = ⊥

-- The effects of calls that all succeed.
abbrev effects : List (Bool × (Buffers → Buffers)) → Buffers → Buffers
effects [] b = b
effects ((ok, effect) ∷ rest) b = effects rest (effect b)

cuda_checks-effects :
    (cs : List (Bool × (Buffers → Buffers))) (b : Buffers)
    → (cuda_checks cs b).0 ≡ true
    → (cuda_checks cs b).1 ≡ effects cs b
cuda_checks-effects [] b h = refl
cuda_checks-effects ((true, effect) ∷ rest) b h = cuda_checks-effects rest (effect b) h
cuda_checks-effects ((false, effect) ∷ rest) b h = cc h

-- Calls that keep fabric memory whole do so wherever they stop.
cuda_checks-IsWhole :
    (cs : List (Bool × (Buffers → Buffers))) (b : Buffers)
    → All (λ c. (b : Buffers) → IsWhole b → IsWhole (c.1 b)) cs
    → IsWhole b
    → IsWhole (cuda_checks cs b).1
cuda_checks-IsWhole [] b keeps h = h
cuda_checks-IsWhole ((true, effect) ∷ rest) b keeps h =
    cuda_checks-IsWhole rest (effect b) keeps.1 (keeps.0 b h)
cuda_checks-IsWhole ((false, effect) ∷ rest) b keeps h = h

IsConstructed-if :
    (n : ℕ) (b : Bool) (x y : Constructed)
    → (b ≡ true → IsConstructed n x)
    → (b ≡ false → IsConstructed n y)
    → IsConstructed n (if b then x else y)
IsConstructed-if n true x y p q = p refl
IsConstructed-if n false x y p q = q refl

-- Before the workspace.
abbrev without_workspace : Bool → Buffers
without_workspace fabric = record (all_buffers fabric) { workspace = false }

construct_workspace-IsConstructed :
    (n : ℕ) (a : HostAnswers) (h : Host)
    → h.buffers ≡ without_workspace h.use_fabric_mem
    → (h.ibgda_disabled ≡ false → (length h.ibgda.qps ≡ n) × (h.ibgda.ctrl_buf_umem ≡ true))
    → (h.ibgda_disabled ≡ true → length h.ibgda.qps < n)
    → IsConstructed n (construct_workspace a h)
construct_workspace-IsConstructed n a h b on off =
    IsConstructed-if n (not a.workspace_ok) _ _ (λ q. rw b (refl, refl))
      (λ q.
        IsConstructed-if n a.clear_workspace_ok _ _
          (λ g. (ap {A = Buffers} (λ c. record c { workspace = true }) b, on, off))
          (λ g. rw b (refl, refl)))

after_init-IsConstructed :
    (n : ℕ) (a : HostAnswers) (h : Host) (r : IbgdaResult)
    → h.buffers ≡ without_workspace h.use_fabric_mem
    → h.ibgda_disabled ≡ false
    → IsLeft h.ibgda.world n r
    → IsConstructed n (after_init a h r)
after_init-IsConstructed n a h (ready t) b e left =
    construct_workspace-IsConstructed n a (record h { ibgda = t }) b (λ q. (left.6, left.4))
      (λ q. cc (sym e ∙ q))
after_init-IsConstructed n a h (refused t) b e left =
    construct_workspace-IsConstructed n a (record h { ibgda = t; ibgda_disabled = true }) b
      (λ q. cc q) (λ q. left.0)
after_init-IsConstructed n a h (threw t) b e left = rw b (refl, refl)
after_init-IsConstructed n a h endless b e left = left

module _ (a : HostAnswers) (s : Ibgda) (fresh : IsFresh s)
    (some_round : 0 < length a.ibgda_answers.rounds) where
  abbrev with_buffer : Bool → Host
  with_buffer fabric = record {
    use_fabric_mem = fabric;
    ibgda_disabled = false;
    buffers = record no_buffers {
      fabric_handle = fabric;
      fabric_range = fabric;
      fabric_mapping = fabric;
      gdr_buffer = not fabric;
    };
    ibgda = s;
  }

  construct_tables-IsConstructed :
      (fabric : Bool)
      → IsConstructed (length a.ibgda_answers.rounds) (construct_tables a (with_buffer fabric))
  construct_tables-IsConstructed fabric =
      IsConstructed-if _ (cuda_checks (table_checks a.tables) (with_buffer fabric).buffers).0 _ _
        (λ q.
          after_init-IsConstructed _ a
            (record (with_buffer fabric) {
              buffers = (cuda_checks (table_checks a.tables) (with_buffer fabric).buffers).1;
            })
            (init_ibgda a.ibgda_answers s)
            (cuda_checks-effects (table_checks a.tables) (with_buffer fabric).buffers q) refl
            (init_ibgda-IsLeft a.ibgda_answers s fresh some_round))
        (λ q.
          cuda_checks-IsWhole (table_checks a.tables) (with_buffer fabric).buffers
            (
              (λ b h. h),
              (
                (λ b h. h),
                (
                  (λ b h. h),
                  (
                    (λ b h. h),
                    ((λ b h. h), ((λ b h. h), ((λ b h. h), ((λ b h. h), ((λ b h. h), tt))))),
                  ),
                ),
              ),
            )
            (refl, refl))

-- A fabric allocation that fails gives back every part that it had.
abbrev IsFabric : Bool × Buffers × ℕ → Type 0
IsFabric (true, b, size) =
    b ≡ record no_buffers { fabric_handle = true; fabric_range = true; fabric_mapping = true }
IsFabric (false, b, size) = b ≡ no_buffers

IsFabric-if :
    (b : Bool) (x y : Bool × Buffers × ℕ) → IsFabric x → IsFabric y → IsFabric (if b then x else y)
IsFabric-if true x y p q = p
IsFabric-if false x y p q = q

alloc_fabric-IsFabric : (a : FabricAnswers) (n : ℕ) → IsFabric (alloc_fabric a n no_buffers)
alloc_fabric-IsFabric a n =
    IsFabric-if (not a.device_get) _ _ refl (elim (Option-cases a.granularity) [
      | inl e ↦ rw (e) refl
      | inr e ↦ rw (e.1) (
          IsFabric-if (not a.create_ok) _ _ refl (
            IsFabric-if (not a.reserve_ok) _ _ refl (
              IsFabric-if (not a.map_ok) _ _ refl
                (IsFabric-if (not a.set_access_ok) _ _ refl refl))))
    ])

construct_fabric-IsConstructed :
    (a : HostAnswers) (n : ℕ) (s : Ibgda)
    → IsFresh s
    → 0 < length a.ibgda_answers.rounds
    → (x : Bool × Buffers × ℕ) → IsFabric x
    → IsConstructed (length a.ibgda_answers.rounds) (
        let h1 : Host = record {
          use_fabric_mem = true;
          ibgda_disabled = false;
          buffers = x.1;
          ibgda = s;
        } in
        if x.0 then construct_tables a h1 else thrown h1)
construct_fabric-IsConstructed a n s fresh some_round (true, b, size) h =
    rw h (construct_tables-IsConstructed a s fresh some_round true)
construct_fabric-IsConstructed a n s fresh some_round (false, b, size) h = rw h (refl, refl)

-- The constructor ends. An object that it makes is whole, and IBGDA is enabled exactly if there is a queue
-- pair for each round; where it throws, no part of a fabric allocation is left without the others.
pub construct-IsConstructed :
    (a : HostAnswers) (n : ℕ) (s : Ibgda)
    → IsFresh s
    → 0 < length a.ibgda_answers.rounds
    → IsConstructed (length a.ibgda_answers.rounds) (construct a n s)
construct-IsConstructed a n s fresh some_round =
    IsConstructed-if _ (not a.get_device_ok) _ _ (λ q. (refl, refl))
      (λ q.
        IsConstructed-if _ (not a.get_attribute_ok) _ _ (λ q. (refl, refl))
          (λ q.
            IsConstructed-if _ (support_fabric_mem a.nvlink_ipc_off a.devices) _ _
              (λ q.
                construct_fabric-IsConstructed a n s fresh some_round
                  (alloc_fabric a.fabric n no_buffers) (alloc_fabric-IsFabric a.fabric n))
              (λ q.
                IsConstructed-if _ a.malloc_ok _ _
                  (λ q. construct_tables-IsConstructed a s fresh some_round false)
                  (λ q. (refl, refl)))))

-- Destroying an object frees all that the constructor has allocated itself, with fabric memory or without,
-- and nothing of what `init_ibgda` took: its queue pairs, control buffer, memory region, protection domain
-- and context stay.
pub destroy-construct :
    (a : HostAnswers) (n : ℕ) (s : Ibgda) (h : Host)
    → IsFresh s
    → 0 < length a.ibgda_answers.rounds
    → construct a n s ≡ object h
    → ((destroy h).buffers ≡ no_buffers)
      × ((destroy h).ibgda ≡ h.ibgda)
      × (h.ibgda_disabled ≡ false
          → (length (destroy h).ibgda.qps ≡ length a.ibgda_answers.rounds)
            × ((destroy h).ibgda.ctrl_buf_umem ≡ true))
destroy-construct a n s h fresh some_round e =
    let made =
      subst (IsConstructed (length a.ibgda_answers.rounds)) e
        (construct-IsConstructed a n s fresh some_round) in
    (freed h made.0, refl, made.1)
  where
    freed : (h : Host) → h.buffers ≡ all_buffers h.use_fabric_mem → (destroy h).buffers ≡ no_buffers
    freed h b = elim (Bool-cases h.use_fabric_mem) [
      | inl q ↦ rw (destroy, b, q) refl
      | inr q ↦ rw (destroy, b, q) refl
    ]
