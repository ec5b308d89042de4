-- ===== src/EpBuffer/Handles.antt =====
-- src/ep_buffer.cpp: the IPC handle of a rank's buffer as words, from `get_ipc_handle` to the peers that
-- open it, and the pointers that the destructor closes. The 64 bytes of `cudaIpcMemHandle_t` are a list.
use ep_demo.Prelude.{
  ℕ, zero, suc, ◌+◌, ◌-◌, ◌*◌, ◌/◌, ◌%◌, ◌^◌, ◌<◌, ◌≡◌, refl, sym, ap, ◌∙◌, Bool, false,
  if◌then◌else◌, ◌==◌, ◌||◌, inl, inr, List, [], ◌∷◌, ◌++◌, length, length-append, get_or, All,
  Bool-cases, for_each, arith,
}
use ep_demo.Device.Bytes.{byte_at}

-- `sizeof(cudaIpcMemHandle_t)`, and as many words as hold it.
abbrev pub handle_size : ℕ
handle_size = 64

abbrev pub num_int32s : ℕ
num_int32s = (handle_size + 4 - 1) / 4

-- `memcpy` of the handle to the words, on a little-endian machine.
abbrev pub word_at : List ℕ → ℕ → ℕ
word_at bytes i =
    get_or bytes (4 * i) 0
    + get_or bytes (4 * i + 1) 0 * 2 ^ 8
    + get_or bytes (4 * i + 2) 0 * 2 ^ 16
    + get_or bytes (4 * i + 3) 0 * 2 ^ 24

-- The words of this rank's handle; none with fabric memory.
abbrev pub get_ipc_handle : Bool → List ℕ → List ℕ
get_ipc_handle use_fabric_mem handle =
    if use_fabric_mem then [] else for_each num_int32s (λ i. word_at handle i ∷ [])

-- `memcpy` of the words to a handle.
abbrev pub handle_of : List ℕ → List ℕ
handle_of handle_ints =
    for_each handle_size (λ k. byte_at (get_or handle_ints (k / 4) 0) (k % 4) ∷ [])

pub length-for_each : (n : ℕ) (f : ℕ → ℕ) → length (for_each n (λ i. f i ∷ [])) ≡ n
length-for_each zero f = refl
length-for_each (suc n) f =
    omega (arith, length-append (for_each n (λ i. f i ∷ [])) (f n ∷ []), length-for_each n f)

get_or-append_left :
    (xs ys : List ℕ) (k : ℕ) → k < length xs → get_or (xs ++ ys) k 0 ≡ get_or xs k 0
get_or-append_left [] ys k lt = absurd (omega (arith, lt))
get_or-append_left (x ∷ xs) ys zero lt = refl
get_or-append_left (x ∷ xs) ys (suc k) lt = get_or-append_left xs ys k (omega (arith, lt))

get_or_last : (xs : List ℕ) (y : ℕ) → get_or (xs ++ y ∷ []) (length xs) 0 ≡ y
get_or_last [] y = refl
get_or_last (x ∷ xs) y = get_or_last xs y

get_or-for_each :
    (n : ℕ) (f : ℕ → ℕ) (k : ℕ) → k < n → get_or (for_each n (λ i. f i ∷ [])) k 0 ≡ f k
get_or-for_each zero f k lt = absurd (omega (arith, lt))
get_or-for_each (suc n) f k lt = elim (Bool-cases (k == n)) [
  | inl e ↦
      let same : k ≡ n = ground (arith, e) in
      ap (λ j. get_or (for_each n (λ i. f i ∷ []) ++ f n ∷ []) j 0)
        (same ∙ sym (length-for_each n f))
      ∙ get_or_last (for_each n (λ i. f i ∷ [])) (f n)
      ∙ ap f (sym same)
  | inr e ↦
      let below : k < n = ground (arith, lt, e) in
      get_or-append_left (for_each n (λ i. f i ∷ [])) (f n ∷ []) k
        (omega (arith, length-for_each n f, below))
      ∙ get_or-for_each n f k below
]

-- A list is known by its length and its entries.
same_entries :
    (xs ys : List ℕ)
    → length xs ≡ length ys
    → ((k : ℕ) → k < length xs → get_or xs k 0 ≡ get_or ys k 0)
    → xs ≡ ys
same_entries [] [] e h = refl
same_entries [] (y ∷ ys) e h = absurd (omega (arith, e))
same_entries (x ∷ xs) [] e h = absurd (omega (arith, e))
same_entries (x ∷ xs) (y ∷ ys) e h =
    ap (λ a. a ∷ xs) (h 0 (omega arith))
    ∙ ap (λ l. y ∷ l)
        (same_entries xs ys (omega (arith, e)) (λ k lt. h (suc k) (omega (arith, lt))))

get_or-lt : (xs : List ℕ) (k : ℕ) → All (λ b. b < 256) xs → get_or xs k 0 < 256
get_or-lt [] k ok = omega arith
get_or-lt (x ∷ xs) zero ok = ok.0
get_or-lt (x ∷ xs) (suc k) ok = get_or-lt xs k ok.1

-- Byte `r` of a word that is put together from bytes.
byte_of :
    (f : ℕ → ℕ) (q r : ℕ)
    → r < 4
    → ((i : ℕ) → f i < 256)
    → byte_at (f q + f (q + 1) * 2 ^ 8 + f (q + 2) * 2 ^ 16 + f (q + 3) * 2 ^ 24) r ≡ f (q + r)
byte_of f q zero lt small = omega (arith, small q, ap f (first q))
  where
    first : (q : ℕ) → q + 0 ≡ q
    first q = omega arith
byte_of f q (suc zero) lt small = omega (arith, small q, small (q + 1))
byte_of f q (suc (suc zero)) lt small = omega (arith, small q, small (q + 1), small (q + 2))
byte_of f q (suc (suc (suc zero))) lt small =
    omega (arith, small q, small (q + 1), small (q + 2), small (q + 3))
byte_of f q (suc (suc (suc (suc r)))) lt small = absurd (omega (arith, lt))

byte-word :
    (f : ℕ → ℕ) (k : ℕ)
    → ((i : ℕ) → f i < 256)
    → byte_at
        (f (4 * (k / 4))
          + f (4 * (k / 4) + 1) * 2 ^ 8
          + f (4 * (k / 4) + 2) * 2 ^ 16
          + f (4 * (k / 4) + 3) * 2 ^ 24)
        (k % 4)
      ≡ f k
byte-word f k small = byte_of f (4 * (k / 4)) (k % 4) (omega arith) small ∙ ap f (omega arith)

-- The peers get back the bytes of the handle.
pub handle_of-get_ipc_handle :
    (handle : List ℕ)
    → length handle ≡ handle_size
    → All (λ b. b < 256) handle
    → handle_of (get_ipc_handle false handle) ≡ handle
handle_of-get_ipc_handle handle size bytes =
    same_entries (handle_of (get_ipc_handle false handle)) handle
      (length-for_each handle_size (byte (get_ipc_handle false handle)) ∙ sym size)
      (λ k lt.
        let inside : k < 64 =
          omega (arith, length-for_each handle_size (byte (get_ipc_handle false handle)), lt) in
        get_or-for_each handle_size (byte (get_ipc_handle false handle)) k inside
        ∙ ap (λ w. byte_at w (k % 4))
            (get_or-for_each 16 (word_at handle) (k / 4) (omega (arith, inside)))
        ∙ byte-word (λ i. get_or handle i 0) k (λ i. get_or-lt handle i bytes))
  where
    byte : List ℕ → ℕ → ℕ
    byte ints k = byte_at (get_or ints (k / 4) 0) (k % 4)

-- The destructor's loop over `ipc_peer_ptrs_host`: the pointers that it closes.
abbrev pub closed_handles : ℕ → ℕ → (ℕ → ℕ) → List ℕ
closed_handles num_ranks gdr_buffer ptrs =
    for_each num_ranks (λ i. if (ptrs i == 0) || (ptrs i == gdr_buffer) then [] else ptrs i ∷ [])
