-- ===== src/Telemetry/RingBuffer/Window.antt =====
-- The elements between two counters of the ring buffer, and what its two loops do to them.
use native.Mathlib.Nat.{mod-add-mod, mod-eq_of_lt, mod-eq-sub-mod, add-zero, add_assoc}
use native.Mathlib.Numerals.{add-one}
use iicpc_distributed_benchm.Base.{
  ℕ, zero, suc, ◌+◌, ◌-◌, ◌%◌, ◌≤◌, ◌<◌, ◌≡◌, ◌≢◌, refl, ap, ap₂, sym, ◌∙◌, List, [], ◌∷◌, ◌++◌,
  Option, none, some, length, get_elem?, set, take, drop, get_elem?-set_self, get_elem?-set_ne,
  get_elem?-lt, take-suc-set, drop-set, append_assoc, take-append-drop, dec_lt, arith, add64,
  u64_mod, length-set,
}
use iicpc_distributed_benchm.Telemetry.RingBuffer.{RingBuffer, copy_elem, copy_loop}

module _ {A : Type 0} where
  abbrev pub cons_elem : Option A → List A → List A
  cons_elem none xs = xs
  cons_elem (some x) xs = x ∷ xs

  -- The `n` elements from counter `pos` on.
  abbrev pub window : List A → ℕ → ℕ → ℕ → List A
  window buf size pos zero = []
  window buf size pos (suc n) = cons_elem (get_elem? buf (pos % size)) (window buf size (pos + 1) n)

  -- What is stored, oldest first.
  abbrev pub contents : RingBuffer A → List A
  contents r = window r.buf r.size r.read (r.write - r.read)

  module _ (buf : List A) (size : ℕ) (storage : length buf ≡ size) (positive : 0 < size) where
    pub length-window : (pos n : ℕ) → length (window buf size pos n) ≡ n
    length-window pos zero = refl
    length-window pos (suc n) =
        let (x, e) = get_elem?-lt buf (pos % size) (omega arith) in
        rw e (ap suc (length-window (pos + 1) n))

    pub take-window : (pos n m : ℕ) → n ≤ m → take n (window buf size pos m) ≡ window buf size pos n
    take-window pos zero m h = refl
    take-window pos (suc n) zero h = elim h [ ]
    take-window pos (suc n) (suc m) h =
        let (x, e) = get_elem?-lt buf (pos % size) (omega arith) in
        rw e (ap (◌∷◌ x) (take-window (pos + 1) n m (omega arith)))

    pub drop-window :
        (pos n m : ℕ) → n ≤ m → drop n (window buf size pos m) ≡ window buf size (pos + n) (m - n)
    drop-window pos zero m h = ap₂ (window buf size) (omega arith) (omega arith)
    drop-window pos (suc n) zero h = elim h [ ]
    drop-window pos (suc n) (suc m) h =
        let (x, e) = get_elem?-lt buf (pos % size) (omega arith) in
        rw e (
          drop-window (pos + 1) n m (omega arith)
          ∙ ap₂ (window buf size) (omega arith) (omega arith))

-- Fewer than `size` counters further on, another slot is meant.
pub add-mod-ne : (size pos k : ℕ) → 0 < k → k < size → (pos + k) % size ≢ pos % size
add-mod-ne size pos k hk hs e = elim (dec_lt (pos % size + k) size) [
  | yes p ↦ omega (arith, mod-add-mod pos size k, mod-eq_of_lt p)
  | no p ↦ omega (
    arith,
    mod-add-mod pos size k,
    mod-eq-sub-mod {n = pos % size + k} {m = size} (omega arith),
    mod-eq_of_lt {n = pos % size + k - size} {m = size} (omega arith),
  )
]

module _ {A : Type 0} where
  -- Writing at the counter just past a window extends the window.
  pub window-set :
      (buf : List A) (size : ℕ) (x : A) (n pos i : ℕ)
      → length buf ≡ size
      → n < size
      → i ≡ (pos + n) % size
      → window (set buf i x) size pos (suc n) ≡ window buf size pos n ++ x ∷ []
  window-set buf size x zero pos i storage h e =
      let e' : pos % size ≡ i = sym (e ∙ ap (λ t. t % size) (add-zero pos)) in
      rw (e', get_elem?-set_self buf i x (omega arith))
  window-set buf size x (suc n) pos i storage h e =
      let (y, at) = get_elem?-lt buf (pos % size) (omega arith) in
      let other : i ≢ pos % size = rw e (add-mod-ne size pos (suc n) (omega arith) h) in
      rw (get_elem?-set_ne buf x other, at)
        (ap (◌∷◌ y) (window-set buf size x n (pos + 1) i storage (omega arith) (e ∙ shift)))
    where
      shift : (pos + suc n) % size ≡ (pos + 1 + n) % size
      shift = ap (λ t. t % size) (omega arith)

  copy_elem-some :
      (src dst : List A) (i j : ℕ) {x : A}
      → get_elem? src j ≡ some x
      → copy_elem src j dst i ≡ set dst i x
  copy_elem-some src dst i j e = rw (e, copy_elem)

  -- The loop of `PopInto` replaces a stretch of `dst` by a window.
  pub copy_loop_lem :
      (r : RingBuffer A) (k i : ℕ) (dst : List A)
      → length r.buf ≡ r.size
      → 0 < r.size
      → r.read + i + k ≤ u64_mod
      → i + k ≤ length dst
      → copy_loop r k i dst ≡ take i dst ++ (window r.buf r.size (r.read + i) k ++ drop (i + k) dst)
  unfolding copy_loop
  copy_loop_lem r zero i dst storage positive room h =
      sym (ap (λ t. take i dst ++ drop t dst) (add-zero i) ∙ take-append-drop i dst)
  copy_loop_lem r (suc k) i dst storage positive room h =
      let (x, at) = get_elem?-lt r.buf ((r.read + i) % r.size) (omega arith) in
      step x at (
        copy_loop_lem r k (i + 1) (set dst i x) storage positive (omega arith)
          (omega (arith, length-set dst i x)))
    where
      step :
          (x : A)
          → get_elem? r.buf ((r.read + i) % r.size) ≡ some x
          → copy_loop r k (i + 1) (set dst i x)
            ≡ take (i + 1) (set dst i x)
              ++ (window r.buf r.size (r.read + (i + 1)) k ++ drop (i + 1 + k) (set dst i x))
          → copy_loop r (suc k) i dst
            ≡ take i dst ++ (window r.buf r.size (r.read + i) (suc k) ++ drop (i + suc k) dst)
      step x at ih =
          let small : add64 r.read i ≡ r.read + i = omega arith in
          let one_more : take (i + 1) (set dst i x) ≡ take i dst ++ x ∷ [] =
            rw add-one (take-suc-set dst i x (omega arith)) in
          let rest : drop (i + 1 + k) (set dst i x) ≡ drop (i + suc k) dst =
            drop-set dst i (i + 1 + k) x (omega arith) ∙ ap (λ t. drop t dst) (omega arith) in
          rw (small, copy_elem-some r.buf dst i _ at, ih, one_more, rest, at, add_assoc)
            (append_assoc (take i dst) (x ∷ []) _)
