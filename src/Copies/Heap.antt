-- ===== src/Copies/Heap.antt =====
-- A heap: cells at addresses, of which those below `next` are in use.
use kubeshark_operator.Common.{
  ℕ, zero, suc, Bool, true, false, ◌≤◌, ◌<◌, ◌≡◌, refl, arith, if◌then◌else◌,
}

pub record Heap (C : Type 0) : Type 0 where
  pub next : ℕ
  pub cells : ℕ → C

unfoldable pub same_address : ℕ → ℕ → Bool
same_address zero zero = true
same_address zero (suc b) = false
same_address (suc a) zero = false
same_address (suc a) (suc b) = same_address a b

-- A new cell, and its address.
unfoldable pub alloc : {C : Type 0} → C → Heap C → ℕ × Heap C
unfolding same_address
alloc c h = (
  h.next,
  record { next = suc h.next; cells = λ a. if same_address a h.next then c else h.cells a },
)

-- The two heaps have the same cells from `lo` up to `hi`.
abbrev pub Agree : {C : Type 0} → ℕ → ℕ → Heap C → Heap C → Type 0
Agree lo hi g h = (a : ℕ) → lo ≤ a → a < hi → g.cells a ≡ h.cells a

same_address_self : (a : ℕ) → same_address a a ≡ true
unfolding same_address
same_address_self zero = refl
same_address_self (suc a) = same_address_self a

same_address_below : (a b : ℕ) → a < b → same_address a b ≡ false
unfolding same_address
same_address_below zero zero h = ground arith
same_address_below zero (suc b) h = refl
same_address_below (suc a) zero h = refl
same_address_below (suc a) (suc b) h = same_address_below a b (omega arith)

module _ {C : Type 0} (c : C) (h : Heap C) where
  pub alloc-cell : (alloc c h).1.cells h.next ≡ c
  unfolding alloc
  alloc-cell = rw (same_address_self h.next)

  pub alloc-Agree : Agree 0 h.next (alloc c h).1 h
  unfolding alloc
  alloc-Agree a lo hi = rw (same_address_below a h.next hi)

-- `*b = c`
unfoldable pub overwrite : {C : Type 0} → ℕ → C → Heap C → Heap C
unfolding same_address
overwrite b c h = record h { cells = λ a. if same_address a b then c else h.cells a }

same_address_above : (a b : ℕ) → b < a → same_address a b ≡ false
unfolding same_address
same_address_above zero b h = ground arith
same_address_above (suc a) zero h = refl
same_address_above (suc a) (suc b) h = same_address_above a b (omega arith)

-- What is written is there, and the cells before and after it stay.
module _ {C : Type 0} (b : ℕ) (c : C) (h : Heap C) where
  pub overwrite-cell : (overwrite b c h).cells b ≡ c
  unfolding overwrite
  overwrite-cell = rw (same_address_self b)

  pub overwrite-Agree_below : (lo hi : ℕ) → hi ≤ b → Agree lo hi (overwrite b c h) h
  unfolding overwrite
  overwrite-Agree_below lo hi le a low high = rw (same_address_below a b (omega arith))

  pub overwrite-Agree_above : (lo hi : ℕ) → b < lo → Agree lo hi (overwrite b c h) h
  unfolding overwrite
  overwrite-Agree_above lo hi le a low high = rw (same_address_above a b (omega arith))
