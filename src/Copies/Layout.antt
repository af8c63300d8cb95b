-- ===== src/Copies/Layout.antt =====
-- How values lie in a heap, and what a deep copy is.
use kubeshark_operator.Common.{ℕ, ◌≤◌, ◌≡◌, refl, ◌∙◌, arith}
use kubeshark_operator.Copies.Heap.{Heap, Agree}

-- `T` is what a variable holds, pointers included, and `V` is what can be read from it. All cells
-- that are read lie between two addresses.
pub record Layout (C T V : Type 0) : Type 1 where
  pub value : Heap C → T → V
  pub Lives : ℕ → ℕ → Heap C → T → Type 0
  pub value-Agree :
      (lo hi : ℕ) (g h : Heap C) (t : T) → Lives lo hi h t → Agree lo hi g h → value g t ≡ value h t
  pub Lives-Agree :
      (lo hi : ℕ) (g h : Heap C) (t : T) → Lives lo hi h t → Agree lo hi g h → Lives lo hi g t
  pub Lives-widen :
      (lo hi lo' hi' : ℕ) (h : Heap C) (t : T)
      → lo' ≤ lo
      → hi ≤ hi'
      → Lives lo hi h t
      → Lives lo' hi' h t

-- After a copy, what was in the heap is as it was. The copy reads the same, and all its cells are
-- new.
pub record Copied {C T V : Type 0} (L : Layout C T V) (h : Heap C) (t : T) (t' : T) (h' : Heap C)
    : Type 0 where
  pub grows : h.next ≤ h'.next
  pub old : Agree 0 h.next h' h
  pub same : L.value h' t' ≡ L.value h t
  pub fresh : L.Lives h.next h'.next h' t'

abbrev pub Copier : Type 0 → Type 0 → Type 0
Copier C T = T → Heap C → T × Heap C

-- The function makes deep copies of what lives in the heap.
abbrev pub IsDeepCopy : {C T V : Type 0} → Layout C T V → Copier C T → Type 0
IsDeepCopy {C} {T} L copy =
    (t : T) (h : Heap C) → L.Lives 0 h.next h t → Copied L h t (copy t h).0 (copy t h).1

pub Agree-trans :
    {C : Type 0} (n m : ℕ) (f g h : Heap C) → n ≤ m → Agree 0 m f g → Agree 0 n g h → Agree 0 n f h
Agree-trans n m f g h le x y a lo hi = x a lo (omega arith) ∙ y a lo hi

pub Agree-above : {C : Type 0} (lo hi : ℕ) (g h : Heap C) → Agree 0 hi g h → Agree lo hi g h
Agree-above lo hi g h x a low high = x a (omega arith) high

-- Two values side by side.
abbrev pub pair_layout :
    {C S T V W : Type 0} → Layout C S V → Layout C T W → Layout C (S × T) (V × W)
pair_layout L M = record {
  value = λ h t. (L.value h t.0, M.value h t.1);
  Lives = λ lo hi h t. L.Lives lo hi h t.0 × M.Lives lo hi h t.1;
  value-Agree = λ lo hi g h t l a.
      rw (L.value-Agree lo hi g h t.0 l.0 a, M.value-Agree lo hi g h t.1 l.1 a) refl;
  Lives-Agree =
      λ lo hi g h t l a. (L.Lives-Agree lo hi g h t.0 l.0 a, M.Lives-Agree lo hi g h t.1 l.1 a);
  Lives-widen = λ lo hi lo' hi' h t p q l.
      (L.Lives-widen lo hi lo' hi' h t.0 p q l.0, M.Lives-widen lo hi lo' hi' h t.1 p q l.1);
}

abbrev pub copy_pair : {C S T : Type 0} → Copier C S → Copier C T → Copier C (S × T)
copy_pair f g (s, t) h = let (s', h1) = f s h in let (t', h2) = g t h1 in ((s', t'), h2)

module _ {C S T V W : Type 0} (L : Layout C S V) (M : Layout C T W) {s s' : S} {t : T}
    {h h1 : Heap C} where
  -- What lives in the heap lives on when something else has been copied.
  pub Lives-Copied : Copied L h s s' h1 → M.Lives 0 h.next h t → M.Lives 0 h1.next h1 t
  Lives-Copied first l =
      M.Lives-widen 0 h.next 0 h1.next h1 t (omega arith) first.grows
        (M.Lives-Agree 0 h.next h1 h t l first.old)

  -- Two copies, one after the other.
  pub pair-Copied :
      {t' : T} {h2 : Heap C}
      → M.Lives 0 h.next h t
      → Copied L h s s' h1
      → Copied M h1 t t' h2
      → Copied (pair_layout L M) h (s, t) (s', t') h2
  pair-Copied {t'} {h2} l first second =
      let above = Agree-above h.next h1.next h2 h1 second.old in
      record {
        grows = omega (arith, first.grows, second.grows);
        old = Agree-trans h.next h1.next h2 h1 h first.grows second.old first.old;
        same =
            rw
              (
                L.value-Agree h.next h1.next h2 h1 s' first.fresh above,
                first.same,
                second.same,
                M.value-Agree 0 h.next h1 h t l first.old,
              )
              refl;
        fresh = (
          L.Lives-widen h.next h1.next h.next h2.next h2 s' (omega arith) second.grows
              (L.Lives-Agree h.next h1.next h2 h1 s' first.fresh above),
          M.Lives-widen h1.next h2.next h.next h2.next h2 t' first.grows (omega arith) second.fresh,
        );
      }

module _ {C S T V W : Type 0} (L : Layout C S V) (M : Layout C T W) (f : Copier C S)
    (g : Copier C T) where
  pub copy_pair-IsDeepCopy :
      IsDeepCopy L f → IsDeepCopy M g → IsDeepCopy (pair_layout L M) (copy_pair f g)
  copy_pair-IsDeepCopy F G (s, t) h (ls, lt) =
      let first = F s h ls in pair-Copied L M lt first (G t (f s h).1 (Lives-Copied L M first lt))
