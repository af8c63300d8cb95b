-- ===== src/Copies/Pointers.antt =====
-- Structs, slices and pointers in a heap, and how generated code copies them.
use kubeshark_operator.Common.{
  ℕ, ◌≤◌, ◌<◌, ◌≡◌, refl, ◌∙◌, ap, arith, Option, none, some, List, [], ◌∷◌, map, All,
}
use kubeshark_operator.Copies.Heap.{Heap, Agree, alloc, alloc-cell, alloc-Agree}
use kubeshark_operator.Copies.Layout.{
  Layout, Copier, IsDeepCopy, Lives-Copied, pair-Copied, Agree-trans, Agree-above,
}

-- A value without pointers.
abbrev pub flat_layout : {C T : Type 0} → Layout C T T
flat_layout = record {
  value = λ h t. t;
  Lives = λ lo hi h t. Unit {0};
  value-Agree = λ lo hi g h t l a. refl;
  Lives-Agree = λ lo hi g h t l a. tt;
  Lives-widen = λ lo hi lo' hi' h t p q l. tt;
}

-- `*out = *in`
abbrev pub copy_flat : {C T : Type 0} → Copier C T
copy_flat t h = (t, h)

pub copy_flat-IsDeepCopy : {C T : Type 0} → IsDeepCopy (flat_layout {C = C} {T = T}) copy_flat
copy_flat-IsDeepCopy t h l = record {
  grows = omega arith;
  old = λ a lo hi. refl;
  same = refl;
  fresh = tt;
}

-- A struct, some of whose fields hold pointers; the others are flat.
module _ {C S T V W : Type 0} (L : Layout C T V) (get : S → T) (make : S → V → W) where
  abbrev pub struct_layout : Layout C S W
  struct_layout = record {
    value = λ h s. make s (L.value h (get s));
    Lives = λ lo hi h s. L.Lives lo hi h (get s);
    value-Agree = λ lo hi g h s l a. ap (make s) (L.value-Agree lo hi g h (get s) l a);
    Lives-Agree = λ lo hi g h s l a. L.Lives-Agree lo hi g h (get s) l a;
    Lives-widen = λ lo hi lo' hi' h s p q l. L.Lives-widen lo hi lo' hi' h (get s) p q l;
  }

  abbrev pub copy_struct : (S → T → S) → Copier C T → Copier C S
  copy_struct put copy s h = let (t', h') = copy (get s) h in (put s t', h')

  pub copy_struct-IsDeepCopy :
      (put : S → T → S) (copy : Copier C T)
      → ((s : S) (t : T) → get (put s t) ≡ t)
      → ((s : S) (t : T) (v : V) → make (put s t) v ≡ make s v)
      → IsDeepCopy L copy
      → IsDeepCopy struct_layout (copy_struct put copy)
  copy_struct-IsDeepCopy put copy again made D s h l =
      let c = D (get s) h l in
      let t' = (copy (get s) h).0 in
      record {
        grows = c.grows;
        old = c.old;
        same = rw (again s t', made s t' (L.value (copy (get s) h).1 t'), c.same) refl;
        fresh = rw (again s t') c.fresh;
      }

-- `for i := range *in { (*in)[i].DeepCopyInto(&(*out)[i]) }`
abbrev pub copy_list : {C T : Type 0} → Copier C T → Copier C (List T)
copy_list copy [] h = ([], h)
copy_list copy (t ∷ ts) h =
    let (t', h1) = copy t h in let (ts', h2) = copy_list copy ts h1 in (t' ∷ ts', h2)

-- The elements of a slice.
module _ {C T V : Type 0} (L : Layout C T V) where
  pub list_value-Agree :
      (lo hi : ℕ) (g h : Heap C) (ts : List T)
      → All (L.Lives lo hi h) ts
      → Agree lo hi g h
      → map (L.value g) ts ≡ map (L.value h) ts
  list_value-Agree lo hi g h [] l a = refl
  list_value-Agree lo hi g h (t ∷ ts) (lt, l) a =
      rw (L.value-Agree lo hi g h t lt a, list_value-Agree lo hi g h ts l a)

  pub list_Lives-Agree :
      (lo hi : ℕ) (g h : Heap C) (ts : List T)
      → All (L.Lives lo hi h) ts
      → Agree lo hi g h
      → All (L.Lives lo hi g) ts
  list_Lives-Agree lo hi g h [] l a = tt
  list_Lives-Agree lo hi g h (t ∷ ts) (lt, l) a =
      (L.Lives-Agree lo hi g h t lt a, list_Lives-Agree lo hi g h ts l a)

  pub list_Lives-widen :
      (lo hi lo' hi' : ℕ) (h : Heap C) (ts : List T)
      → lo' ≤ lo
      → hi ≤ hi'
      → All (L.Lives lo hi h) ts
      → All (L.Lives lo' hi' h) ts
  list_Lives-widen lo hi lo' hi' h [] p q l = tt
  list_Lives-widen lo hi lo' hi' h (t ∷ ts) p q (lt, l) =
      (L.Lives-widen lo hi lo' hi' h t p q lt, list_Lives-widen lo hi lo' hi' h ts p q l)

  abbrev pub list_layout : Layout C (List T) (List V)
  list_layout = record {
    value = λ h ts. map (L.value h) ts;
    Lives = λ lo hi h ts. All (L.Lives lo hi h) ts;
    value-Agree = list_value-Agree;
    Lives-Agree = list_Lives-Agree;
    Lives-widen = list_Lives-widen;
  }

  pub copy_list-IsDeepCopy :
      (copy : Copier C T) → IsDeepCopy L copy → IsDeepCopy list_layout (copy_list copy)
  copy_list-IsDeepCopy copy D [] h l = record {
    grows = omega arith;
    old = λ a lo hi. refl;
    same = refl;
    fresh = tt;
  }
  copy_list-IsDeepCopy copy D (t ∷ ts) h (lt, l) =
      let first = D t h lt in
      let c =
        pair-Copied L list_layout l first
          (copy_list-IsDeepCopy copy D ts (copy t h).1 (Lives-Copied L list_layout first l)) in
      record { grows = c.grows; old = c.old; same = ap (λ p. p.0 ∷ p.1) c.same; fresh = c.fresh }

-- A pointer, map or slice: an address, or nil. A cell can be read as an `X`.
module _ {C X V W : Type 0} (L : Layout C X V) (read : C → X) (nil : W) (view : V → W) where
  abbrev pub pointer_value : Heap C → Option ℕ → W
  pointer_value h none = nil
  pointer_value h (some a) = view (L.value h (read (h.cells a)))

  abbrev pub PointerLives : ℕ → ℕ → Heap C → Option ℕ → Type 0
  PointerLives lo hi h none = Unit
  PointerLives lo hi h (some a) = (lo ≤ a) × (a < hi) × L.Lives lo hi h (read (h.cells a))

  pub pointer_value-Agree :
      (lo hi : ℕ) (g h : Heap C) (p : Option ℕ)
      → PointerLives lo hi h p
      → Agree lo hi g h
      → pointer_value g p ≡ pointer_value h p
  pointer_value-Agree lo hi g h none l same = refl
  pointer_value-Agree lo hi g h (some a) (low, high, l) same =
      rw (same a low high, L.value-Agree lo hi g h (read (h.cells a)) l same) refl

  pub PointerLives-Agree :
      (lo hi : ℕ) (g h : Heap C) (p : Option ℕ)
      → PointerLives lo hi h p
      → Agree lo hi g h
      → PointerLives lo hi g p
  PointerLives-Agree lo hi g h none l same = tt
  PointerLives-Agree lo hi g h (some a) (low, high, l) same =
      (low, high, rw (same a low high) (L.Lives-Agree lo hi g h (read (h.cells a)) l same))

  pub PointerLives-widen :
      (lo hi lo' hi' : ℕ) (h : Heap C) (p : Option ℕ)
      → lo' ≤ lo
      → hi ≤ hi'
      → PointerLives lo hi h p
      → PointerLives lo' hi' h p
  PointerLives-widen lo hi lo' hi' h none x y l = tt
  PointerLives-widen lo hi lo' hi' h (some a) x y (low, high, l) =
      (omega (arith, low, x), omega (arith, high, y), L.Lives-widen lo hi lo' hi' h _ x y l)

  abbrev pub pointer_layout : Layout C (Option ℕ) W
  pointer_layout = record {
    value = pointer_value;
    Lives = PointerLives;
    value-Agree = pointer_value-Agree;
    Lives-Agree = PointerLives-Agree;
    Lives-widen = PointerLives-widen;
  }

-- `if in != nil { *out = new or make; ... }`: what the cell holds is copied into a new cell. The new
-- cell gets its address when it is full.
module _ {C X : Type 0} (read : C → X) (write : X → C) (copy : Copier C X) where
  unfoldable pub copy_pointer : Copier C (Option ℕ)
  copy_pointer none h = (none, h)
  copy_pointer (some a) h =
      let (x, h1) = copy (read (h.cells a)) h in let (b, h2) = alloc (write x) h1 in (some b, h2)

module _ {C X V W : Type 0} (L : Layout C X V) (read : C → X) (write : X → C) (nil : W)
    (view : V → W) (copy : Copier C X) (again : (x : X) → read (write x) ≡ x) where
  pub copy_pointer-IsDeepCopy :
      IsDeepCopy L copy → IsDeepCopy (pointer_layout L read nil view) (copy_pointer read write copy)
  unfolding copy_pointer alloc
  copy_pointer-IsDeepCopy D none h l = record {
    grows = omega arith;
    old = λ a lo hi. refl;
    same = refl;
    fresh = tt;
  }
  copy_pointer-IsDeepCopy D (some a) h (low, high, l) =
      let x = (copy (read (h.cells a)) h).0 in
      let h1 = (copy (read (h.cells a)) h).1 in
      let h2 = (alloc (write x) h1).1 in
      let c = D (read (h.cells a)) h l in
      let kept = alloc-Agree (write x) h1 in
      let cell : read (h2.cells h1.next) ≡ x = ap read (alloc-cell (write x) h1) ∙ again x in
      let old : Agree 0 h.next h2 h = Agree-trans h.next h1.next h2 h1 h c.grows kept c.old in
      let above = Agree-above h.next h1.next h2 h1 kept in
      record {
        grows = omega (arith, c.grows);
        old = old;
        same = rw cell (ap view (L.value-Agree h.next h1.next h2 h1 x c.fresh above ∙ c.same));
        fresh = (
          c.grows,
          omega arith,
          rw cell (
              L.Lives-widen h.next h1.next h.next h2.next h2 x (omega arith) (omega arith)
                (L.Lives-Agree h.next h1.next h2 h1 x c.fresh above)),
        );
      }
