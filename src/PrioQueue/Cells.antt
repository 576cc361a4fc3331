-- ===== src/PrioQueue/Cells.antt =====
-- What a linked list of nodes stands for: the address and the job of each node, in order.
use pronto.Prelude.{
  ℕ, suc, ◌≡◌, inl, inr, Bool-cases, refl, ◌≢◌, Bool, true, false, ◌||◌, some, List, [], ◌∷◌, ◌++◌,
  arith, ◌==◌, ltb, if◌then◌else◌, length,
}
use pronto.PrioQueue.Memory.{Ptr, null, Job, node, Store}

abbrev pub Cells : Type 0
Cells = List (Ptr × Job)

-- The address of the first cell, NULL if there is none.
abbrev pub first : Cells → Ptr
first [] = null
first ((p, _) ∷ xs) = p

-- The address of the last cell, or `d`.
abbrev pub last_or : Ptr → Cells → Ptr
last_or d [] = d
last_or d ((p, _) ∷ xs) = last_or p xs

abbrev pub has : Ptr → Cells → Bool
has a [] = false
has a ((p, _) ∷ xs) = (a == p) || has a xs

abbrev pub jobs : Cells → List ℕ
jobs [] = []
jobs ((_, j) ∷ xs) = j.request ∷ jobs xs

-- In `h` each cell is a node that points at the next one, the last at NULL, and no two are one.
abbrev pub Chain : Store → Cells → Type 0
Chain h [] = Unit
Chain h ((p, j) ∷ xs) =
    (p ≢ null) × (h p ≡ some (node j (first xs))) × (has p xs ≡ false) × Chain h xs

-- The cells that `walk` passes on its way to a request `r`, and those that are left.
abbrev pub below : ℕ → Cells → Cells
below r [] = []
below r ((p, j) ∷ xs) = if ltb j.request r then (p, j) ∷ below r xs else []

abbrev pub above : ℕ → Cells → Cells
above r [] = []
above r ((p, j) ∷ xs) = if ltb j.request r then above r xs else (p, j) ∷ xs

pub below-append-above : (r : ℕ) (xs : Cells) → below r xs ++ above r xs ≡ xs
below-append-above r [] = refl
below-append-above r ((p, j) ∷ xs) = ground (arith, below-append-above r xs)

module _ {h : Store} where
  -- A list survives any change that spares its own addresses.
  pub Chain-frame :
      (g : Store) (xs : Cells) → Chain h xs → ((a : Ptr) → has a xs ≡ true → g a ≡ h a) → Chain g xs
  Chain-frame g [] c same = tt
  Chain-frame g ((p, j) ∷ xs) (ne, at, out, c) same =
      (ne, ground (arith, same p), out, Chain-frame g xs c (λ a m. same a (ground arith)))

pub has-append : (a : Ptr) (xs ys : Cells) → has a (xs ++ ys) ≡ (has a xs || has a ys)
has-append a [] ys = refl
has-append a ((p, j) ∷ xs) ys = ground (arith, has-append a xs ys)

pub length-append :
    (xs : Cells) (c : Ptr × Job) (ys : Cells) → length (xs ++ c ∷ ys) ≡ suc (length (xs ++ ys))
length-append [] c ys = refl
length-append (x ∷ xs) c ys = omega (arith, length-append xs c ys)

pub last_or-mem : (d : Ptr) (x : Ptr × Job) (xs : Cells) → has (last_or d (x ∷ xs)) (x ∷ xs) ≡ true
last_or-mem d (p, j) [] = ground arith
last_or-mem d (p, j) (y ∷ xs) = ground (arith, last_or-mem p y xs)

pub last_or-append :
    (d : Ptr) (xs : Cells) (y : Ptr × Job) (ys : Cells) → last_or d (xs ++ y ∷ ys) ≡ last_or y.0 ys
last_or-append d [] (p, j) ys = refl
last_or-append d ((q, k) ∷ xs) y ys = last_or-append q xs y ys

-- An address outside a list is none of its addresses.
pub ne-mem : (a p : Ptr) (xs : Cells) → has a xs ≡ false → has p xs ≡ true → (a == p) ≡ false
ne-mem a p [] out m = cc
ne-mem a p ((q, k) ∷ xs) out m = elim (Bool-cases (p == q)) [
  | inl e ↦ ground arith
  | inr e ↦ ne-mem a p xs (ground arith) (ground arith)
]

-- The last cell of a part is a node of the store, and points at what follows.
pub last-node :
    (h : Store) (p : Ptr) (j : Job) (xs ys : Cells)
    → Chain h (((p, j) ∷ xs) ++ ys)
    → (w : Job) × (last_or p xs ≢ null) × (h (last_or p xs) ≡ some (node w (first ys)))
last-node h p j [] ys (ne, at, out, c) = (j, ne, at)
last-node h p j ((q, k) ∷ xs) ys (ne, at, out, c) = last-node h q k xs ys c

pub last-mem : (p : Ptr) (j : Job) (xs ys : Cells) → has (last_or p xs) (((p, j) ∷ xs) ++ ys) ≡ true
last-mem p j [] ys = ground arith
last-mem p j ((q, k) ∷ xs) ys = ground (arith, last-mem q k xs ys)

-- `g` differs from `h` at most at the new node and at the nodes of the list.
abbrev pub SameOutside : Ptr → Cells → Store → Store → Type 0
SameOutside el xs h g = (a : Ptr) → (a == el) ≡ false → has a xs ≡ false → g a ≡ h a

abbrev pub insert : Ptr → Job → Cells → Cells
insert el v xs = below v.request xs ++ (el, v) ∷ above v.request xs

pub Chain-ne_null :
    (h : Store) (p : Ptr) (j : Job) (xs : Cells) (s : Ptr) (k : Job) (ys : Cells)
    → Chain h (((p, j) ∷ xs) ++ (s, k) ∷ ys)
    → s ≢ null
Chain-ne_null h p j [] s k ys (ne, at, out, c) = c.0
Chain-ne_null h p j ((q, i) ∷ xs) s k ys (ne, at, out, c) = Chain-ne_null h q i xs s k ys c

pub Chain-suffix : (h : Store) (xs ys : Cells) → Chain h (xs ++ ys) → Chain h ys
Chain-suffix h [] ys c = c
Chain-suffix h ((p, j) ∷ xs) ys (ne, at, out, c) = Chain-suffix h xs ys c

-- The last node points at NULL.
pub Chain-last :
    (h : Store) (p : Ptr) (j : Job) (xs : Cells)
    → Chain h ((p, j) ∷ xs)
    → (w : Job) × (last_or p xs ≢ null) × (h (last_or p xs) ≡ some (node w null))
Chain-last h p j [] (ne, at, out, c) = (j, ne, at)
Chain-last h p j ((q, k) ∷ xs) (ne, at, out, c) = Chain-last h q k xs c
