-- ===== src/PrioQueue/Memory/Laws.antt =====
-- What the commands do at a pointer to a node.
use pronto.Prelude.{ℕ, ◌≡◌, refl, ◌≢◌, false, some, arith, ◌==◌, ==_refl}
use pronto.PrioQueue.Memory.{Ptr, null, Job, node, Store, write, done, load, set_next, check}

pub load-done :
    (h : Store) (p : Ptr) (j : Job) (q : Ptr)
    → p ≢ null
    → h p ≡ some (node j q)
    → load p h ≡ done (node j q) h
unfolding load
load-done h p j q ne at = ground arith

pub set_next-done :
    (h : Store) (p q : Ptr) (j : Job) (q' : Ptr)
    → p ≢ null
    → h p ≡ some (node j q')
    → set_next p q h ≡ done tt (write h p (node j q))
unfolding set_next
set_next-done h p q j q' ne at = rw (load-done h p j q' ne at) refl

pub write_self :
    (h : Store) (p : Ptr) (j : Job) (q : Ptr) → write h p (node j q) p ≡ some (node j q)
unfolding write
write_self h p j q = ground arith

pub write-ne :
    (h : Store) (p : Ptr) (j : Job) (q a : Ptr) → (a == p) ≡ false → write h p (node j q) a ≡ h a
unfolding write
write-ne h p j q a e = rw e

pub check_refl : (h : Store) (r : ℕ) → check (r == r) h ≡ done tt h
unfolding check
check_refl h r = rw ==_refl
