-- ===== src/PrioQueue/Memory.antt =====
-- The store of `struct node_t` objects that srv/lib/prio_queue.c works on, and commands over it.
-- A node's job (`job*`) is allocated with its node, is never written again and is reached through
-- that node only, so the node holds the job itself.
pub mod Laws
use pronto.Prelude.{ℕ, Bool, true, false, Option, none, some, ◌==◌, if◌then◌else◌}

abbrev pub Ptr : Type 0
Ptr = ℕ

abbrev pub null : Ptr
null = 0

-- `job` of srv/lib/h/job.h
pub record Job : Type 0 where
  pub request : ℕ  -- unsigned int

-- `struct node_t` of srv/lib/h/node.h
pub record Node : Type 0 where
  pub value : Job
  pub next : Ptr

abbrev pub job : ℕ → Job
job r = record { request = r }

abbrev pub node : Job → Ptr → Node
node j p = record { value = j; next = p }

abbrev pub Store : Type 0
Store = Ptr → Option Node

unfoldable pub write : Store → Ptr → Node → Store
write h p n a = if a == p then some n else h a

-- How a command ends: with a result, at an invalid pointer, at a failed `assert`, or out of fuel.
pub data Outcome (A : Type 0) : Type 0 where
  done : A → Store → Outcome A
  fault : Outcome A
  aborted : Outcome A
  out_of_fuel : Outcome A

abbrev pub Command : Type 0 → Type 0
Command A = Store → Outcome A

abbrev pub pure : {A : Type 0} → A → Command A
pure a h = done a h

module _ {A B : Type 0} where
  abbrev pub continue : Outcome A → (A → Command B) → Outcome B
  continue (done a h) k = k a h
  continue fault k = fault
  continue aborted k = aborted
  continue out_of_fuel k = out_of_fuel

  infixl 5 ◌>>=◌ ◌>>◌
  abbrev pub ◌>>=◌ : Command A → (A → Command B) → Command B
  m >>= k = λ h. continue (m h) k

  abbrev pub ◌>>◌ : Command A → Command B → Command B
  m >> k = m >>= λ _. k

-- `*p` for reading: NULL and an address without a node are faults.
unfoldable pub load : Ptr → Command Node
load p h = if p == null then fault else elim (h p) [ none ↦ fault | some n ↦ done n h ]

-- `p->next = q`
unfoldable pub set_next : Ptr → Ptr → Command (Unit {0})
unfolding load
set_next p q = do n ← load p; λ h. done tt (write h p (node n.value q))

unfoldable pub check : Bool → Command (Unit {0})
check true h = done tt h
check false h = aborted
