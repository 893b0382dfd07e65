-- ===== src/Mpsc.antt =====
-- The class template `MpscQueue` of src/net/eventloop/MpscQueue.h. The heap is a list of nodes, by
-- address; `none` is a node that has been deleted. `enqueue` is two steps, as other threads see it:
-- `exchange`, which makes the node and puts it at the head, and `link`, which stores it in the node
-- before. A step sees all the steps before it, as the acquiring loads and releasing stores of the code
-- ensure. A result `none` is a fault: an access to a deleted node or value.
pub mod Fifo
pub mod Threads
pub mod Answer
pub mod Destroy
use netyo.Prelude.{
  ℕ, zero, suc, ◌+◌, Option, none, some, List, [], ◌∷◌, ◌++◌, ◌>>=◌, length, get_or, overwrite,
}

module _ {ℓ} (A : Type ℓ) where
  -- `BufferNode`: `dataPtr_` and `next_`.
  pub record BufferNode : Type ℓ where
    pub data_ptr : Option A
    pub next : Option ℕ

  pub record MpscQueue : Type ℓ where
    pub heap : List (Option BufferNode)
    pub head : ℕ
    pub tail : ℕ

module _ {ℓ} {A : Type ℓ} where
  -- `MpscQueue()`
  abbrev pub new_queue : MpscQueue A
  new_queue = record {
    heap = some (record { data_ptr = none; next = none }) ∷ [];
    head = 0;
    tail = 0;
  }

  -- `*p`
  abbrev pub deref : MpscQueue A → ℕ → Option (BufferNode A)
  deref q p = get_or q.heap p none

  -- The first part of `enqueue(input)`: the queue, `prevhead` and `node`.
  unfoldable pub exchange : A → MpscQueue A → MpscQueue A × ℕ × ℕ
  exchange input q =
      let node = length q.heap in
      (
        record q {
          heap = q.heap ++ some (record { data_ptr = some input; next = none }) ∷ [];
          head = node;
        },
        q.head,
        node,
      )

  -- `prevhead->next_.store(node)`
  unfoldable pub link : ℕ → ℕ → MpscQueue A → Option (MpscQueue A)
  link prevhead node q = do
    n ← deref q prevhead
    some (record q { heap = overwrite q.heap prevhead (some (record n { next = some node }) ∷ []) })

  -- `dequeue(output)` from the node after the tail: the value is moved out, the value's cell and the
  -- old tail are deleted.
  unfoldable pub dequeue_from : ℕ → MpscQueue A → Option (MpscQueue A × Option A)
  dequeue_from next q = do
    n ← deref q next
    output ← n.data_ptr
    let heap = overwrite q.heap next (some (record n { data_ptr = none }) ∷ [])
    some (record q { heap = overwrite heap q.tail (none ∷ []); tail = next }, some output)

  -- `dequeue(output)`: the queue and the output, `none` where the source returns false.
  unfoldable pub dequeue : MpscQueue A → Option (MpscQueue A × Option A)
  dequeue q = do
    n ← deref q q.tail
    elim n.next [ none ↦ some (q, none) | some next ↦ dequeue_from next q ]

  -- `~MpscQueue()` on fuel: values are taken until there is none, and the node at the head is deleted.
  unfoldable pub destroy : ℕ → MpscQueue A → Option (MpscQueue A)
  unfolding dequeue
  destroy zero q = none
  destroy (suc fuel) q = do
    taken ← dequeue q
    elim taken.1 [
      | none ↦ deref taken.0 taken.0.head >>= λ front.
          some (record taken.0 { heap = overwrite taken.0.heap taken.0.head (none ∷ []) })
      | some output ↦ destroy fuel taken.0
    ]
