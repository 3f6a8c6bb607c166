-- ===== src/ThreadsafeQueue.antt =====
-- client_epoll/threadsafe_queue.hpp (client/threadsafe_queue.hpp is the same file): a queue that
-- several threads share. Each method is one step under the queue's mutex; a method that waits on the
-- condition variable takes its step when the condition holds.
pub mod History
mod Tests
use udt_patch_for_epoll.Prelude.{
  ℕ, Bool, true, false, Option, none, some, List, [], ◌∷◌, ◌++◌, length,
}

pub record ThreadsafeQueue {ℓ} (A : Type ℓ) : Type ℓ where
  pub data_queue : List A

module _ {ℓ} {A : Type ℓ} where
  abbrev pub new_queue : ThreadsafeQueue A
  new_queue = record { data_queue = [] }

  -- The copy constructor.
  unfoldable pub copy_of : ThreadsafeQueue A → ThreadsafeQueue A
  copy_of other = record { data_queue = other.data_queue }

  unfoldable pub size : ThreadsafeQueue A → ℕ
  size q = length q.data_queue

  unfoldable pub empty : ThreadsafeQueue A → Bool
  empty q = elim q.data_queue [ [] ↦ true | x ∷ xs ↦ false ]

  unfoldable pub push : ThreadsafeQueue A → A → ThreadsafeQueue A
  push q new_value = record { data_queue = q.data_queue ++ (new_value ∷ []) }

  -- Both overloads of `wait_and_pop`. The result is none while the caller waits.
  unfoldable pub wait_and_pop : ThreadsafeQueue A → Option (A × ThreadsafeQueue A)
  wait_and_pop q = elim q.data_queue [ [] ↦ none | x ∷ xs ↦ some (x, record { data_queue = xs }) ]

  -- Both overloads of `try_pop`: none is the result false, and the null pointer.
  unfoldable pub try_pop : ThreadsafeQueue A → Option A × ThreadsafeQueue A
  try_pop q = elim q.data_queue [ [] ↦ (none, q) | x ∷ xs ↦ (some x, record { data_queue = xs }) ]

  unfoldable pub grab_all : ThreadsafeQueue A → List A × ThreadsafeQueue A
  grab_all q = (q.data_queue, new_queue)
