-- ===== src/Queue/Frame.antt =====
-- writer.go and queue.go: what a write to the queue or the database leaves alone in the state.
use lalia.Prelude.{◌≡◌, refl, Option, none, some}
use lalia.Types.{FilePath, Content, Queue, State}
use lalia.Queue.{enqueue_row, enqueue_write, with_queue}

module _ (path : FilePath) (c : Content) (s : State) where
  agents-enqueue_row : (q : Option Queue) → (enqueue_row path c q s).agents ≡ s.agents
  unfolding enqueue_row
  agents-enqueue_row none = refl
  agents-enqueue_row (some q) = refl

  pub agents-enqueue_write : (enqueue_write path c s).agents ≡ s.agents
  unfolding enqueue_write
  agents-enqueue_write = agents-enqueue_row s.queue

  name_idx-enqueue_row : (q : Option Queue) → (enqueue_row path c q s).name_idx ≡ s.name_idx
  unfolding enqueue_row
  name_idx-enqueue_row none = refl
  name_idx-enqueue_row (some q) = refl

  pub name_idx-enqueue_write : (enqueue_write path c s).name_idx ≡ s.name_idx
  unfolding enqueue_write
  name_idx-enqueue_write = name_idx-enqueue_row s.queue

  channels-enqueue_row : (q : Option Queue) → (enqueue_row path c q s).channels ≡ s.channels
  unfolding enqueue_row
  channels-enqueue_row none = refl
  channels-enqueue_row (some q) = refl

  pub channels-enqueue_write : (enqueue_write path c s).channels ≡ s.channels
  unfolding enqueue_write
  channels-enqueue_write = channels-enqueue_row s.queue

  rooms-enqueue_row : (q : Option Queue) → (enqueue_row path c q s).rooms ≡ s.rooms
  unfolding enqueue_row
  rooms-enqueue_row none = refl
  rooms-enqueue_row (some q) = refl

  pub rooms-enqueue_write : (enqueue_write path c s).rooms ≡ s.rooms
  unfolding enqueue_write
  rooms-enqueue_write = rooms-enqueue_row s.queue

  tasks-enqueue_row : (q : Option Queue) → (enqueue_row path c q s).tasks ≡ s.tasks
  unfolding enqueue_row
  tasks-enqueue_row none = refl
  tasks-enqueue_row (some q) = refl

  pub tasks-enqueue_write : (enqueue_write path c s).tasks ≡ s.tasks
  unfolding enqueue_write
  tasks-enqueue_write = tasks-enqueue_row s.queue

  any_waiter-enqueue_row : (q : Option Queue) → (enqueue_row path c q s).any_waiter ≡ s.any_waiter
  unfolding enqueue_row
  any_waiter-enqueue_row none = refl
  any_waiter-enqueue_row (some q) = refl

  pub any_waiter-enqueue_write : (enqueue_write path c s).any_waiter ≡ s.any_waiter
  unfolding enqueue_write
  any_waiter-enqueue_write = any_waiter-enqueue_row s.queue

  next_chan-enqueue_row : (q : Option Queue) → (enqueue_row path c q s).next_chan ≡ s.next_chan
  unfolding enqueue_row
  next_chan-enqueue_row none = refl
  next_chan-enqueue_row (some q) = refl

  pub next_chan-enqueue_write : (enqueue_write path c s).next_chan ≡ s.next_chan
  unfolding enqueue_write
  next_chan-enqueue_write = next_chan-enqueue_row s.queue

  signals-enqueue_row : (q : Option Queue) → (enqueue_row path c q s).signals ≡ s.signals
  unfolding enqueue_row
  signals-enqueue_row none = refl
  signals-enqueue_row (some q) = refl

  pub signals-enqueue_write : (enqueue_write path c s).signals ≡ s.signals
  unfolding enqueue_write
  signals-enqueue_write = signals-enqueue_row s.queue

module _ (f : Queue → Queue) (s : State) where
  pub agents-with_queue : (with_queue f s).agents ≡ s.agents
  unfolding with_queue
  agents-with_queue = refl

  pub name_idx-with_queue : (with_queue f s).name_idx ≡ s.name_idx
  unfolding with_queue
  name_idx-with_queue = refl

  pub channels-with_queue : (with_queue f s).channels ≡ s.channels
  unfolding with_queue
  channels-with_queue = refl

  pub rooms-with_queue : (with_queue f s).rooms ≡ s.rooms
  unfolding with_queue
  rooms-with_queue = refl

  pub tasks-with_queue : (with_queue f s).tasks ≡ s.tasks
  unfolding with_queue
  tasks-with_queue = refl

  pub any_waiter-with_queue : (with_queue f s).any_waiter ≡ s.any_waiter
  unfolding with_queue
  any_waiter-with_queue = refl

  pub next_chan-with_queue : (with_queue f s).next_chan ≡ s.next_chan
  unfolding with_queue
  next_chan-with_queue = refl

  pub signals-with_queue : (with_queue f s).signals ≡ s.signals
  unfolding with_queue
  signals-with_queue = refl

-- For simp.
pub ruleset queue_frame = (
  agents-enqueue_write, agents-with_queue, name_idx-enqueue_write, name_idx-with_queue,
  channels-enqueue_write, channels-with_queue, rooms-enqueue_write, rooms-with_queue,
  tasks-enqueue_write, tasks-with_queue, any_waiter-enqueue_write, any_waiter-with_queue,
  next_chan-enqueue_write, next_chan-with_queue, signals-enqueue_write, signals-with_queue,
)
