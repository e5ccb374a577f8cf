-- ===== src/Ipc/Links.antt =====
-- The pointers of the sender queues: what each update does to `next_in_queue` and `sender_queue`.
use cnos.Prelude.{ℕ, ◌≡◌, ap, ◌∙◌, Option, none, some, arith, ◌==◌, if◌then◌else◌}
use cnos.Process.{System, set_task}
use cnos.Ipc.{head, next_of, set_next, set_queue, sender_enqueue, write_link, unlink}

abbrev pub next : System → ℕ → Option ℕ
next s i = (s.tasks i).next_in_queue

abbrev pub queue : System → ℕ → Option ℕ
queue s i = (s.tasks i).sender_queue

module _ (s : System) (d : ℕ) (w : Option ℕ) (i : ℕ) where
  next-set_queue : next (set_task s d (set_queue (s.tasks d) w)) i ≡ next s i
  next-set_queue = ground (arith, ap s.tasks {x = d} {y = i})

  queue-set_queue :
      queue (set_task s d (set_queue (s.tasks d) w)) i ≡ (if d == i then w else queue s i)
  queue-set_queue = ground arith

  next-set_next : next (set_task s d (set_next (s.tasks d) w)) i ≡ (if d == i then w else next s i)
  next-set_next = ground arith

  queue-set_next : queue (set_task s d (set_next (s.tasks d) w)) i ≡ queue s i
  queue-set_next = ground (arith, ap s.tasks {x = d} {y = i})

module _ (d c : ℕ) (s : System) (i : ℕ) where
  pub next-sender_enqueue : next (sender_enqueue d c s) i ≡ (if c == i then queue s d else next s i)
  unfolding sender_enqueue
  next-sender_enqueue =
      let s1 = set_task s c (set_next (s.tasks c) (queue s d)) in
      next-set_queue s1 d (some c) i ∙ next-set_next s c (queue s d) i

  pub queue-sender_enqueue : queue (sender_enqueue d c s) i ≡ (if d == i then some c else queue s i)
  unfolding sender_enqueue
  queue-sender_enqueue =
      let s1 = set_task s c (set_next (s.tasks c) (queue s d)) in
      queue-set_queue s1 d (some c) i
      ∙ ap (λ q. if d == i then some c else q) (queue-set_next s c (queue s d) i)

module _ (recv c : ℕ) (s : System) (i : ℕ) where
  pub next-unlink_head : next (unlink head recv c s) i ≡ (if c == i then none else next s i)
  unfolding unlink write_link
  next-unlink_head =
      let s1 = set_task s recv (set_queue (s.tasks recv) (next s c)) in
      next-set_next s1 c none i
      ∙ ap (λ q. if c == i then none else q) (next-set_queue s recv (next s c) i)

  pub queue-unlink_head :
      queue (unlink head recv c s) i ≡ (if recv == i then next s c else queue s i)
  unfolding unlink write_link
  queue-unlink_head =
      let s1 = set_task s recv (set_queue (s.tasks recv) (next s c)) in
      queue-set_next s1 c none i ∙ queue-set_queue s recv (next s c) i

  module _ (p : ℕ) where
    pub next-unlink-next :
        next (unlink (next_of p) recv c s) i
        ≡ (if c == i then none else (if p == i then next s c else next s i))
    unfolding unlink write_link
    next-unlink-next =
        let s1 = set_task s p (set_next (s.tasks p) (next s c)) in
        next-set_next s1 c none i
        ∙ ap (λ q. if c == i then none else q) (next-set_next s p (next s c) i)

    pub queue-unlink_next : queue (unlink (next_of p) recv c s) i ≡ queue s i
    unfolding unlink write_link
    queue-unlink_next =
        let s1 = set_task s p (set_next (s.tasks p) (next s c)) in
        queue-set_next s1 c none i ∙ queue-set_next s p (next s c) i
