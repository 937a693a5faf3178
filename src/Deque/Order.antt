-- ===== src/Deque/Order.antt =====
-- Whatever the steps of the worker and of the stealers, the queue hands out what was pushed, in
-- order and once.
use farsight.Prelude.{
  ℕ, ◌+◌, ◌-◌, ◌≤◌, ◌<◌, ◌≡◌, refl, ap, subst, sym, ◌∙◌, inl, inr, ◌&&◌, List, [], ◌∷◌, ◌++◌,
  Option, some, ◌==◌, length, get_elem?, arith, take, map, append_assoc, append-nil, length-append,
  get_elem?-append_left, Bool-cases, if_elim,
}
use farsight.Deque.{Deque, push, new}
use farsight.Deque.Push.{Holds, Fits, single-Fits, new-Holds, push-Holds}
use farsight.Deque.Copies.{copy_out-history, cells_list-add, cells_list-same, cells_list-take}
use farsight.Deque.Stealer.{
  Call, one, batch, Phase, idle, began, loaded, copied, Steal, batch_size, load, copy_out,
  cells_list, claim, System, Event, push_event, steal_event, set_phase, add_taken, advance, step,
  run, start, pushed,
}

batch_size-le :
    (call : Call) (len : ℕ) → (batch_size call len ≤ len) × (call ≡ one → batch_size call len ≤ 1)
unfolding batch_size
batch_size-le one len = (omega arith, λ e. omega arith)
batch_size-le (batch capacity) len = (ground arith, λ e. absurd (is_one (ap is_batch e)))
  where
    is_batch : Call → Type 0
    is_batch one = ⊥
    is_batch (batch capacity) = Unit {0}

    is_one : Unit {0} ≡ ⊥ → ⊥
    is_one e = subst (λ t. t) e tt

module _ {T : Type 0} where
  -- What a stealer knows of the queue in each phase.
  Valid : List T → Deque T → Phase T → Type 0
  Valid history d idle = Unit {0}
  Valid history d (began call f) = f ≤ d.consumed
  Valid history d (loaded call f n) = (f ≤ d.consumed) × (f + n ≤ d.produced) × (call ≡ one → n ≤ 1)
  Valid history d (copied f n identity dest) =
      (f ≤ d.consumed)
      × (f + n ≤ d.produced)
      × (d.consumed ≡ f → (j : ℕ) → j < n → dest j ≡ get_elem? history (f + j))

  record Inv (history : List T) (s : System T) : Type 0 where
    deque : Holds history s.deque
    phases : (id : ℕ) → Valid history s.deque (s.phases id)
    taken : s.taken ≡ cells_list (get_elem? history) 0 s.deque.consumed

  began-Valid :
      (history : List T) (d : Deque T) (call : Call) → Valid history d (began call d.consumed)
  unfolding Valid
  began-Valid history d call = omega arith

  load-Valid :
      (history : List T) (d : Deque T) (call : Call) (f : ℕ)
      → Holds history d
      → Valid history d (began call f)
      → Valid history d (load d call f)
  unfolding Valid load
  load-Valid history d call f h le =
      let n = batch_size call (d.produced - f) in
      let b = batch_size-le call (d.produced - f) in
      let v : Valid history d (loaded call f n) = (le, omega (arith, le, b.0, h.ordered), b.1) in
      if_elim (Valid history d) (n == 0) idle (loaded call f n) tt v

  push-Valid :
      (history task : List T) (d : Deque T) (p : Phase T)
      → Holds history d
      → Holds (history ++ task) (push d task)
      → (push d task).consumed ≡ d.consumed
      → d.produced ≤ (push d task).produced
      → Valid history d p
      → Valid (history ++ task) (push d task) p
  unfolding Valid
  push-Valid history task d idle h h' same le v = tt
  push-Valid history task d (began call f) h h' same le v = omega (arith, same, v)
  push-Valid history task d (loaded call f n) h h' same le v =
      (omega (arith, same, v.0), omega (arith, le, v.1), v.2)
  push-Valid history task d (copied f n identity dest) h h' same le v = (
    omega (arith, same, v.0),
    omega (arith, le, v.1),
    λ e j lt.
        v.2 (sym same ∙ e) j lt
        ∙ sym (get_elem?-append_left history task (f + j) (omega (arith, v.1, h.size))),
  )

  copy-Valid :
      (history : List T) (d : Deque T) (call : Call) (f n : ℕ)
      → Holds history d
      → Valid history d (loaded call f n)
      → Valid history d (copied f n d.buffer.identity (copy_out d.buffer call f n))
  unfolding Valid
  copy-Valid history d call f n h v = (
    v.0,
    v.1,
    λ e j lt.
        subst (λ g. copy_out d.buffer call g n j ≡ get_elem? history (g + j)) e
          (copy_out-history history d call n j h (omega (arith, v.1, e)) v.2 lt),
  )

  -- The queue once `n` more tasks are claimed.
  abbrev claimed : Deque T → ℕ → Deque T
  claimed d n = record d { consumed = d.consumed + n }

  claimed-Holds :
      (history : List T) (d : Deque T) (n : ℕ)
      → Holds history d
      → d.consumed + n ≤ d.produced
      → Holds history (claimed d n)
  claimed-Holds history d n h le = record {
    power = h.power;
    size = h.size;
    ordered = le;
    bounded = omega (arith, h.bounded);
    cached = omega (arith, h.cached);
    cells = λ e lt.
        let shape : d.consumed + n + e ≡ d.consumed + (n + e) = omega arith in
        rw shape (h.cells (n + e) (omega arith));
  }

  claimed-Valid :
      (history : List T) (d : Deque T) (n : ℕ) (p : Phase T)
      → Valid history d p
      → Valid history (claimed d n) p
  unfolding Valid
  claimed-Valid history d n idle v = tt
  claimed-Valid history d n (began call f) v = omega (arith, v)
  claimed-Valid history d n (loaded call f m) v = (omega (arith, v.0), v.1, v.2)
  claimed-Valid history d n (copied f m identity dest) v =
      (omega (arith, v.0), v.1, λ e. v.2 (omega (arith, v.0, e)))

  set-Valid :
      (history : List T) (d : Deque T) (phases : ℕ → Phase T) (id : ℕ) (p : Phase T)
      → ((j : ℕ) → Valid history d (phases j))
      → Valid history d p
      → (j : ℕ) → Valid history d (set_phase phases id p j)
  set-Valid history d phases id p others v j =
      if_elim (Valid history d) (j == id) p (phases j) v (others j)

  abbrev after_claim : System T → ℕ → Deque T × Steal T → System T
  after_claim s id (d, result) = record {
    deque = d;
    phases = set_phase s.phases id idle;
    taken = add_taken s.taken result;
  }

  claim-Inv :
      (history : List T) (s : System T) (id f n identity : ℕ) (dest : ℕ → Option T)
      → Inv history s
      → Valid history s.deque (copied f n identity dest)
      → Inv history (after_claim s id (claim s.deque f n identity dest))
  unfolding claim Valid
  claim-Inv history s id f n identity dest h v =
      let test = s.deque.buffer.identity == identity && s.deque.consumed == f in
      elim (Bool-cases test) [
        | inr lost ↦ rw lost (record {
          deque = h.deque;
          phases = set-Valid history s.deque s.phases id idle h.phases tt;
          taken = h.taken;
        })
        | inl won ↦
            let at : s.deque.consumed ≡ f = ground (arith, won) in
            let here : f + n ≡ s.deque.consumed + n = omega (arith, at) in
            rw (won, here)
              (record {
                deque = claimed-Holds history s.deque n h.deque (omega (arith, v.1, at));
                phases = λ j.
                    set-Valid history (claimed s.deque n) s.phases id idle
                      (λ i. claimed-Valid history s.deque n (s.phases i) (h.phases i)) tt j;
                taken =
                    ap (λ t. t ++ cells_list dest 0 n) h.taken
                    ∙ ap (λ t. cells_list (get_elem? history) 0 s.deque.consumed ++ t)
                        (cells_list-same dest (get_elem? history) 0 (0 + s.deque.consumed) n
                          (λ j lt.
                            let z : 0 + j ≡ j = omega arith in
                            let y : f + j ≡ 0 + s.deque.consumed + j = omega (arith, at) in
                            ap dest z ∙ v.2 at j lt ∙ ap (get_elem? history) y))
                    ∙ sym (cells_list-add (get_elem? history) 0 s.deque.consumed n);
              })
      ]

  advance-Inv :
      (history : List T) (s : System T) (id : ℕ) (call : Call) (p : Phase T)
      → Inv history s
      → Valid history s.deque p
      → Inv history (advance s id call p)
  unfolding advance
  advance-Inv history s id call idle h v = record {
    deque = h.deque;
    phases =
        set-Valid history s.deque s.phases id (began call s.deque.consumed) h.phases
          (began-Valid history s.deque call);
    taken = h.taken;
  }
  advance-Inv history s id call (began c f) h v = record {
    deque = h.deque;
    phases =
        set-Valid history s.deque s.phases id (load s.deque c f) h.phases
          (load-Valid history s.deque c f h.deque v);
    taken = h.taken;
  }
  advance-Inv history s id call (loaded c f n) h v = record {
    deque = h.deque;
    phases =
        set-Valid history s.deque s.phases id
          (copied f n s.deque.buffer.identity (copy_out s.deque.buffer c f n)) h.phases
          (copy-Valid history s.deque c f n h.deque v);
    taken = h.taken;
  }
  advance-Inv history s id call (copied f n identity dest) h v =
      claim-Inv history s id f n identity dest h v

  push-Inv :
      (history task : List T) (s : System T)
      → Inv history s
      → Fits s.deque task
      → Inv (history ++ task) (record s { deque = push s.deque task })
  push-Inv history task s h fit =
      let (h', same) = push-Holds history s.deque task h.deque fit in
      let more : s.deque.produced ≤ (push s.deque task).produced =
        omega (arith, h.deque.size, h'.size, length-append history task) in
      record {
        deque = h';
        phases =
            λ id. push-Valid history task s.deque (s.phases id) h.deque h' same more (h.phases id);
        taken =
            h.taken
            ∙ cells_list-same (get_elem? history) (get_elem? (history ++ task)) 0 0 s.deque.consumed
                (λ j lt. sym (
                  get_elem?-append_left history task (0 + j)
                    (omega (arith, h.deque.ordered, h.deque.size))))
            ∙ ap (cells_list (get_elem? (history ++ task)) 0) (sym same);
      }

  -- Every push of the sequence fits when its turn comes.
  abbrev pub AllFit : System T → List (Event T) → Type 0
  AllFit s [] = Unit {0}
  AllFit s (push_event task ∷ es) = Fits s.deque task × AllFit (step s (push_event task)) es
  AllFit s (steal_event id call ∷ es) = AllFit (step s (steal_event id call)) es

  run-Inv :
      (history : List T) (s : System T) (es : List (Event T))
      → Inv history s
      → AllFit s es
      → Inv (history ++ pushed es) (run s es)
  unfolding run step
  run-Inv history s [] h fit = rw (append-nil history) h
  run-Inv history s (push_event task ∷ es) h fit =
      subst (λ l. Inv l (run (step s (push_event task)) es)) (append_assoc history task (pushed es))
        (run-Inv (history ++ task) (step s (push_event task)) es (push-Inv history task s h fit.0)
          fit.1)
  run-Inv history s (steal_event id call ∷ es) h fit =
      run-Inv history (step s (steal_event id call)) es
        (advance-Inv history s id call (s.phases id) h (h.phases id)) fit

  start-Inv : Inv [] (start {T = T})
  unfolding start new Valid cells_list
  start-Inv = record { deque = new-Holds; phases = λ id. tt; taken = refl }

  -- At most one task is pushed at a time.
  abbrev pub Singles : List (Event T) → Type 0
  Singles [] = Unit {0}
  Singles (push_event task ∷ es) = (length task ≤ 1) × Singles es
  Singles (steal_event id call ∷ es) = Singles es

  Singles-AllFit :
      (history : List T) (s : System T) (es : List (Event T))
      → Inv history s
      → Singles es
      → AllFit s es
  unfolding step
  Singles-AllFit history s [] h small = tt
  Singles-AllFit history s (push_event task ∷ es) h small =
      let fit = single-Fits history s.deque task h.deque small.0 in
      (
        fit,
        Singles-AllFit (history ++ task) (step s (push_event task)) es
            (push-Inv history task s h fit) small.1,
      )
  Singles-AllFit history s (steal_event id call ∷ es) h small =
      Singles-AllFit history (step s (steal_event id call)) es
        (advance-Inv history s id call (s.phases id) h (h.phases id)) small

  -- Let every push of a sequence of steps fit into the buffer when its turn comes. However the
  -- steps of the worker and of the stealers interleave, what has been stolen is, in the order of the
  -- claims, the first `consumed` of the tasks that have been pushed: none is lost, none is handed
  -- out twice, and none is read before it is written.
  pub run-steals_in_order :
      (es : List (Event T))
      → AllFit start es
      → let s = run start es in
        (s.taken ≡ map some (take s.deque.consumed (pushed es)))
        × (s.deque.consumed ≤ length (pushed es))
  run-steals_in_order es fit =
      let h = run-Inv [] start es start-Inv fit in
      let le : (run start es).deque.consumed ≤ length (pushed es) =
        omega (arith, h.deque.ordered, h.deque.size) in
      (h.taken ∙ cells_list-take (pushed es) (run start es).deque.consumed le, le)

  -- If no push has more than one task, then, however the steps of the worker and of the stealers
  -- interleave, what has been stolen is, in the order of the claims, the first `consumed` of the
  -- tasks that have been pushed.
  pub run-Singles-steals_in_order :
      (es : List (Event T))
      → Singles es
      → (run start es).taken ≡ map some (take (run start es).deque.consumed (pushed es))
  run-Singles-steals_in_order es small =
      (run-steals_in_order es (Singles-AllFit [] start es start-Inv small)).0
