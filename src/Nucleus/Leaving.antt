-- ===== src/Nucleus/Leaving.antt =====
-- How `killProcess` of phase2/functions.c takes a process out of the queue that it is in.
use progetto_sistemi_operati.Asl.Outcome.{Slot}
use progetto_sistemi_operati.Base.{
  ℕ, ◌≤◌, ◌≡◌, ◌≢◌, refl, sym, ◌∙◌, ap, subst, false, none, some, ◌⊎◌, inl, inr, List, [], ◌∷◌,
  ◌++◌, arith, length, All, In, NotIn, Bool-cases, ◌==◌, if◌then◌else◌, ℕ_discrete,
}
use progetto_sistemi_operati.Memory.{Head, s_link, p_list, p_child, pcb_free, ready_queue, s_procq}
use progetto_sistemi_operati.Listx.{list_del}
use progetto_sistemi_operati.Listx.View.{View, Rings, leave}
use progetto_sistemi_operati.Listx.Rings.{owned-NotIn}
use progetto_sistemi_operati.Listx.Removal.{
  erase, erase-mid, erase-missing, length-erase, spot, In-NotIn, All-at,
}
use progetto_sistemi_operati.Store.{Store, ok, on_links}
use progetto_sistemi_operati.Pcb.{max_proc, list_of_pcb}
use progetto_sistemi_operati.Pcb.Queue.{lists, out_proc_q-found, out_proc_q-missing}
use progetto_sistemi_operati.Asl.Waiting.{waiting, length-before, length-dropped}
use progetto_sistemi_operati.Pcb.Tree.{child_of}
use progetto_sistemi_operati.Asl.View.{Sem, Asl, HoldsSem}
use progetto_sistemi_operati.Asl.Quit.{Quits, Quits, out_blocked-Quits, waiting-keyed}
use progetto_sistemi_operati.Nucleus.Platform.{Platform, device_sem, pseudo_index, decr}
use progetto_sistemi_operati.Nucleus.Functions.{leave_queues}
use progetto_sistemi_operati.Nucleus.Wakes.{Asl-same}
use progetto_sistemi_operati.Nucleus.Kernel.{Lists, Kernel, Placed}

NotIn-of_lists : (p : ℕ) (qs : List ℕ) → NotIn (p_list p) (lists qs) → NotIn p qs
NotIn-of_lists p [] n = tt
NotIn-of_lists p (q ∷ qs) n = ((λ e. n.0 (ap p_list e)), NotIn-of_lists p qs n.1)

-- A PCB that waits on a key is in the queue of a descriptor.
pub waiting-owned :
    (s : Store) (v : View) (k : ℕ) (sems : List Sem) (p : ℕ)
    → Rings s.links v
    → All (HoldsSem s v) sems
    → In p (waiting k sems)
    → (d : ℕ) × (v.owner (p_list p) ≡ some (s_procq d))
unfolding waiting
waiting-owned s v k [] p r h i = absurd i
waiting-owned s v k (x ∷ sems) p r h i = elim (Bool-cases (x.key == k)) [
  | inl same ↦ (
    x.desc,
    All-at (λ i. v.owner i ≡ some (s_procq x.desc)) (p_list p) (lists x.queue)
        (r.owned _ _ h.0.queued) (In-lists p x.queue (rw same at i)),
  )
  | inr differ ↦ waiting-owned s v k sems p r h.1 (rw differ at i)
]
  where
    In-lists : (p : ℕ) (qs : List ℕ) → In p qs → In (p_list p) (lists qs)
    In-lists p [] i = i
    In-lists p (q ∷ qs) (inl e) = inl (ap p_list e)
    In-lists p (q ∷ qs) (inr i) = inr (In-lists p qs i)

-- The count of soft blocked processes once a process that named the semaphore `a` has ended.
unfoldable pub softer : Platform → ℕ → ℕ → ℕ
softer u a n = if a == 0 then n else if a == device_sem u pseudo_index then decr n else n

-- The process `p` has left its queue, and nothing else has changed but the count of soft blocked
-- processes.
pub record Left (u : Platform) (s : Store) (k : Lists) (p : ℕ) (t : Store) (l : Lists)
    : Type 0 where
  pub kernel : Kernel t l
  pub ready : l.ready ≡ erase p k.ready
  pub free : l.free ≡ k.free
  pub queues : (j : ℕ) → j ≢ 0 → waiting j l.sems ≡ erase p (waiting j k.sems)
  pub children : (z : ℕ) → l.view.items (p_child z) ≡ k.view.items (p_child z)
  pub unlisted : l.view.owner (p_list p) ≡ none
  pub owners : (z : ℕ) → z ≢ p → l.view.owner (p_list z) ≡ k.view.owner (p_list z)
  pub descriptors :
      (d : ℕ) (h : Head)
      → l.view.owner (s_link d) ≡ some h
      → (h' : Head) × (k.view.owner (s_link d) ≡ some h')
  pub slots : (d : ℕ) → Slot k.view d → Slot l.view d
  pub others : (z : ℕ) → z ≢ p → t.pcb z ≡ s.pcb z
  pub awake : (t.pcb p).sem_add ≡ 0
  pub parent : (t.pcb p).parent ≡ (s.pcb p).parent
  pub globals : t ≡ record s {
    links = t.links;
    pcb = t.pcb;
    soft_block_count = softer u (s.pcb p).sem_add s.soft_block_count;
  }

module _ (u : Platform) (s : Store) (k : Lists) (h : Kernel s k) (p : ℕ) where
  abbrev Leaves : Type 0
  Leaves = (t : Store) × (l : Lists) × (leave_queues u p s ≡ ok tt t) × Left u s k p t l

  -- A process that names no semaphore is in the queue of none.
  apart : (j : ℕ) → j ≢ (s.pcb p).sem_add → erase p (waiting j k.sems) ≡ waiting j k.sems
  apart j ne =
      erase-missing p (waiting j k.sems)
        (named_apart (waiting j k.sems) (waiting-keyed s k.view j k.sems h.asl.holds))
    where
      named_apart : (qs : List ℕ) → All (λ q. (s.pcb q).sem_add ≡ j) qs → NotIn p qs
      named_apart [] a = tt
      named_apart (q ∷ qs) a =
          ((λ e. ne (sym a.0 ∙ ap (λ z. (s.pcb z).sem_add) (sym e))), named_apart qs a.1)

  module _ (awake : (s.pcb p).sem_add ≡ 0) where
    softer-same : softer u (s.pcb p).sem_add s.soft_block_count ≡ s.soft_block_count
    unfolding softer
    softer-same = ground (arith, awake)

    globals_same : s ≡ record s {
      links = s.links;
      pcb = s.pcb;
      soft_block_count = softer u (s.pcb p).sem_add s.soft_block_count;
    }
    globals_same = ap (λ n. record s { soft_block_count = n }) (sym softer-same)

    leaves_idle : NotIn p k.ready → k.view.owner (p_list p) ≡ none → Leaves
    unfolding leave_queues
    leaves_idle out free = (
      s,
      k,
      rw (awake, out_proc_q-missing s k.view ready_queue p h.asl.rings k.ready h.queued out h.room),
      record {
        kernel = h;
        ready = sym (erase-missing p k.ready out);
        free = refl;
        queues = λ j ne. sym (apart j (λ e. ne (e ∙ awake)));
        children = λ z. refl;
        unlisted = free;
        owners = λ z ne. refl;
        descriptors = λ c g o. (g, o);
        slots = λ d slot. slot;
        others = λ z ne. refl;
        awake = awake;
        parent = refl;
        globals = globals_same;
      },
    )

    module _ (front back : List ℕ) (split : k.ready ≡ front ++ p ∷ back)
        (first : NotIn p front) where
      abbrev shorter : Lists
      shorter = record k {
        view = leave ready_queue (p_list p) (lists (front ++ back)) k.view;
        ready = front ++ back;
      }

      here : k.view.items ready_queue ≡ some (lists (front ++ p ∷ back))
      here = h.queued ∙ ap (λ l. some (lists l)) split

      near : length front ≤ max_proc
      near =
          let e : length k.ready ≡ length (front ++ p ∷ back) = ap length split in
          omega (arith, length-before front p back, h.room)

      left_room : length (front ++ back) ≤ max_proc
      left_room =
          let e : length k.ready ≡ length (front ++ p ∷ back) = ap length split in
          omega (arith, length-dropped front p back, h.room)

      leaves_ready : Leaves
      unfolding leave_queues
      leaves_ready =
          let (found, rings) =
            out_proc_q-found s k.view ready_queue p h.asl.rings front back here first near in
          let t = on_links (list_del (list_of_pcb p)) s in
          (
            t,
            shorter,
            rw (awake, found) refl,
            record {
              kernel = record {
                asl =
                    Asl-same s k.view t shorter.view refl (λ z. refl) (λ z. ground arith) k.sems
                      k.spare (ground arith) (ground arith) rings h.asl;
                parent = λ c. ground (arith, h.parent c);
                queued = ground arith;
                free = ground (arith, h.free);
                few = h.few;
                room = left_room;
                short = h.short;
              };
              ready = sym (ap (erase p) split ∙ erase-mid p front back first);
              free = refl;
              queues = λ j ne. sym (apart j (λ e. ne (e ∙ awake)));
              children = λ z. ground arith;
              unlisted = ground arith;
              owners = λ z ne. ground (arith, ne);
              descriptors = λ c g o. (g, ground (arith, o));
              slots = λ d slot. elim slot [
                | inl a ↦ inl (ground (arith, a))
                | inr a ↦ inr (ground (arith, a))
              ];
              others = λ z ne. refl;
              awake = awake;
              parent = refl;
              globals = ap (λ n. record t { soft_block_count = n }) (sym softer-same);
            },
          )

    -- A process without semaphore is taken out of the ready queue, if it is there.
    leaves_awake :
        (k.view.owner (p_list p) ≡ none) ⊎ (k.view.owner (p_list p) ≡ some ready_queue) → Leaves
    leaves_awake at = elim (spot p k.ready) [
      | inl s ↦ leaves_ready s.front s.back s.split s.first
      | inr out ↦ elim at [
        | inl free ↦ leaves_idle out free
        | inr listed ↦ absurd (In-NotIn p k.ready (is_ready listed) out)
      ]
    ]
      where
        In-of_lists : (qs : List ℕ) → In (p_list p) (lists qs) → In p qs
        In-of_lists [] i = i
        In-of_lists (q ∷ qs) (inl e) = inl (cc)
        In-of_lists (q ∷ qs) (inr i) = inr (In-of_lists qs i)

        is_ready : k.view.owner (p_list p) ≡ some ready_queue → In p k.ready
        is_ready listed =
            let at = h.asl.rings.listed (p_list p) ready_queue listed in
            let same : some at.0 ≡ some (lists k.ready) = sym at.1 ∙ h.queued in
            In-of_lists k.ready (subst (In (p_list p)) (cc) at.2)

  module _ (blocked : (s.pcb p).sem_add ≢ 0) where
    abbrev counted : Store
    counted = record s { soft_block_count = softer u (s.pcb p).sem_add s.soft_block_count }

    counts :
        (if (s.pcb p).sem_add == device_sem u pseudo_index
          then record s { soft_block_count = decr s.soft_block_count }
          else s)
        ≡ counted
    unfolding softer
    counts = elim (Bool-cases ((s.pcb p).sem_add == device_sem u pseudo_index)) [
      | inl clock ↦ ground (arith, clock, blocked)
      | inr other ↦ ground (arith, other, blocked)
    ]

    counted-Asl : Asl counted k.view k.sems k.spare
    counted-Asl =
        Asl-same s k.view counted k.view refl (λ z. refl) (λ z. refl) k.sems k.spare refl refl
          h.asl.rings h.asl

    module _ (stands : In p (waiting (s.pcb p).sem_add k.sems)) (t : Store)
        (q : Quits counted k.view (s.pcb p).sem_add p k.sems t) where
      queues_then : (j : ℕ) → waiting j q.sems' ≡ erase p (waiting j k.sems)
      queues_then j = elim (ℕ_discrete j (s.pcb p).sem_add) [
        | yes e ↦ subst (λ i. waiting i q.sems' ≡ erase p (waiting i k.sems)) (sym e) q.queue
        | no ne ↦ q.same j ne ∙ sym (apart j ne)
      ]

      parent_same : (c : ℕ) → (t.pcb c).parent ≡ (s.pcb c).parent
      parent_same c = elim (ℕ_discrete c p) [
        | yes e ↦
            subst (λ z. (t.pcb z).parent ≡ (s.pcb z).parent) (sym e) (ap (λ x. x.parent) q.awake)
        | no ne ↦ ap (λ x. x.parent) (q.others c ne)
      ]

      not_ready : NotIn p k.ready
      not_ready =
          let at =
            waiting-owned s k.view (s.pcb p).sem_add k.sems p h.asl.rings h.asl.holds stands in
          NotIn-of_lists p k.ready (
            owned-NotIn k.view ready_queue (p_list p) (lists k.ready) (λ e. ground (arith, at.1))
              (h.asl.rings.owned _ _ h.queued))

      quit_Left : Left u s k p t (record k { view = q.view; sems = q.sems'; spare = q.spare' })
      quit_Left = record {
        kernel = record {
          asl = q.asl;
          parent = λ c. q.siblings c ∙ h.parent c ∙ ap child_of (sym (parent_same c));
          queued = q.lists ready_queue (λ e. cc) (λ e. cc) (λ d e. cc) ∙ h.queued;
          free = q.lists pcb_free (λ e. cc) (λ e. cc) (λ d e. cc) ∙ h.free;
          few = omega (arith, q.fewer, h.few);
          room = h.room;
          short =
              λ j. rw (queues_then j) (omega (arith, length-erase p (waiting j k.sems), h.short j));
        };
        ready = sym (erase-missing p k.ready not_ready);
        free = refl;
        queues = λ j ne. queues_then j;
        children = λ z. q.lists (p_child z) (λ e. cc) (λ e. cc) (λ d e. cc);
        unlisted = q.unlisted;
        owners = q.owners;
        descriptors = q.descriptors;
        slots = q.slots;
        others = q.others;
        awake = ap (λ x. x.sem_add) q.awake;
        parent = ap (λ x. x.parent) q.awake;
        globals = q.globals;
      }

    -- A blocked process is taken out of the queue of its semaphore.
    leaves_blocked : In p (waiting (s.pcb p).sem_add k.sems) → Leaves
    unfolding leave_queues
    leaves_blocked stands =
        let (t, run, q) =
          out_blocked-Quits counted k.view k.spare p (s.pcb p).sem_add k.sems counted-Asl h.few refl
            (h.short (s.pcb p).sem_add) stands in
        let test : ((s.pcb p).sem_add == 0) ≡ false = ground (arith, blocked) in
        (t, _, rw (test, counts, run) refl, quit_Left stands t q)

  -- On well-formed lists `killProcess` takes a process out of the queue that it is in: the one of its
  -- semaphore, or the ready queue, or none.
  pub leave_queues-Left : Placed s k p → Leaves
  leave_queues-Left (inl (awake, at)) = leaves_awake awake at
  leave_queues-Left (inr (blocked, stands)) = leaves_blocked blocked stands
