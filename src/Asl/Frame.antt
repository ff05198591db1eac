-- ===== src/Asl/Frame.antt =====
-- What an operation on one semaphore leaves alone: the other semaphores and the free descriptors.
use progetto_sistemi_operati.Base.{
  ℕ, ◌≡◌, ◌≢◌, sym, ◌∙◌, ap, subst, some, List, [], ◌∷◌, ◌++◌, arith, All, NotIn, Distinct,
}
use progetto_sistemi_operati.Memory.{p_list, s_link, s_procq, semd_active, semd_free}
use progetto_sistemi_operati.Listx.View.{View, Rings}
use progetto_sistemi_operati.Listx.Rings.{owned-NotIn}
use progetto_sistemi_operati.Listx.Sequences.{Distinct-remove, All-remove, All-insert}
use progetto_sistemi_operati.Store.{Store}
use progetto_sistemi_operati.Pcb.Queue.{lists}
use progetto_sistemi_operati.Asl.View.{
  Sem, Asl, HoldsSem, descs, semds, keys, descs-append, keys-append,
}

-- From `s` and `v` to `t` and `w` only the queue and the key of the descriptor `d` change, and only
-- `p` changes its semaphore; `p` waits on no other descriptor.
pub record OnlyAt (d p : ℕ) (s t : Store) (v w : View) : Type 0 where
  pub rings : Rings t.links w
  pub queues : (z : ℕ) → z ≢ d → w.items (s_procq z) ≡ v.items (s_procq z)
  pub key : (z : ℕ) → z ≢ d → t.s_key z ≡ s.s_key z
  pub sem_add : (q : ℕ) → q ≢ p → (t.pcb q).sem_add ≡ (s.pcb q).sem_add
  pub apart : (z : ℕ) → z ≢ d → v.owner (p_list p) ≢ some (s_procq z)

pub waiting-frame :
    (s t : Store) (p k : ℕ) (qs : List ℕ)
    → ((q : ℕ) → q ≢ p → (t.pcb q).sem_add ≡ (s.pcb q).sem_add)
    → NotIn (p_list p) (lists qs)
    → All (λ q. (s.pcb q).sem_add ≡ k) qs
    → All (λ q. (t.pcb q).sem_add ≡ k) qs
waiting-frame s t p k [] same n a = tt
waiting-frame s t p k (q ∷ qs) same n a =
    (same q (λ e. n.0 (ap p_list (sym e))) ∙ a.0, waiting-frame s t p k qs same n.1 a.1)

module _ (d p : ℕ) (s t : Store) (v w : View) (r : Rings s.links v) (f : OnlyAt d p s t v w) where
  HoldsSem-frame : (z : Sem) → z.desc ≢ d → HoldsSem s v z → HoldsSem t w z
  HoldsSem-frame z ne h = record {
    queued = f.queues z.desc ne ∙ h.queued;
    keyed = f.key z.desc ne ∙ h.keyed;
    waiting =
        waiting-frame s t p z.key z.queue f.sem_add
          (owned-NotIn v (s_procq z.desc) (p_list p) (lists z.queue) (f.apart z.desc ne)
            (r.owned _ _ h.queued))
          h.waiting;
    nonempty = h.nonempty;
  }

  holds-frame :
      (zs : List Sem) → NotIn (s_link d) (descs zs) → All (HoldsSem s v) zs → All (HoldsSem t w) zs
  holds-frame [] n a = tt
  holds-frame (z ∷ zs) n a =
      (HoldsSem-frame z (λ e. n.0 (ap s_link (sym e))) a.0, holds-frame zs n.1 a.1)

  idle-frame :
      (ds : List ℕ)
      → NotIn (s_link d) (semds ds)
      → All (λ z. v.items (s_procq z) ≡ some []) ds
      → All (λ z. w.items (s_procq z) ≡ some []) ds
  idle-frame [] n a = tt
  idle-frame (z ∷ ds) n a = (f.queues z (λ e. n.0 (ap s_link (sym e))) ∙ a.0, idle-frame ds n.1 a.1)

keys-mid :
    (before : List Sem) (x y : Sem) (after : List Sem)
    → x.key ≡ y.key
    → keys (before ++ x ∷ after) ≡ keys (before ++ y ∷ after)
keys-mid [] x y after e = ap (λ k. k ∷ keys after) e
keys-mid (z ∷ before) x y after e = ap (◌∷◌ z.key) (keys-mid before x y after e)

descs-mid :
    (before : List Sem) (x y : Sem) (after : List Sem)
    → x.desc ≡ y.desc
    → descs (before ++ x ∷ after) ≡ descs (before ++ y ∷ after)
descs-mid [] x y after e = ap (λ k. s_link k ∷ descs after) e
descs-mid (z ∷ before) x y after e = ap (◌∷◌ (s_link z.desc)) (descs-mid before x y after e)

module _ (s t : Store) (v w : View) (before : List Sem) (x : Sem) (after : List Sem)
    (spare : List ℕ) (a : Asl s v (before ++ x ∷ after) spare) (p : ℕ)
    (f : OnlyAt x.desc p s t v w) where
  -- The descriptor is in no other place of the two lists.
  pub others_apart : NotIn (s_link x.desc) (descs (before ++ after))
  others_apart =
      rw (descs-append before after)
        (Distinct-remove (descs before) (s_link x.desc) (descs after)
          (rw (descs-append before (x ∷ after)) at (a.rings.distinct _ _ a.active))).1

  pub owner_active : v.owner (s_link x.desc) ≡ some semd_active
  owner_active =
      (All-remove (λ i. v.owner i ≡ some semd_active) (descs before) (s_link x.desc) (descs after)
        (rw (descs-append before (x ∷ after)) at (a.rings.owned _ _ a.active))).1

  spare_apart : NotIn (s_link x.desc) (semds spare)
  spare_apart =
      owned-NotIn v semd_free (s_link x.desc) (semds spare) (λ e. ground (arith, owner_active))
        (a.rings.owned _ _ a.free)

  others_hold : All (HoldsSem t w) (before ++ after)
  others_hold =
      holds-frame x.desc p s t v w a.rings f (before ++ after) others_apart
        (All-remove (HoldsSem s v) before x after a.holds).0

  spare_idle : All (λ z. w.items (s_procq z) ≡ some []) spare
  spare_idle = idle-frame x.desc p s t v w a.rings f spare spare_apart a.idle

  -- The semaphore gets another queue.
  pub Asl-update :
      (y : Sem)
      → y.desc ≡ x.desc
      → y.key ≡ x.key
      → w.items semd_active ≡ v.items semd_active
      → w.items semd_free ≡ v.items semd_free
      → HoldsSem t w y
      → Asl t w (before ++ y ∷ after) spare
  Asl-update y ed ek ea ef h = record {
    rings = f.rings;
    active = ea ∙ a.active ∙ ap some (descs-mid before x y after (sym ed));
    free = ef ∙ a.free;
    holds = All-insert (HoldsSem t w) before y after others_hold h;
    unique = subst Distinct (keys-mid before x y after (sym ek)) a.unique;
    idle = spare_idle;
  }

  -- The semaphore becomes inactive.
  pub Asl-close :
      w.items semd_active ≡ some (descs (before ++ after))
      → w.items semd_free ≡ some (semds (x.desc ∷ spare))
      → w.items (s_procq x.desc) ≡ some []
      → Asl t w (before ++ after) (x.desc ∷ spare)
  Asl-close ea ef eq = record {
    rings = f.rings;
    active = ea;
    free = ef;
    holds = others_hold;
    unique =
        rw (keys-append before after)
          (Distinct-remove (keys before) x.key (keys after)
            (rw (keys-append before (x ∷ after)) at a.unique)).0;
    idle = (eq, spare_idle);
  }

-- A free descriptor becomes active.
pub Asl-open :
    (s t : Store) (v w : View) (sems : List Sem) (x : Sem) (spare : List ℕ) (p : ℕ)
    → Asl s v sems (x.desc ∷ spare)
    → OnlyAt x.desc p s t v w
    → w.items semd_active ≡ some (descs (x ∷ sems))
    → w.items semd_free ≡ some (semds spare)
    → NotIn x.key (keys sems)
    → HoldsSem t w x
    → Asl t w (x ∷ sems) spare
Asl-open s t v w sems x spare p a f ea ef new h =
    let own : v.owner (s_link x.desc) ≡ some semd_free = (a.rings.owned _ _ a.free).0 in
    let out : NotIn (s_link x.desc) (semds spare) = (a.rings.distinct _ _ a.free).0 in
    let apart : NotIn (s_link x.desc) (descs sems) =
      owned-NotIn v semd_active (s_link x.desc) (descs sems) (λ e. ground (arith, own))
        (a.rings.owned _ _ a.active) in
    record {
      rings = f.rings;
      active = ea;
      free = ef;
      holds = (h, holds-frame x.desc p s t v w a.rings f sems apart a.holds);
      unique = (new, a.unique);
      idle = idle-frame x.desc p s t v w a.rings f spare out a.idle.1;
    }
